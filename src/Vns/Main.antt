-- ===== src/Vns/Main.antt =====
-- `main` of vns/vns_sender.cc.

pub mod Linux
pub mod Untold
use tcp_eyenet.Prelude.{ℕ, Bool, List, Option, none, some, maybe}
use tcp_eyenet.Prelude.Int.{ℤ}
use tcp_eyenet.Double.{Double}
use tcp_eyenet.Vns.Args.{SenderArgs, VariablesMap, CongestionType, linux, eyenet, parse_sender_args}
use tcp_eyenet.Vns.Default
use tcp_eyenet.Vns.Default.{DefaultCong, default_cong}
use tcp_eyenet.Vns.Eyenet.State
use tcp_eyenet.Vns.Eyenet.State.{Eyenet}
use tcp_eyenet.Vns.PacketSender.{FlowSender, Cycle, Traffic, packet_sender, run}
use tcp_eyenet.Vns.Transport.Interface.{PacketHeader, eyenet_cong}
use tcp_eyenet.Vns.Transport.State.{Flow, go}
use tcp_eyenet.Vns.Transport.Flows.{TcpTransport, FlowInput, tcp_transport, tcp_flow_sender}

-- What the program takes from outside: the options, the session's number, the rounds of either transport,
-- the results of socket and bind, and what is in the new transport's buffer.
pub record Outside {ℓ} (W : Type ℓ) : Type ℓ where
  pub options : Option VariablesMap
  pub sid : ℤ
  pub linux_cycles : List (Cycle (Unit {0}) W)
  pub eyenet_cycles : List (Cycle (FlowInput W) W)
  pub fd : ℤ
  pub rc : ℤ
  pub garbage : PacketHeader W

-- `not_run`: the program ends before a transport is made.
pub data Ran {ℓ} (W : Type ℓ) : Type ℓ where
  not_run : Ran W
  ran_linux : Flow (Traffic DefaultCong W × Bool) → Ran W
  ran_eyenet : Flow (Traffic (TcpTransport (Eyenet W) W) W × Bool) → Ran W

module _ {ℓ} {W : Type ℓ} ⦃d : Double W⦄ (to_string : W → List ℕ) where
  abbrev pub default_flow_sender : FlowSender DefaultCong (Unit {0}) W
  default_flow_sender = record {
    send_data = λ c _ fsz byte_switcher fid sid.
        go (Default.send_data to_string c fsz byte_switcher fid sid);
  }

  -- The two cases of the switch
  unfoldable pub run_linux : SenderArgs → Outside W → Flow (Traffic DefaultCong W × Bool)
  run_linux args o =
      run ⦃t = default_flow_sender⦄ (packet_sender args) o.sid (default_cong args.dst_ip)
        o.linux_cycles

  unfoldable pub run_eyenet :
      SenderArgs → Outside W → Flow (Traffic (TcpTransport (Eyenet W) W) W × Bool)
  run_eyenet args o =
      run (packet_sender args) o.sid
        (tcp_transport (State.eyenet (d.dec 1 0)) args o.fd o.rc o.garbage) o.eyenet_cycles

  unfoldable pub run_cong : SenderArgs → Outside W → CongestionType → Ran W
  run_cong args o linux = ran_linux (run_linux args o)
  run_cong args o eyenet = ran_eyenet (run_eyenet args o)

  -- `main`
  unfoldable pub main : Outside W → Ran W
  unfolding run_cong
  main o = maybe not_run (parse_sender_args o.options) (λ args. run_cong args o args.cong)
