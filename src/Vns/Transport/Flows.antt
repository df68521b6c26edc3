-- ===== src/Vns/Transport/Flows.antt =====
-- `tcp_transport::tcp_transport` and the whole of `tcp_transport::send_data` of vns/vns_transport.hh.
use tcp_eyenet.Prelude.{ℕ, Bool, List, [], maybe, if◌then◌else◌}
use tcp_eyenet.Prelude.Int.{ℤ, pos, negsuc}
use tcp_eyenet.Double.{Double}
use tcp_eyenet.Vns.Socket.{EyenetSocket, eyenet_socket, bind_sk_to}
use tcp_eyenet.Vns.Args.{SenderArgs}
use tcp_eyenet.Vns.PacketSender.{FlowSender}
use tcp_eyenet.Vns.Transport.Interface.{Cong, PacketHeader, Received, neg}
use tcp_eyenet.Vns.Transport.Handshake.{Shake, handshake}
use tcp_eyenet.Vns.Transport.State.{Flow, go, halt, ◌>>=◌, aborted, unfinished, Sender, Turn, Job}
use tcp_eyenet.Vns.Transport.Sender.{begin_flow, turns, end_flow}

pub record TcpTransport {ℓ κ} (C : Type κ) (W : Type ℓ) : Type (ℓ ⊔ κ) where
  pub sender : Sender C W
  pub sk : EyenetSocket

-- What a flow takes from outside: what is in its buffers at first, the rounds of its handshake, the
-- readings of the clock round the loop, the loop's turns, and the fuel of its bursts.
pub record FlowInput {ℓ} (W : Type ℓ) : Type ℓ where
  pub filled : PacketHeader W
  pub rounds : List (W × Received W)
  pub first_ts : W
  pub second_ts : W
  pub fuel : ℕ
  pub turns_in : List (Turn W)
  pub end_ts : W

module _ {ℓ} {W : Type ℓ} ⦃d : Double W⦄ where
  -- The variables of `handshake` at its start; -1E9 is the time of the last probe.
  unfoldable pub start_shake : PacketHeader W → Shake W
  start_shake filled = record { last_s_ts = d.of_int (negsuc 999999999); buf = filled; sent = [] }

module _ {ℓ κ} {W : Type ℓ} {C : Type κ} ⦃d : Double W⦄ ⦃c : Cong C W⦄ where
  open d use {dec}

  -- The constructor, by the results of socket and bind; that of `bind_sk` is not looked at.
  unfoldable pub tcp_transport : C → SenderArgs → ℤ → ℤ → PacketHeader W → TcpTransport C W
  tcp_transport cong args fd rc garbage = record {
    sender = record {
      cong = cong;
      bn_train = args.bn_train;
      last_s_ts = dec 0 0;
      last_r_ts = dec 0 0;
      last_ack_ts = dec 0 0;
      delay_aggr = dec 0 0;
      trans_time_aggr = dec 0 0;
      largest_ack = neg;
      npkts = 0;
      nbytes = 0;
      seq_num = pos 0;
      curr_ts = dec 0 0;
      rate_est = dec 0 0;
      buf = garbage;
      sent = [];
    };
    sk = (bind_sk_to (eyenet_socket fd) args.dst_ip args.dst_port args.src_port rc).0;
  }

  -- The loop and what follows it
  unfoldable pub run_flow : Job W → Sender C W → FlowInput W → Flow (Sender C W)
  run_flow j s i =
      turns i.fuel j (begin_flow (record s { buf = i.filled }) i.first_ts i.second_ts) i.turns_in
      >>= λ r. if r.1 then go (end_flow r.0 i.end_ts) else halt unfinished

  -- `send_data`; the assertion of the socket's `send_data` stands in the first round of the handshake.
  unfoldable pub send_data :
      TcpTransport C W → FlowInput W → W → Bool → ℤ → ℤ → Flow (TcpTransport C W)
  unfolding start_shake run_flow
  send_data t i fsz byte_switcher fid sid =
      let j : Job W = record { fsz = fsz; byte_switcher = byte_switcher; fid = fid; sid = sid } in
      let flow = run_flow j t.sender i >>= λ s. go (record t { sender = s }) in
      if t.sk.is_bound
      then maybe (halt unfinished) (handshake (start_shake i.filled) i.rounds) (λ _. flow)
      else halt aborted

  instance abbrev pub tcp_flow_sender : FlowSender (TcpTransport C W) (FlowInput W) W
  tcp_flow_sender = record { send_data = send_data }
