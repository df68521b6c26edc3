-- ===== src/Vns/Main/Untold.antt =====
-- The sender of vns/vns_sender.cc with the Eyenet congestion control.
use tcp_eyenet.Prelude.{
  ℕ, ◌≡◌, ◌⊎◌, inl, inr, refl, ap, Bool, Option, none, some, maybe, List, if_either,
}
use tcp_eyenet.Prelude.Int.{ℤ}
use tcp_eyenet.Double.{Double}
use tcp_eyenet.Vns.Args.{SenderArgs, CongestionType, linux, eyenet, parse_sender_args}
use tcp_eyenet.Vns.Eyenet.State
use tcp_eyenet.Vns.Eyenet.State.{Eyenet}
use tcp_eyenet.Vns.PacketSender.{Traffic, packet_sender}
use tcp_eyenet.Vns.PacketSender.Keeping.{run-Keeps}
use tcp_eyenet.Vns.Transport.Interface.{eyenet_cong}
use tcp_eyenet.Vns.Transport.State.{go, ◌>>=◌, OnGo, OnGo->>=, Sender, Job}
use tcp_eyenet.Vns.Transport.Sender.{begin_flow, turns, end_flow}
use tcp_eyenet.Vns.Transport.Handshake.{handshake}
use tcp_eyenet.Vns.Transport.Frozen.{IsFrozen, flow-IsFrozen, set_ts-IsFrozen}
use tcp_eyenet.Vns.Transport.Silent.{maybe_either}
use tcp_eyenet.Vns.Transport.Flows.{
  TcpTransport, FlowInput, start_shake, run_flow, send_data, tcp_transport, tcp_flow_sender,
}
use tcp_eyenet.Vns.Main.{Outside, Ran, not_run, ran_linux, ran_eyenet, run_eyenet, run_cong, main}

module _ {ℓ} {W : Type ℓ} ⦃d : Double W⦄ where
  open d use {dec}

  -- The congestion control is as it was made, or as after `initialize`, told of no acknowledgment.
  abbrev pub Untold : TcpTransport (Eyenet W) W → Type ℓ
  Untold t = (t.sender.cong ≡ State.eyenet (dec 1 0)) ⊎ IsFrozen t.sender.cong

  probes : (t : TcpTransport (Eyenet W) W) → Untold t → t.sender.cong.nprobe ≡ 10
  unfolding State.eyenet
  probes t (inl e) = ap (λ (k : Eyenet W). k.nprobe) e
  probes t (inr h) = h.probes

  abbrev Frozen : Sender (Eyenet W) W → Type ℓ
  Frozen s = IsFrozen s.cong

  end_flow-IsFrozen :
      (s : Sender (Eyenet W) W) (now : W) → IsFrozen s.cong → IsFrozen (end_flow s now).cong
  unfolding end_flow State.close
  end_flow-IsFrozen s now h = set_ts-IsFrozen s.cong now h

  run_flow-IsFrozen :
      (j : Job W) (s : Sender (Eyenet W) W) (i : FlowInput W)
      → s.cong.nprobe ≡ 10
      → OnGo Frozen (run_flow j s i)
  unfolding run_flow
  run_flow-IsFrozen j s i h =
      OnGo->>= (λ (r : Sender (Eyenet W) W × Bool). Frozen r.0) Frozen
        (turns i.fuel j (begin_flow (record s { buf = i.filled }) i.first_ts i.second_ts)
          i.turns_in)
        _ (flow-IsFrozen i.fuel j (record s { buf = i.filled }) i.first_ts i.second_ts i.turns_in h)
        (λ r k. if_either (OnGo Frozen) r.1 (end_flow-IsFrozen r.0 i.end_ts k) tt)

  send_data-Untold :
      (t : TcpTransport (Eyenet W) W) (i : FlowInput W) (fsz : W) (byte_switcher : Bool)
      (fid sid : ℤ)
      → Untold t
      → OnGo Untold (send_data t i fsz byte_switcher fid sid)
  unfolding send_data
  send_data-Untold t i fsz byte_switcher fid sid h =
      let j : Job W = record { fsz = fsz; byte_switcher = byte_switcher; fid = fid; sid = sid } in
      let flow = run_flow j t.sender i >>= λ s. go (record t { sender = s }) in
      if_either (OnGo Untold) t.sk.is_bound
        (maybe_either (OnGo Untold) (handshake (start_shake i.filled) i.rounds) flow tt (
          OnGo->>= Frozen Untold (run_flow j t.sender i) _
            (run_flow-IsFrozen j t.sender i (probes t h)) (λ s k. inr k)))
        tt

  run_eyenet-Untold :
      (to_string : W → List ℕ) (args : SenderArgs) (o : Outside W)
      → OnGo
          (λ (r : Traffic (TcpTransport (Eyenet W) W) W × Bool). Untold r.0.tcp_type)
          (run_eyenet to_string args o)
  unfolding run_eyenet tcp_transport
  run_eyenet-Untold to_string args o =
      run-Keeps Untold send_data-Untold (packet_sender args) o.sid _ o.eyenet_cycles (inl refl)

  -- What the program is left with, where it ran over Eyenet and no flow halted
  abbrev pub OnEyenet : (TcpTransport (Eyenet W) W → Type ℓ) → Ran W → Type ℓ
  OnEyenet P not_run = Unit
  OnEyenet P (ran_linux f) = Unit
  OnEyenet P (ran_eyenet f) =
      OnGo (λ (r : Traffic (TcpTransport (Eyenet W) W) W × Bool). P r.0.tcp_type) f

  by_cong :
      (to_string : W → List ℕ) (args : SenderArgs) (o : Outside W) (c : CongestionType)
      → OnEyenet Untold (run_cong to_string args o c)
  unfolding run_cong
  by_cong to_string args o linux = tt
  by_cong to_string args o eyenet = run_eyenet-Untold to_string args o

  -- Whatever the options, the network and the clock: where the sender runs over Eyenet and comes to its
  -- end, its congestion control is as the constructor made it, or, after any number of flows, has the
  -- window of 10 packets and the pacing of 0 of `initialize`, with no acknowledgment and no loss counted.
  pub main-Untold : (to_string : W → List ℕ) (o : Outside W) → OnEyenet Untold (main to_string o)
  unfolding main
  main-Untold to_string o = by_args (parse_sender_args o.options)
    where
      by_args :
          (a : Option SenderArgs)
          → OnEyenet Untold (maybe not_run a (λ args. run_cong to_string args o args.cong))
      by_args none = tt
      by_args (some args) = by_cong to_string args o args.cong
