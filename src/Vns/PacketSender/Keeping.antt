-- ===== src/Vns/PacketSender/Keeping.antt =====
-- What a run of `packet_sender` of vns/vns_packet_sender.hh leaves of its transport.
use tcp_eyenet.Prelude.{Bool, List, [], ◌∷◌, if_either}
use tcp_eyenet.Prelude.Int.{ℤ, pos, ◌+ℤ◌, leb_ℤ}
use tcp_eyenet.Double.{Double}
use tcp_eyenet.Vns.PacketSender.{
  FlowSender, PacketSender, Cycle, Call, Traffic, call_of, make_call, run_from, run,
}
use tcp_eyenet.Vns.Transport.State.{OnGo, OnGo->>=}

-- A property of the transport that every flow keeps
module _ {ℓ κ μ ν} {W : Type ℓ} {T : Type κ} {E : Type μ} ⦃d : Double W⦄ ⦃t : FlowSender T E W⦄
    (P : T → Type ν)
    (kept : (u : T) (e : E) (fsz : W) (byte_switcher : Bool) (fid sid : ℤ)
      → P u
      → OnGo P (t.send_data u e fsz byte_switcher fid sid)) where
  abbrev pub Keeps : Traffic T W → Type ν
  Keeps f = P f.tcp_type

  make_call-Keeps : (f : Traffic T W) (k : Call W) (e : E) → Keeps f → OnGo Keeps (make_call f k e)
  unfolding make_call
  make_call-Keeps f k e h =
      OnGo->>= P Keeps (t.send_data f.tcp_type e k.on k.byte_switcher k.fid k.sid) _
        (kept f.tcp_type e k.on k.byte_switcher k.fid k.sid h) (λ u g. g)

  run_from-Keeps :
      (p : PacketSender W) (fid sid : ℤ) (f : Traffic T W) (cycles : List (Cycle E W))
      → Keeps f
      → OnGo (λ (r : Traffic T W × Bool). Keeps r.0) (run_from p fid sid f cycles)
  unfolding run_from
  run_from-Keeps p fid sid f [] h = h
  run_from-Keeps p fid sid f (c ∷ cycles) h =
      if_either (OnGo (λ (r : Traffic T W × Bool). Keeps r.0)) (leb_ℤ fid p.ncycles)
        (OnGo->>= Keeps (λ (r : Traffic T W × Bool). Keeps r.0)
          (make_call f (call_of p fid sid c) c.input) _
          (make_call-Keeps f (call_of p fid sid c) c.input h)
          (λ g k. run_from-Keeps p (fid +ℤ pos 1) sid g cycles k))
        h

  pub run-Keeps :
      (p : PacketSender W) (sid : ℤ) (u : T) (cycles : List (Cycle E W))
      → P u
      → OnGo (λ (r : Traffic T W × Bool). Keeps r.0) (run p sid u cycles)
  unfolding run
  run-Keeps p sid u cycles h =
      run_from-Keeps p (pos 1) sid (record { tcp_type = u; calls = [] }) cycles h
