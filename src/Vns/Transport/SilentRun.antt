-- ===== src/Vns/Transport/SilentRun.antt =====
-- `packet_sender::run` of vns/vns_packet_sender.hh over the transport, with fixed flows in bytes.
use tcp_eyenet.Prelude.{
  ◌*◌, ◌≡◌, refl, sym, ap, ◌∙◌, subst, Bool, true, false, List, [], ◌∷◌, if◌then◌else◌, if_either,
}
use tcp_eyenet.Prelude.Int.{ℤ, pos, ◌+ℤ◌, leb_ℤ}
use tcp_eyenet.Double.{Double}
use tcp_eyenet.Vns.Args.{bytes, deterministic}
use tcp_eyenet.Vns.PacketSender.{
  is_deterministic, is_byte_switcher, PacketSender, Cycle, Call, Traffic, call_of, make_call,
  run_from, run,
}
use tcp_eyenet.Vns.Transport.Interface.{Cong, payload}
use tcp_eyenet.Vns.Transport.State.{OnGo, OnGo->>=, Flow, go, ◌>>=◌}
use tcp_eyenet.Vns.Transport.Flows.{TcpTransport, FlowInput, send_data, tcp_flow_sender}
use tcp_eyenet.Vns.Transport.Silent.{Reached, Silent, send_data-Silent, send_data-Reached}

-- The call of every round of fixed flows in bytes
abbrev fixed_call {ℓ} : {W : Type ℓ} ⦃d : Double W⦄ → PacketSender W → ℤ → ℤ → Call W
fixed_call ⦃d⦄ p fid sid = record {
  off = d.to_int p.off_units;
  on = p.on_units;
  byte_switcher = true;
  fid = fid;
  sid = sid;
}

call_of-fixed {ℓ κ} :
    {W : Type ℓ} {E : Type κ} ⦃d : Double W⦄ (p : PacketSender W) (fid sid : ℤ) (k : Cycle E W)
    → p.traffic_dist ≡ deterministic
    → p.switcher ≡ bytes
    → call_of p fid sid k ≡ fixed_call p fid sid
unfolding call_of
call_of-fixed ⦃d⦄ p fid sid k dist switch = λ i. record {
  off = d.to_int (if is_deterministic (dist i) then p.off_units else k.off_sample);
  on = if is_deterministic (dist i) then p.on_units else k.on_sample;
  byte_switcher = is_byte_switcher (switch i);
  fid = fid;
  sid = sid;
}

module _ {ℓ κ} {W : Type ℓ} {C : Type κ} ⦃d : Double W⦄ ⦃c : Cong C W⦄ (p : PacketSender W)
    (sid : ℤ) (dist : p.traffic_dist ≡ deterministic) (switch : p.switcher ≡ bytes) where
  make_call-Silent :
      (f : Traffic (TcpTransport C W) W) (fid : ℤ) (k : Cycle (FlowInput W) W)
      → Reached p.on_units f.tcp_type.sender
      → OnGo
          (λ (g : Traffic (TcpTransport C W) W). Silent f.tcp_type g.tcp_type)
          (make_call f (call_of p fid sid k) k.input)
  unfolding make_call
  make_call-Silent f fid k full =
      subst
        (λ (x : Call W).
          OnGo (λ (g : Traffic (TcpTransport C W) W). Silent f.tcp_type g.tcp_type)
            (make_call f x k.input))
        (sym (call_of-fixed p fid sid k dist switch))
        (OnGo->>= (Silent f.tcp_type) _ (send_data f.tcp_type k.input p.on_units true fid sid) _
          (send_data-Silent f.tcp_type k.input p.on_units fid sid full) (λ u h. h))

  -- The packets that were sent stay what they are.
  abbrev Still : Traffic (TcpTransport C W) W → Traffic (TcpTransport C W) W × Bool → Type ℓ
  Still f r = r.0.tcp_type.sender.sent ≡ f.tcp_type.sender.sent

  run_from-Still :
      (f : Traffic (TcpTransport C W) W) (fid : ℤ) (cycles : List (Cycle (FlowInput W) W))
      → Reached p.on_units f.tcp_type.sender
      → OnGo (Still f) (run_from p fid sid f cycles)
  unfolding run_from
  run_from-Still f fid [] full = refl
  run_from-Still f fid (k ∷ cycles) full =
      if_either (OnGo (Still f)) (leb_ℤ fid p.ncycles)
        (OnGo->>= (λ (g : Traffic (TcpTransport C W) W). Silent f.tcp_type g.tcp_type) (Still f)
          (make_call f (call_of p fid sid k) k.input) _ (make_call-Silent f fid k full)
          (λ g h. later g h (
            run_from-Still g (fid +ℤ pos 1) cycles (
              subst (λ n. d.lt (d.of_int (pos (n * payload))) p.on_units ≡ false) (sym h.1) full))))
        refl
    where
      later :
          (g : Traffic (TcpTransport C W) W)
          → Silent f.tcp_type g.tcp_type
          → OnGo (Still g) (run_from p (fid +ℤ pos 1) sid g cycles)
          → OnGo (Still f) (run_from p (fid +ℤ pos 1) sid g cycles)
      later g h x =
          subst
            (λ l.
              OnGo (λ (r : Traffic (TcpTransport C W) W × Bool). r.0.tcp_type.sender.sent ≡ l)
                (run_from p (fid +ℤ pos 1) sid g cycles))
            h.0 x

  first_call :
      (t u : TcpTransport C W) (first : Cycle (FlowInput W) W)
      → send_data t first.input p.on_units true (pos 1) sid ≡ go u
      → make_call (record { tcp_type = t; calls = [] }) (call_of p (pos 1) sid first) first.input
        ≡ go (record { tcp_type = u; calls = fixed_call p (pos 1) sid ∷ [] })
  unfolding make_call
  first_call t u first e =
      ap (λ (k : Call W). make_call (record { tcp_type = t; calls = [] }) k first.input)
        (call_of-fixed p (pos 1) sid first dist switch)
      ∙ ap
          (λ (x : Flow (TcpTransport C W)).
            x >>= λ v. go (record { tcp_type = v; calls = fixed_call p (pos 1) sid ∷ [] }))
          e

  -- A run of fixed flows in bytes: when its first flow is over, no later cycle sends a packet of data,
  -- whatever comes from outside.
  pub run-Still :
      (t u : TcpTransport C W) (first : Cycle (FlowInput W) W)
      (cycles : List (Cycle (FlowInput W) W))
      → leb_ℤ (pos 1) p.ncycles ≡ true
      → send_data t first.input p.on_units true (pos 1) sid ≡ go u
      → OnGo
          (λ (r : Traffic (TcpTransport C W) W × Bool). r.0.tcp_type.sender.sent ≡ u.sender.sent)
          (run p sid t (first ∷ cycles))
  unfolding run run_from
  run-Still t u first cycles one e =
      let full =
        subst (OnGo (λ (v : TcpTransport C W). Reached p.on_units v.sender)) e
          (send_data-Reached t first.input p.on_units (pos 1) sid) in
      rw one (
        subst
          (λ (x : Flow (Traffic (TcpTransport C W) W)).
            OnGo
              (λ (r : Traffic (TcpTransport C W) W × Bool).
                r.0.tcp_type.sender.sent ≡ u.sender.sent)
              (x >>= λ g. run_from p (pos 1 +ℤ pos 1) sid g cycles))
          (sym (first_call t u first e))
          (run_from-Still (record { tcp_type = u; calls = fixed_call p (pos 1) sid ∷ [] })
            (pos 1 +ℤ pos 1) cycles full))
