-- ===== src/Vns/PacketSender/Plan.antt =====
-- The flows that `packet_sender::run` of vns/vns_packet_sender.hh starts.
use tcp_eyenet.Prelude.{
  ℕ, zero, suc, ◌+◌, ◌≤◌, ◌≡◌, refl, sym, ap, ◌∙◌, if◌then◌else◌, Bool, true, false, List, [], ◌∷◌,
  ◌++◌, append-nil, append_assoc, length, arith,
}
use tcp_eyenet.Prelude.Int.{ℤ, pos, ◌+ℤ◌, leb_ℤ}
use tcp_eyenet.Double.{Double}
use tcp_eyenet.Vns.Args.{SwitchingType, time, bytes, TrafficDistType, exponential, deterministic}
use tcp_eyenet.Vns.Transport.State.{Flow, go, halt, ◌>>=◌}
use tcp_eyenet.Vns.PacketSender.{
  is_deterministic, is_byte_switcher, FlowSender, PacketSender, Cycle, Call, Traffic, call_of,
  make_call, run_from, run,
}

abbrev pub by_dist {ℓ} : {A : Type ℓ} → TrafficDistType → A → A → A
by_dist deterministic fixed sample = fixed
by_dist exponential fixed sample = sample

abbrev pub in_bytes : SwitchingType → Bool
in_bytes bytes = true
in_bytes time = false

-- The call for a cycle: the fixed sizes, or the samples
abbrev pub planned {ℓ κ} :
    {W : Type ℓ} {E : Type κ} ⦃d : Double W⦄ → PacketSender W → ℤ → ℤ → Cycle E W → Call W
planned ⦃d⦄ p fid sid c = record {
  off = d.to_int (by_dist p.traffic_dist p.off_units c.off_sample);
  on = by_dist p.traffic_dist p.on_units c.on_sample;
  byte_switcher = in_bytes p.switcher;
  fid = fid;
  sid = sid;
}

-- The calls for a number of cycles, counted on from `fid`
abbrev pub plan {ℓ κ} :
    {W : Type ℓ} {E : Type κ} ⦃d : Double W⦄
    → PacketSender W
    → ℤ
    → ℕ
    → ℕ
    → List (Cycle E W)
    → List (Call W)
plan p sid fid zero cycles = []
plan p sid fid (suc n) [] = []
plan p sid fid (suc n) (c ∷ cycles) = planned p (pos fid) sid c ∷ plan p sid (suc fid) n cycles

-- The flows of a number of cycles, one after the other, over the transport `u`
abbrev pub flows {ℓ κ μ} :
    {W : Type ℓ} {T : Type κ} {E : Type μ} ⦃t : FlowSender T E W⦄
    → PacketSender W
    → ℤ
    → ℕ
    → ℕ
    → T
    → List (Cycle E W)
    → Flow T
flows p sid fid zero u cycles = go u
flows p sid fid (suc n) u [] = go u
flows ⦃t⦄ p sid fid (suc n) u (c ∷ cycles) =
    t.send_data u c.input (by_dist p.traffic_dist p.on_units c.on_sample) (in_bytes p.switcher)
      (pos fid) sid
    >>= λ v. flows p sid (suc fid) n v cycles

pub over : (m n : ℕ) → n ≡ m → leb_ℤ (pos (suc m)) (pos n) ≡ false
over m n e = ground arith

pub within : (m n : ℕ) → suc m ≤ n → leb_ℤ (pos (suc m)) (pos n) ≡ true
within m n e = ground arith

pub next_id : (n : ℕ) → (pos n +ℤ pos 1) ≡ pos (suc n)
unfolding ◌+ℤ◌
next_id n = ground arith

by_dist_choice {ℓ} :
    {A : Type ℓ} (k : TrafficDistType) (a b : A)
    → (if is_deterministic k then a else b) ≡ by_dist k a b
by_dist_choice deterministic a b = refl
by_dist_choice exponential a b = refl

in_bytes_choice : (k : SwitchingType) → is_byte_switcher k ≡ in_bytes k
in_bytes_choice bytes = refl
in_bytes_choice time = refl

pub planned-is_call {ℓ κ} :
    {W : Type ℓ} {E : Type κ} ⦃d : Double W⦄ (p : PacketSender W) (fid sid : ℤ) (c : Cycle E W)
    → call_of p fid sid c ≡ planned p fid sid c
unfolding call_of
planned-is_call ⦃d⦄ p fid sid c = λ i. record {
  off = d.to_int (by_dist_choice p.traffic_dist p.off_units c.off_sample i);
  on = by_dist_choice p.traffic_dist p.on_units c.on_sample i;
  byte_switcher = in_bytes_choice p.switcher i;
  fid = fid;
  sid = sid;
}

module _ {ℓ κ} {W : Type ℓ} {T : Type κ} where
  -- The end of the loop, with the calls `calls`
  abbrev ended : List (Call W) → T → Flow (Traffic T W × Bool)
  ended calls u = go (record { tcp_type = u; calls = calls }, true)

  -- A flow that is over, and those that follow it
  by_flow :
      (next : Traffic T W → Flow (Traffic T W × Bool)) (calls : List (Call W)) (later : T → Flow T)
      (all : List (Call W)) (x : Flow T)
      → ((u : T) → next (record { tcp_type = u; calls = calls }) ≡ (later u >>= ended all))
      → (x >>= (λ u. go (record { tcp_type = u; calls = calls })) >>= next)
        ≡ (x >>= later >>= ended all)
  by_flow next calls later all (go u) h = h u
  by_flow next calls later all (halt r) h = refl

module _ {ℓ κ μ} {W : Type ℓ} {T : Type κ} {E : Type μ} ⦃d : Double W⦄ ⦃t : FlowSender T E W⦄ where
  make_call-then :
      (f : Traffic T W) (k : Call W) (e : E) (next : Traffic T W → Flow (Traffic T W × Bool))
      (later : T → Flow T) (all : List (Call W))
      → ((u : T)
          → next (record { tcp_type = u; calls = f.calls ++ k ∷ [] }) ≡ (later u >>= ended all))
      → (make_call f k e >>= next)
        ≡ (t.send_data f.tcp_type e k.on k.byte_switcher k.fid k.sid >>= later >>= ended all)
  unfolding make_call
  make_call-then f k e next later all h =
      by_flow next (f.calls ++ k ∷ []) later all
        (t.send_data f.tcp_type e k.on k.byte_switcher k.fid k.sid) h

  run_from-flows :
      (p : PacketSender W) (sid : ℤ) (fid n k : ℕ) (f : Traffic T W) (cycles : List (Cycle E W))
      → p.ncycles ≡ pos k
      → k ≡ fid + n
      → n ≤ length cycles
      → run_from p (pos (suc fid)) sid f cycles ≡ (
          flows p sid (suc fid) n f.tcp_type cycles
          >>= ended (f.calls ++ plan p sid (suc fid) n cycles))
  unfolding run_from
  run_from-flows p sid fid zero k f [] e g h =
      rw (e, over fid k (omega arith)) (ap (λ l. ended l f.tcp_type) (sym (append-nil f.calls)))
  run_from-flows p sid fid zero k f (c ∷ cycles) e g h =
      rw (e, over fid k (omega arith)) (ap (λ l. ended l f.tcp_type) (sym (append-nil f.calls)))
  run_from-flows p sid fid (suc n) k f [] e g h = absurd (omega arith)
  run_from-flows p sid fid (suc n) k f (c ∷ cycles) e g h =
      let one = planned p (pos (suc fid)) sid c in
      let next : Traffic T W → Flow (Traffic T W × Bool) =
        λ g'. run_from p (pos (suc (suc fid))) sid g' cycles in
      rw (e, within fid k (omega arith), next_id (suc fid))
        (ap (λ x. make_call f x c.input >>= next) (planned-is_call p (pos (suc fid)) sid c)
          ∙ make_call-then f one c.input next (λ v. flows p sid (suc (suc fid)) n v cycles)
              (f.calls ++ one ∷ plan p sid (suc (suc fid)) n cycles)
              (λ u.
                run_from-flows p sid (suc fid) n k
                  (record { tcp_type = u; calls = f.calls ++ one ∷ [] }) cycles e (omega arith)
                  (omega arith)
                ∙ ap (λ l. flows p sid (suc (suc fid)) n u cycles >>= ended l)
                    (append_assoc f.calls (one ∷ []) (plan p sid (suc (suc fid)) n cycles))))

  -- With samples for every cycle: what `run` does to the transport is one flow after another, one for
  -- each cycle, numbered from 1 and all with the session's number, in bytes or in time as the switcher
  -- says, of the fixed sizes or of the samples as the distribution says. Where no flow halts it ends, and
  -- the log has these calls in their order, each with its sleep, by the same choice, in whole
  -- milliseconds.
  pub run-Planned :
      (p : PacketSender W) (sid : ℤ) (n : ℕ) (u : T) (cycles : List (Cycle E W))
      → p.ncycles ≡ pos n
      → n ≤ length cycles
      → run p sid u cycles ≡ (
          flows p sid 1 n u cycles >>= λ v.
          go (record { tcp_type = v; calls = plan p sid 1 n cycles }, true))
  unfolding run
  run-Planned p sid n u cycles e h =
      run_from-flows p sid 0 n n (record { tcp_type = u; calls = [] }) cycles e (omega arith) h
