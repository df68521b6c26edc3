-- ===== src/Vns/Eyenet/Steady.antt =====
-- The handlers of the congestion control keep its invariant, through any sequence of calls.
use tcp_eyenet.Prelude.{◌≡◌, subst, true, false, ◌||◌, arith, if_either, List, [], ◌∷◌}
use tcp_eyenet.Prelude.Int.{ℤ, pos, negsuc, ltb_ℤ, ◌-ℤ◌}
use tcp_eyenet.Double.{Double, IsIeee}
use tcp_eyenet.Vns.LossReduce.Rate.{update-among}
use tcp_eyenet.Vns.Eyenet.State.{Eyenet, PacketInfo, Unacked, eyenet, set_ts, initialize}
use tcp_eyenet.Vns.Eyenet.Packets.{count}
use tcp_eyenet.Vns.Eyenet.Handlers.{
  Outcome, OnOk, punish, tally_arrival, reduce_cwnd, count_ack, remember, count_sent, ok,
  exit_failure, ◌>>=◌, Sweep, take_sample, note_arrival, sweep_entry, sweep, sweep_acked,
  finish_ack, react, on_ack, age_oldest, on_pkt_sent,
}
use tcp_eyenet.Vns.Eyenet.Invariant.{
  IsSteady, IsConstant, update_intersend-IsSteady, update_delta-IsSteady, initialize-IsSteady,
  eyenet-IsSteady, set_pace-window, set_pace-IsConstant,
}

-- The calls that the transport makes.
pub data Call {ℓ} (W : Type ℓ) : Type ℓ where
  sets_ts : W → Call W
  initializes : Call W
  acks : ℤ → W → W → Call W
  sends : ℤ → Call W

OnOk->>= {ℓ κ μ ν} :
    {A : Type ℓ} {B : Type κ} (P : A → Type μ) (Q : B → Type ν) (m : Outcome A) (f : A → Outcome B)
    → OnOk P m
    → ((a : A) → P a → OnOk Q (f a))
    → OnOk Q (m >>= f)
OnOk->>= P Q (ok a) f h k = k a h
OnOk->>= P Q (exit_failure c) f h k = tt

module _ {ℓ} {W : Type ℓ} ⦃d : Double W⦄ where
  open d use {dec, times}

  unfoldable pub step : Eyenet W → Call W → Outcome (Eyenet W)
  step s (sets_ts ts) = ok (set_ts s ts)
  step s initializes = ok (initialize s)
  step s (acks ack recv_ts send_ts) = on_ack s ack recv_ts send_ts
  step s (sends seq_no) = ok (on_pkt_sent s seq_no)

  unfoldable pub run : Eyenet W → List (Call W) → Outcome (Eyenet W)
  run s [] = ok s
  run s (c ∷ cs) = step s c >>= λ t. run t cs

  module _ (laws : IsIeee W) where
    set_ts-IsSteady : (s : Eyenet W) (ts : W) → IsSteady s → IsSteady (set_ts s ts)
    unfolding set_ts
    set_ts-IsSteady s ts h = ground arith

    take_sample-IsSteady : (s : Eyenet W) (rtt : W) → IsSteady s → IsSteady (take_sample s rtt)
    unfolding take_sample
    take_sample-IsSteady s rtt h = ground arith

    note_arrival-IsSteady : (s : Eyenet W) → IsSteady s → IsSteady (note_arrival s)
    unfolding note_arrival
    note_arrival-IsSteady s h = ground arith

    react-IsSteady : (s : Eyenet W) (rtt : W) → IsSteady s → IsSteady (react s rtt)
    unfolding react
    react-IsSteady s rtt h =
        update_intersend-IsSteady laws _
          (update_delta-IsSteady laws _ false rtt (note_arrival-IsSteady s h))

    sweep_entry-IsSteady :
        (seq k : ℤ) (p : PacketInfo W) (w : Sweep W)
        → IsSteady w.state
        → IsSteady (sweep_entry seq k p w).state
    unfolding sweep_entry
    sweep_entry-IsSteady seq k p w h =
        let s = w.state in
        ground (arith, update-among s.reduce_on_loss true s.curr_ts s.rtt_sample.curr_rtt)

    sweep-IsSteady :
        (seq tmp : ℤ) (m : Unacked W) (w : Sweep W)
        → IsSteady w.state
        → OnOk (λ v. IsSteady v.state) (sweep seq tmp m w)
    unfolding sweep
    sweep-IsSteady seq tmp [] w h = h
    sweep-IsSteady seq tmp ((k, p) ∷ r) w h =
        if_either {A = Outcome (Sweep W)} (OnOk (λ v. IsSteady v.state)) (ltb_ℤ k tmp) tt (
          if_either {A = Outcome (Sweep W)} (OnOk (λ v. IsSteady v.state)) (ltb_ℤ seq k) h
            (sweep-IsSteady seq k r (sweep_entry seq k p w) (sweep_entry-IsSteady seq k p w h)))

    sweep_acked-IsSteady :
        (seq : ℤ) (s : Eyenet W) → IsSteady s → OnOk (λ v. IsSteady v.state) (sweep_acked seq s)
    unfolding sweep_acked
    sweep_acked-IsSteady seq s h =
        let w : Sweep W = record { state = s; lost = false; reduce = false } in
        if_either {A = Outcome (Sweep W)} (OnOk (λ v. IsSteady v.state)) (count seq s.unacked_pkts)
          (sweep-IsSteady seq (negsuc 0) s.unacked_pkts w h) h

    punish-IsSteady : (w : Sweep W) → IsSteady w.state → IsSteady (punish w)
    unfolding punish
    punish-IsSteady w h =
        if_either IsSteady w.lost (update_delta-IsSteady laws w.state true (dec 0 0) h) h

    tally_arrival-IsSteady : (s : Eyenet W) → IsSteady s → IsSteady (tally_arrival s).0
    unfolding tally_arrival
    tally_arrival-IsSteady s h =
        ground (arith, update-among s.reduce_on_loss false s.curr_ts s.rtt_sample.curr_rtt)

    reduce_cwnd-IsSteady : (s : Eyenet W) → IsSteady s → IsSteady (reduce_cwnd s)
    unfolding reduce_cwnd
    reduce_cwnd-IsSteady s h =
        let t = record s { cwnd = times s.cwnd (dec 8 1) } in
        let m : IsConstant t = ground arith in
        record { window = set_pace-window laws t; mode = set_pace-IsConstant laws t m }

    count_ack-IsSteady : (s : Eyenet W) → IsSteady s → IsSteady (count_ack s)
    unfolding count_ack
    count_ack-IsSteady s h = ground arith

    finish_ack-IsSteady : (w : Sweep W) → IsSteady w.state → IsSteady (finish_ack w)
    unfolding finish_ack
    finish_ack-IsSteady w h =
        let t = tally_arrival-IsSteady (punish w) (punish-IsSteady w h) in
        count_ack-IsSteady _ (
          if_either IsSteady (w.reduce || (tally_arrival (punish w)).1) (reduce_cwnd-IsSteady _ t)
            t)

    -- An acknowledgment keeps the invariant, unless it ends the program.
    on_ack-IsSteady :
        (s : Eyenet W) (ack : ℤ) (recv_ts send_ts : W)
        → IsSteady s
        → OnOk IsSteady (on_ack s ack recv_ts send_ts)
    unfolding on_ack
    on_ack-IsSteady s ack recv_ts send_ts h =
        let rtt = d.minus s.curr_ts send_ts in
        let t = take_sample s rtt in
        if_either {A = Outcome (Eyenet W)} (OnOk IsSteady) (d.lt s.curr_ts send_ts) tt (
          if_either {A = Outcome (Eyenet W)} (OnOk IsSteady)
            (d.lt t.rtt_sample.virgin_rtt.tail t.rtt_min) tt
            (OnOk->>= (λ v. IsSteady v.state) IsSteady (sweep_acked (ack -ℤ pos 1) (react t rtt))
              (λ w. ok (finish_ack w))
              (sweep_acked-IsSteady (ack -ℤ pos 1) (react t rtt)
                (react-IsSteady t rtt (take_sample-IsSteady s rtt h)))
              finish_ack-IsSteady))

    age_oldest-IsSteady : (m : Unacked W) (s : Eyenet W) → IsSteady s → IsSteady (age_oldest m s)
    unfolding age_oldest
    age_oldest-IsSteady [] s h = h
    age_oldest-IsSteady ((k, p) ∷ r) s h = ground arith

    remember-IsSteady : (s : Eyenet W) (seq : ℤ) → IsSteady s → IsSteady (remember s seq)
    unfolding remember
    remember-IsSteady s seq h = ground arith

    count_sent-IsSteady : (s : Eyenet W) → IsSteady s → IsSteady (count_sent s)
    unfolding count_sent
    count_sent-IsSteady s h = ground arith

    on_pkt_sent-IsSteady : (s : Eyenet W) (seq : ℤ) → IsSteady s → IsSteady (on_pkt_sent s seq)
    unfolding on_pkt_sent
    on_pkt_sent-IsSteady s seq h =
        count_sent-IsSteady _ (age_oldest-IsSteady _ (remember s seq) (remember-IsSteady s seq h))

    -- Every call keeps the invariant.
    pub step-IsSteady : (s : Eyenet W) (c : Call W) → IsSteady s → OnOk IsSteady (step s c)
    unfolding step
    step-IsSteady s (sets_ts ts) h = set_ts-IsSteady s ts h
    step-IsSteady s initializes h = initialize-IsSteady laws s h.mode
    step-IsSteady s (acks ack recv_ts send_ts) h = on_ack-IsSteady s ack recv_ts send_ts h
    step-IsSteady s (sends seq_no) h = on_pkt_sent-IsSteady s seq_no h

    run-IsSteady : (s : Eyenet W) (cs : List (Call W)) → IsSteady s → OnOk IsSteady (run s cs)
    unfolding run
    run-IsSteady s [] h = h
    run-IsSteady s (c ∷ cs) h =
        OnOk->>= IsSteady IsSteady (step s c) (λ t. run t cs) (step-IsSteady s c h)
          (λ t k. run-IsSteady t cs k)

    -- After any calls, in any order, that `main`'s object has seen without an exit, the window is at
    -- least 2.0, the mode is still the constant one, and `delta` is 1.0 or 0.5.
    pub run-eyenet-IsSteady :
        (cs : List (Call W)) {s : Eyenet W} → run (eyenet (dec 1 0)) cs ≡ ok s → IsSteady s
    run-eyenet-IsSteady cs e =
        subst (OnOk IsSteady) e (run-IsSteady (eyenet (dec 1 0)) cs (eyenet-IsSteady laws))
