-- ===== src/Vns/Transport/Burst.antt =====
-- The burst of `send_data` ends, at the end of a train and within the window.
use tcp_eyenet.Prelude.{
  ℕ, zero, suc, ◌+◌, ◌-◌, ◌%◌, ◌≤◌, ◌<◌, ◌≡◌, ◌≢◌, ◌∙◌, ap, refl, inl, inr, arith, Bool, true,
  false, not, ◌||◌, ◌==◌, if_either, if◌then◌else◌, Bool-cases,
}
use tcp_eyenet.Prelude.Int.{ℤ, pos, ◌+ℤ◌, quot, rem, eqb_ℤ}
use native.Mathlib.Nat.{add-zero, zero-mod}
use tcp_eyenet.Double.{Double}
use tcp_eyenet.Vns.Transport.Interface.{Cong}
use tcp_eyenet.Vns.Transport.Sender.{
  go, halt, division_by_zero, Flow, Sender, Job, may_start, send_one, burst,
}

rem_pos : (n m : ℕ) → rem (pos n) (pos m) ≡ pos (n % m)
unfolding rem
rem_pos n m = rw (add-zero m, zero-mod m) (ground arith)

next_pos : (n : ℕ) → pos n +ℤ pos 1 ≡ pos (n + 1)
unfolding ◌+ℤ◌
next_pos n = ground arith

-- Sending a packet leaves the window of the congestion control.
abbrev pub KeepsWindow {ℓ κ} : (W : Type ℓ) (C : Type κ) ⦃c : Cong C W⦄ → Type (ℓ ⊔ κ)
KeepsWindow W C ⦃c⦄ = (k : C) (ts : W) (q : ℤ) → c.cwnd (c.on_pkt_sent (c.set_ts k ts) q) ≡ c.cwnd k

module _ {ℓ κ} {W : Type ℓ} {C : Type κ} ⦃d : Double W⦄ ⦃c : Cong C W⦄ where
  open d use {of_int, plus, dec, lt}

  -- The number at which the window closes is `top` or below it.
  abbrev pub IsClosedAt : ℕ → Sender C W → Type 0
  IsClosedAt top s =
      lt (of_int (pos top)) (plus (plus (of_int s.largest_ack) (c.cwnd s.cong)) (dec 1 0)) ≡ false

  closed-not_start :
      (top : ℕ) (s : Sender C W) → s.seq_num ≡ pos top → IsClosedAt top s → may_start s ≡ false
  unfolding may_start
  closed-not_start top s e h = rw (e, h)

  send_one-window :
      (j : Job W) (s : Sender C W) → KeepsWindow W C → c.cwnd (send_one j s).cong ≡ c.cwnd s.cong
  unfolding send_one
  send_one-window j s keep =
      if_either (λ k. c.cwnd k ≡ c.cwnd s.cong) (eqb_ℤ (rem s.seq_num s.bn_train) (pos 0))
        (keep s.cong s.curr_ts (quot s.seq_num s.bn_train)) refl

  send_one-same :
      (j : Job W) (s : Sender C W)
      → ((send_one j s).bn_train ≡ s.bn_train)
        × ((send_one j s).largest_ack ≡ s.largest_ack)
        × ((send_one j s).seq_num ≡ s.seq_num +ℤ pos 1)
  unfolding send_one
  send_one-same j s = (refl, refl, refl)

  -- The test of the burst at a number below 2^31 with a train of `m` packets
  train_test :
      (s : Sender C W) (n m : ℕ)
      → s.seq_num ≡ pos n
      → s.bn_train ≡ pos m
      → eqb_ℤ (rem s.seq_num s.bn_train) (pos 0) ≡ (n % m == 0)
  train_test s n m e f = rw (e, f, rem_pos n m) (ground arith)

  -- A round of the burst halts, goes on with one packet more, or ends.
  pub burst-cases {μ} :
      (P : Flow (Sender C W) → Type μ) (fuel : ℕ) (j : Job W) (s : Sender C W)
      → P (halt division_by_zero)
      → P (burst fuel j (send_one j s))
      → P (go s)
      → P (burst (suc fuel) j s)
  unfolding burst
  burst-cases P fuel j s h k l =
      let zero_train = eqb_ℤ s.bn_train (pos 0) in
      let body = if_either P zero_train h k in
      if_either P (may_start s) body
        (if_either P zero_train h (if_either P (eqb_ℤ (rem s.seq_num s.bn_train) (pos 0)) l body))

  burst_step :
      (fuel n m : ℕ) (j : Job W) (s : Sender C W)
      → s.bn_train ≡ pos m
      → 0 < m
      → s.seq_num ≡ pos n
      → burst (suc fuel) j s
        ≡ (if may_start s || not (n % m == 0) then burst fuel j (send_one j s) else go s)
  unfolding burst
  burst_step fuel n m j s tr hm e =
      let nonzero : eqb_ℤ s.bn_train (pos 0) ≡ false = rw tr (ground arith) in
      rw (nonzero, train_test s n m e tr)
        (round (may_start s) (n % m == 0) (burst fuel j (send_one j s)) (go s))
    where
      round :
          (a b : Bool) (x y : Flow (Sender C W))
          → (if a then x else if b then y else x) ≡ (if a || not b then x else y)
      round true b x y = refl
      round false true x y = refl
      round false false x y = refl

  -- A packet that is sent is below `top`.
  more-lt :
      (n top m : ℕ) (s : Sender C W)
      → s.seq_num ≡ pos n
      → n ≤ top
      → top % m ≡ 0
      → IsClosedAt top s
      → (may_start s || not (n % m == 0)) ≡ true
      → n < top
  more-lt n top m s e le end closed more =
      let differ : n ≢ top =
        λ q. ground (arith, closed-not_start top s (e ∙ ap pos q) closed, ap (λ x. x % m) q) in
      omega arith

  -- A burst whose window closes at `top`, the end of a train, or earlier, ends: with enough fuel it
  -- comes to the end of a train, no later than `top`, and leaves `largest_ack`.
  pub burst-returns :
      (fuel n top m : ℕ) (j : Job W) (s : Sender C W)
      → KeepsWindow W C
      → s.bn_train ≡ pos m
      → 0 < m
      → s.seq_num ≡ pos n
      → n ≤ top
      → top % m ≡ 0
      → IsClosedAt top s
      → top - n < fuel
      → (t : Sender C W) × (k : ℕ) × (burst fuel j s ≡ go t)
        × (t.seq_num ≡ pos k)
        × (k % m ≡ 0)
        × (n ≤ k)
        × (k ≤ top)
        × (t.largest_ack ≡ s.largest_ack)
  burst-returns zero n top m j s keep tr hm e le end closed enough = absurd (omega arith)
  burst-returns (suc fuel) n top m j s keep tr hm e le end closed enough =
      let step = burst_step fuel n m j s tr hm e in
      elim (Bool-cases (may_start s || not (n % m == 0))) [
        | inl more ↦
            let u = send_one j s in
            let below = more-lt n top m s e le end closed more in
            let (same_train, same_ack, next) = send_one-same j s in
            let closed' : IsClosedAt top u = rw (same_ack, send_one-window j s keep) closed in
            let (t, k, run, at, fin, up, down, ack) =
              burst-returns fuel (n + 1) top m j u keep (same_train ∙ tr) hm
                (next ∙ ap (λ z. z +ℤ pos 1) e ∙ next_pos n) (omega arith) end closed'
                (omega arith) in
            (t, k, step ∙ rw more run, at, fin, omega arith, down, ack ∙ same_ack)
        | inr done ↦ (s, n, step ∙ rw done, e, ground arith, omega arith, le, refl)
      ]
