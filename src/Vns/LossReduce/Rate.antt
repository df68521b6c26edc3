-- ===== src/Vns/LossReduce/Rate.antt =====
-- When `loss_reduce::update` asks for a reduction.
use tcp_eyenet.Prelude.{
  ℕ, ◌/◌, ◌≤◌, ◌<◌, ◌≡◌, ◌≢◌, refl, ◌↔◌, inl, inr, Bool, true, false, arith, Bool-cases,
}
use native.Mathlib.Nat.{div_self, div-eq_of_lt}
use tcp_eyenet.Prelude.Int.{pos}
use tcp_eyenet.Double.{Double, IsIeee}
use tcp_eyenet.Double.Laws.{le_lt_trans, not_lt_of_le}
use tcp_eyenet.Vns.LossReduce.{LossReduce, tally, is_over, loss_rate, update}

module _ {ℓ} {W : Type ℓ} ⦃d : Double W⦄ where
  open d use {dec, lt, times, of_int}

  tally-among :
      (l : LossReduce W) (loss : Bool)
      → l.nloss ≤ l.npkts
      → (tally l loss).nloss ≤ (tally l loss).npkts
  unfolding tally
  tally-among l loss h = ground arith

  tally_pos : (l : LossReduce W) (loss : Bool) → 0 < (tally l loss).npkts
  unfolding tally
  tally_pos l loss = omega arith

  tally_received :
      (l : LossReduce W) → l.nloss ≤ l.npkts → (tally l false).nloss ≢ (tally l false).npkts
  unfolding tally
  tally_received l h = omega arith

  -- `update` keeps the losses among the packets.
  pub update-among :
      (l : LossReduce W) (loss : Bool) (ts rtt : W)
      → l.nloss ≤ l.npkts
      → (update l loss ts rtt).0.nloss ≤ (update l loss ts rtt).0.npkts
  unfolding update
  update-among l loss ts rtt h = ground (arith, tally-among l loss)

  module _ (laws : IsIeee W) where
    quotient_one : (n : ℕ) → 0 < n → lt (dec 3 1) (times (dec 1 0) (of_int (pos (n / n)))) ≡ true
    quotient_one n h =
        rw (div_self h, laws.of_int_dec 1 (omega arith), laws.one_times 1 (omega arith))
          (le_lt_trans laws (dec 3 1) (dec 5 1) (dec 1 0) (laws.dec_mono 3 1 5 1 (omega arith))
            laws.half_lt_one)

    quotient_zero :
        (m n : ℕ) → m < n → lt (dec 3 1) (times (dec 1 0) (of_int (pos (m / n)))) ≡ false
    quotient_zero m n h =
        rw (div-eq_of_lt h, laws.of_int_dec 0 (omega arith), laws.one_times 0 (omega arith))
          (not_lt_of_le laws (dec 3 1) (dec 0 0) (laws.dec_mono 0 0 3 1 (omega arith)))

    -- The rate exceeds 0.3 just when every packet was lost.
    loss_rate_lem :
        (l : LossReduce W)
        → l.nloss ≤ l.npkts
        → 0 < l.npkts
        → (lt (dec 3 1) (loss_rate l) ≡ true) ↔ (l.nloss ≡ l.npkts)
    unfolding loss_rate
    loss_rate_lem l h p =
        (λ e. ground (arith, quotient_zero l.nloss l.npkts), λ e. rw e (quotient_one l.npkts p))

    -- `update` asks for a reduction exactly when the window is over, which takes more than 20 packets,
    -- and every packet in it was lost.
    pub update_iff :
        (l : LossReduce W) (loss : Bool) (ts rtt : W)
        → l.nloss ≤ l.npkts
        → let t = tally l loss in
          ((update l loss ts rtt).1 ≡ true) ↔ ((is_over t ts rtt ≡ true) × (t.nloss ≡ t.npkts))
    unfolding update
    update_iff l loss ts rtt h =
        let t = tally l loss in
        let rate = loss_rate_lem t (tally-among l loss h) (tally_pos l loss) in
        elim (Bool-cases (is_over t ts rtt)) [
          | inl e ↦ rw e ((λ g. (refl, rate.0 g)), λ g. rate.1 g.1)
          | inr e ↦ rw e ((λ g. cc), λ g. cc)
        ]

    -- The arrival of a packet never asks for a reduction.
    pub update_received :
        (l : LossReduce W) (ts rtt : W) → l.nloss ≤ l.npkts → (update l false ts rtt).1 ≡ false
    update_received l ts rtt h = elim (Bool-cases (update l false ts rtt).1) [
      | inl e ↦ absurd (tally_received l h ((update_iff l false ts rtt h).0 e).1)
      | inr e ↦ e
    ]
