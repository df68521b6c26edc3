-- ===== src/Ttest/Pacing/Target.antt =====
-- The bursts of `calc_pkts_rate` of ttest/ttsnd.c against the rate that was asked for.
use tcp_eyenet.Prelude.{
  ℕ, suc, ◌*◌, ◌/◌, ◌^◌, ◌≤◌, ◌≡◌, ◌==◌, true, false, Option, none, some, arith, refl, inl, inr,
  Bool-cases,
}
use native.Mathlib.Nat.{
  mul-le-mul_left, mul-le-mul_right, le_of_mul-le-mul_left, le-div_iff_mul-le, lt-mul-div-succ,
  div-mul-le_self, div-le_of_le-mul, mod-eq_of_lt,
}
use tcp_eyenet.Ttest.Params.{ProgParam}
use tcp_eyenet.Ttest.Params.Range.{InRange}
use tcp_eyenet.Ttest.Pacing.{packets_per_sec, burst_of, calc_pkts_rate}

-- There is a burst, it is not empty, the gap is 50 to 125 ms long, and in a gap that is one millisecond
-- longer the rate admits the bits of the burst: kbps times ms are bits.
abbrev pub Paced : ℕ → ℕ → Option (ℕ × ℕ) → Type 0
Paced rate psize none = 1 ≤ 0
Paced rate psize (some (ibg, np)) =
    (1 ≤ np) × (50 ≤ ibg) × (ibg ≤ 125) × (np * (psize * 8) ≤ rate * suc ibg)

not_zero : (n : ℕ) → 1 ≤ n → (n == 0) ≡ false
not_zero n h = ground arith

packets_per_sec-quotient :
    (rate psize : ℕ)
    → rate ≤ 1000000
    → 64 ≤ psize
    → psize ≤ 1472
    → packets_per_sec rate psize ≡ some (rate * 1000 / (psize * 8))
unfolding packets_per_sec
packets_per_sec-quotient rate psize b c d =
    rw
      (
        mod-eq_of_lt {n = rate * 1000} {m = 2 ^ 64} (omega arith),
        mod-eq_of_lt {n = psize * 8} {m = 2 ^ 64} (omega arith),
      )
      (rw (not_zero (psize * 8) (omega arith)) refl)

quotient_least :
    (rate psize : ℕ) → 100 ≤ rate → 64 ≤ psize → psize ≤ 1472 → 8 ≤ rate * 1000 / (psize * 8)
quotient_least rate psize a b c =
    (le-div_iff_mul-le {k = psize * 8} {x = 8} {y = rate * 1000} (omega arith)).1 (omega arith)

quotient_most : (rate psize : ℕ) → rate ≤ 1000000 → 64 ≤ psize → rate * 1000 / (psize * 8) ≤ 1953125
quotient_most rate psize a b = omega (
  arith,
  mul-le-mul_left {m = 512} {n = psize * 8} (rate * 1000 / (psize * 8)) (omega arith),
  div-mul-le_self (rate * 1000) (psize * 8),
)

-- A single packet per gap
single_fits :
    (np bits rate : ℕ) → 8 ≤ np → np * bits ≤ rate * 1000 → 1 * bits ≤ rate * suc (1000 / np)
single_fits np bits rate a h =
    le_of_mul-le-mul_left {m = 1 * bits} {n = rate * suc (1000 / np)} {k = np}
      (omega (
        arith,
        mul-le-mul_left {m = 1000} {n = np * suc (1000 / np)} rate
            (omega (arith, lt-mul-div-succ 1000 {b = np} (omega arith))),
      ))
      (omega arith)

train_fits : (np bits rate : ℕ) → np * bits ≤ rate * 1000 → np * 50 / 1000 * bits ≤ rate * 51
train_fits np bits rate h =
    omega (arith, mul-le-mul_right {m = np * 50 / 1000 * 20} {n = np} bits (omega arith))

few : (np : ℕ) → (np * 50 / 1000 == 0) ≡ true → np ≤ 20
few np e = ground arith

positive : (n : ℕ) → (n == 0) ≡ false → 1 ≤ n
positive n e = ground arith

least_gap : (np : ℕ) → 8 ≤ np → np ≤ 20 → 50 ≤ 1000 / np
least_gap np a h = (le-div_iff_mul-le {k = np} {x = 50} {y = 1000} (omega arith)).1 (omega arith)

most_gap : (np : ℕ) → 8 ≤ np → 1000 / np ≤ 125
most_gap np h = div-le_of_le-mul np (omega arith)

burst_of-Paced :
    (np psize rate : ℕ)
    → 8 ≤ np
    → np ≤ 1953125
    → np * (psize * 8) ≤ rate * 1000
    → Paced rate psize (burst_of np)
unfolding burst_of
burst_of-Paced np psize rate a b c =
    rw (mod-eq_of_lt {n = np * 50} {m = 2 ^ 64} (omega arith))
      (elim (Bool-cases (np * 50 / 1000 == 0)) [
        | inl e ↦
            rw (e, not_zero np (omega arith))
              (
                omega arith,
                least_gap np a (few np e),
                most_gap np a,
                single_fits np (psize * 8) rate a c,
              )
        | inr e ↦ rw e (
          positive (np * 50 / 1000) e,
          omega arith,
          omega arith,
          train_fits np (psize * 8) rate c,
        )
      ])

-- With parameters in the ranges that `parse_args` lets through, the sender never divides by zero: it
-- sends a burst of at least one packet every 50 to 125 ms, and the burst has no more bits than the
-- rate gives in one millisecond more than the gap.
pub calc_pkts_rate-Paced :
    (p : ProgParam) → InRange p → Paced p.rate_kbps p.pktsize (calc_pkts_rate p.rate_kbps p.pktsize)
unfolding calc_pkts_rate
calc_pkts_rate-Paced p h =
    let rate = p.rate_kbps in
    let psize = p.pktsize in
    rw (packets_per_sec-quotient rate psize h.rate_kbps.1 h.pktsize.0 h.pktsize.1) (
      burst_of-Paced (rate * 1000 / (psize * 8)) psize rate
        (quotient_least rate psize h.rate_kbps.0 h.pktsize.0 h.pktsize.1)
        (quotient_most rate psize h.rate_kbps.1 h.pktsize.0)
        (div-mul-le_self (rate * 1000) (psize * 8)))
