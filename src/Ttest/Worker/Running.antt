-- ===== src/Ttest/Worker/Running.antt =====
-- The rounds of `snd_worker` of ttest/ttsnd.c, with the parameters that `start_client` gives it.
use tcp_eyenet.Prelude.{
  ℕ, ◌+◌, ◌-◌, ◌*◌, ◌/◌, ◌%◌, ◌^◌, ◌≤◌, ◌<◌, ◌≡◌, true, false, leb, ◌==◌, List, length, arith, refl,
  inl, inr, Bool-cases,
}
use native.Mathlib.Nat.{
  mul-le-mul_left, mul-le-mul_right, mul-le-mul, div-le_of_le-mul, le-div_iff_mul-le, mod-eq_of_lt,
}
use tcp_eyenet.Ttest.Worker.{
  SWorker, Round, Ended, ended, division_by_zero, cut_short, send_burst, sub_uint32, count_burst,
  next_qouta, send_round,
}
use tcp_eyenet.Ttest.Worker.Ledger.{
  Numbered, Within, send_burst-Numbered, send_burst-Within, send_burst_complete,
}

-- The counters and the numbers agree with the packets that went out.
pub record IsLedger (garbage : ℕ) (w : SWorker) : Type 0 where
  pub numbered : Numbered garbage (w.seq, w.hdr_seq, w.wire)
  pub npkts : w.stats.npkts_tx ≡ length w.wire % 2 ^ 64
  pub nbytes : w.stats.nbytes_tx ≡ w.psize * length w.wire % 2 ^ 64

-- A burst, and 250 in its place, stay clear of the bounds of 32 bits.
pub record Fits (w : SWorker) : Type 0 where
  pub psize : 1 ≤ w.psize
  pub bytes : w.psize * w.npkts_burst ≤ 15750000
  pub ibg : (1 ≤ w.ibg) × (w.ibg ≤ 125000)
  pub least : w.npkts_burst ≤ w.qouta
  pub most : w.qouta ≤ 250 * w.npkts_burst

-- The burst took at most 250 times the gap, and sendto answered for each packet of it.
abbrev pub Answered : SWorker → Round → Type 0
Answered w r = (r.delta ≤ 250 * w.ibg) × (250 * w.npkts_burst ≤ length r.sent)

-- A round leaves the parameters of the worker, and what is said of it holds after it.
abbrev pub Steady : ℕ → SWorker → Ended → Type 0
Steady g w (ended v) =
    (v.psize ≡ w.psize) × (v.npkts_burst ≡ w.npkts_burst) × (v.ibg ≡ w.ibg) × IsLedger g v × Fits v
Steady g w division_by_zero = 1 ≤ 0
Steady g w cut_short = 1 ≤ 0

-- The difference of the 32-bit numbers is the number of packets between.
sub_uint32-length :
    (m n : ℕ) → m ≤ n → n < m + 2 ^ 32 → sub_uint32 (n % 2 ^ 32) (m % 2 ^ 32) ≡ n - m
sub_uint32-length m n h k = omega arith

bytes_of_parts :
    (p m n s t bytes : ℕ)
    → s ≡ n
    → t ≡ m + n
    → p * n < 2 ^ 32
    → bytes ≡ p * m % 2 ^ 64
    → (bytes + p * s % 2 ^ 32) % 2 ^ 64 ≡ p * t % 2 ^ 64
bytes_of_parts p m n s t bytes es et small eb = rw (es, et, eb) omega arith

count_burst-IsLedger :
    (g : ℕ) (w : SWorker) (b : ℕ × ℕ × List ℕ)
    → IsLedger g w
    → Numbered g b
    → length w.wire ≤ length b.2
    → length b.2 ≤ length w.wire + w.qouta
    → w.qouta < 2 ^ 32
    → w.psize * w.qouta < 2 ^ 32
    → IsLedger g (count_burst w b)
unfolding count_burst
count_burst-IsLedger g w (seq, hdr, wire) h k lo hi q f =
    let n = length wire - length w.wire in
    let e : sub_uint32 seq w.seq ≡ n =
      rw (k.2, h.numbered.2) (sub_uint32-length (length w.wire) (length wire) lo (omega arith)) in
    record {
      numbered = k;
      npkts = omega (arith, e, h.npkts);
      nbytes =
          bytes_of_parts w.psize (length w.wire) n (sub_uint32 seq w.seq) (length wire)
            w.stats.nbytes_tx e (omega arith)
            (omega (arith, mul-le-mul_left {m = n} {n = w.qouta} w.psize (omega arith))) h.nbytes;
    }

-- The burst that makes up for a long one
catch_up :
    (burst ibg delta : ℕ)
    → burst ≤ 15750000
    → 1 ≤ ibg
    → ibg ≤ 125000
    → ibg ≤ delta
    → delta ≤ 250 * ibg
    → (burst ≤ burst * delta % 2 ^ 64 / ibg) × (burst * delta % 2 ^ 64 / ibg ≤ 250 * burst)
catch_up burst ibg delta b i j lo hi =
    rw
      (mod-eq_of_lt {n = burst * delta} {m = 2 ^ 64} (
        omega (
          arith,
          mul-le-mul {n₁ = burst} {m₁ = delta} {n₂ = 15750000} {m₂ = 31250000} b (omega arith),
        )))
      (
        (le-div_iff_mul-le {k = ibg} {x = burst} {y = burst * delta} i).1
            (mul-le-mul_left burst lo),
        div-le_of_le-mul ibg (omega (arith, mul-le-mul_left {m = delta} {n = 250 * ibg} burst hi)),
      )

pub burst_small : (w : SWorker) → Fits w → w.npkts_burst ≤ 15750000
burst_small w k =
    omega (arith, k.bytes, mul-le-mul_right {m = 1} {n = w.psize} w.npkts_burst k.psize)

at_most : {i d : ℕ} → leb i d ≡ true → i ≤ d
at_most {i} {d} e = ground arith

positive_test : (n : ℕ) → 1 ≤ n → (n == 0) ≡ false
positive_test n h = ground arith

next_qouta-Steady :
    (g : ℕ) (w : SWorker) (delta : ℕ)
    → IsLedger g w
    → Fits w
    → delta ≤ 250 * w.ibg
    → Steady g w (next_qouta w delta)
unfolding next_qouta
next_qouta-Steady g w delta h k d = elim (Bool-cases (leb w.ibg delta)) [
  | inl e ↦
      let c = catch_up w.npkts_burst w.ibg delta (burst_small w k) k.ibg.0 k.ibg.1 (at_most e) d in
      rw (e, positive_test w.ibg k.ibg.0)
        (
          refl,
          refl,
          refl,
          record { numbered = h.numbered; npkts = h.npkts; nbytes = h.nbytes },
          record { psize = k.psize; bytes = k.bytes; ibg = k.ibg; least = c.0; most = c.1 },
        )
  | inr e ↦ rw e (
    refl,
    refl,
    refl,
    record { numbered = h.numbered; npkts = h.npkts; nbytes = h.nbytes },
    record {
      psize = k.psize;
      bytes = k.bytes;
      ibg = k.ibg;
      least = omega arith;
      most = omega arith;
    },
  )
]

count_burst-Fits : (w : SWorker) (b : ℕ × ℕ × List ℕ) → Fits w → Fits (count_burst w b)
unfolding count_burst
count_burst-Fits w b k = record {
  psize = k.psize;
  bytes = k.bytes;
  ibg = k.ibg;
  least = k.least;
  most = k.most;
}

-- A worker whose bursts fit, in a round that sendto answers and that takes at most 250 gaps: the round
-- ends, without a division by zero; `npkts_tx` and `nbytes_tx` count the packets that went out and their
-- bytes, the packets after the first are numbered on from 1, and the next burst has at least the planned
-- size and fits again.
pub send_round-Steady :
    (g : ℕ) (w : SWorker) (r : Round)
    → IsLedger g w
    → Fits w
    → Answered w r
    → Steady g w (send_round w r)
unfolding send_round Within count_burst
send_round-Steady g w r h k (d, n) =
    let b = (send_burst w.qouta 0 r.sent (w.seq, w.hdr_seq, w.wire)).0 in
    let small = burst_small w k in
    let range : w.qouta < 2 ^ 32 = omega (arith, k.most) in
    let within = send_burst-Within w.qouta 0 r.sent (w.seq, w.hdr_seq, w.wire) range in
    rw
      (send_burst_complete w.qouta 0 r.sent (w.seq, w.hdr_seq, w.wire) range
        (omega (arith, k.most)))
      (next_qouta-Steady g (count_burst w b) r.delta
        (count_burst-IsLedger g w b h
          (send_burst-Numbered g w.qouta 0 r.sent (w.seq, w.hdr_seq, w.wire) h.numbered) within.0
          (omega (arith, within.1)) range (omega (arith, k.bytes, mul-le-mul_left w.psize k.most)))
        (count_burst-Fits w b k) d)
