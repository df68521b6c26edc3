-- ===== src/Ttest/Worker/Conforming.antt =====
-- The rate that a worker of ttest/ttsnd.c keeps, against the one that `parse_args` was given.
use tcp_eyenet.Prelude.{
  ℕ, suc, ◌+◌, ◌-◌, ◌*◌, ◌%◌, ◌^◌, ◌≤◌, ◌≡◌, ◌∙◌, some, List, length, arith, refl, subst, sym,
}
use native.Mathlib.Nat.{mul-le-mul_right, mod-eq_of_lt}
use tcp_eyenet.Ttest.Clock.{Timespec, get_time_usec}
use tcp_eyenet.Ttest.Params.{ProgParam}
use tcp_eyenet.Ttest.Params.Range.{InRange}
use tcp_eyenet.Ttest.Pacing.{calc_pkts_rate}
use tcp_eyenet.Ttest.Pacing.Target.{Paced, calc_pkts_rate-Paced}
use tcp_eyenet.Ttest.Worker.{SWorker, start_worker}
use tcp_eyenet.Ttest.Worker.Client.{started-Fits}
use tcp_eyenet.Ttest.Worker.Running.{IsLedger}
use tcp_eyenet.Ttest.Worker.Timed.{Timed, timed_rounds}
use tcp_eyenet.Ttest.Worker.Chained.{Chain}
use tcp_eyenet.Ttest.Worker.Rate.{Keeps, timed_rounds-Keeps}

bits_bound :
    (sent q gap burst elapsed bits rate : ℕ)
    → (sent + q) * gap ≤ burst * (gap + elapsed)
    → burst * bits ≤ rate
    → sent * bits * gap ≤ rate * (gap + elapsed)
bits_bound sent q gap burst elapsed bits rate h k = omega (
  arith,
  mul-le-mul_right {m = sent * gap} {n = burst * (gap + elapsed)} bits (omega (arith, h)),
  mul-le-mul_right {m = burst * bits} {n = rate} (gap + elapsed) k,
)

-- The worker of a client before its first round, at `first`
start-Keeps :
    (g : ℕ) (p : ProgParam) (ibg np : ℕ) (first : Timespec)
    → InRange p
    → calc_pkts_rate p.rate_kbps p.pktsize ≡ some (ibg, np)
    → let w = start_worker p.pktsize np ibg g in Keeps g (get_time_usec first) w w first
unfolding start_worker
start-Keeps g p ibg np first h e =
    let (l, f) = started-Fits g p ibg np h e in
    record {
      ledger = l;
      fits = f;
      since = omega arith;
      budget = omega arith;
      same = (refl, refl, refl);
    }

-- The bits that a worker has sent when `elapsed` microseconds have gone by, with a gap of `ibg`
-- milliseconds: in each gap the rate's bits of a gap and a millisecond, and once those of one more gap.
abbrev pub Conforms : ProgParam → ℕ → ℕ → SWorker → Type 0
Conforms p ibg elapsed v =
    length v.wire * (p.pktsize * 8) * (ibg * 1000) ≤ p.rate_kbps * suc ibg * (ibg * 1000 + elapsed)

-- A worker of a client whose parameters `parse_args` lets through, with the gap of `calc_pkts_rate`,
-- under a clock that does not go back and goes on, where no burst takes more than 250 gaps and sendto
-- answers for each packet: every round ends, `wait_until` included; the counters are those of the
-- packets that went out; and whenever a round has come back, the bits that went out since the start are
-- within the rate that was asked for, up to a millisecond for each gap and one gap in all. Bursts that
-- make up for a long one are included.
pub client-Conforms :
    (garbage : ℕ) (p : ProgParam) (ibg np : ℕ) (first : Timespec) (rs : List Timed)
    → InRange p
    → calc_pkts_rate p.rate_kbps p.pktsize ≡ some (ibg, np)
    → Chain (ibg * 1000) np first rs
    → (v : SWorker) × (t : Timespec) × (timed_rounds
          (start_worker p.pktsize np ibg garbage)
          first
          rs
        ≡ some (v, t))
      × (get_time_usec first ≤ get_time_usec t)
      × IsLedger garbage v
      × Conforms p ibg (get_time_usec t - get_time_usec first) v
unfolding start_worker
client-Conforms g p ibg np first rs h e c =
    let w = start_worker p.pktsize np ibg g in
    let paced = subst (Paced p.rate_kbps p.pktsize) e (calc_pkts_rate-Paced p h) in
    let gap : ibg * 1000 % 2 ^ 64 ≡ ibg * 1000 =
      mod-eq_of_lt {n = ibg * 1000} {m = 2 ^ 64} (omega (arith, paced.2)) in
    let chain : Chain w.ibg np first rs = subst (λ i. Chain i np first rs) (sym gap) c in
    let (v, t, f, k) =
      timed_rounds-Keeps g (get_time_usec first) w w first rs (start-Keeps g p ibg np first h e)
        chain in
    let spent = length v.wire + v.qouta in
    let elapsed = get_time_usec t - get_time_usec first in
    let budget : spent * v.ibg ≤ np * (v.ibg + elapsed) =
      subst (λ n. spent * v.ibg ≤ n * (v.ibg + elapsed)) k.same.1 k.budget in
    let budget' : spent * (ibg * 1000) ≤ np * (ibg * 1000 + elapsed) =
      subst (λ n. spent * n ≤ np * (n + elapsed)) (k.same.0 ∙ gap) budget in
    (
      v,
      t,
      f,
      k.since,
      k.ledger,
      bits_bound (length v.wire) v.qouta (ibg * 1000) np elapsed (p.pktsize * 8)
          (p.rate_kbps * suc ibg) budget' paced.3,
    )
