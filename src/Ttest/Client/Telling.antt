-- ===== src/Ttest/Client/Telling.antt =====
-- What a report of ttest/ttsnd.c says of its workers, and leaves.
use tcp_eyenet.Prelude.{
  ℕ, zero, suc, ◌+◌, ◌%◌, ◌^◌, ◌≡◌, Bool, true, false, some, List, [], ◌∷◌, All, if◌then◌else◌,
  length, arith, refl, ap,
}
use tcp_eyenet.Ttest.Worker.{SWorker}
use tcp_eyenet.Ttest.Reports.{Line, SThread, sub_uint64, report_worker, report_workers}
use tcp_eyenet.Ttest.Reports.Lines.{IsInterval, npkts_of, sum, rate_of-some}
use tcp_eyenet.Ttest.Client.Rounds.{Works, before, gone_out}

-- What a line of a report is about: all packets, or those since the last report
abbrev pub base : Bool → ℕ → ℕ
base delta_rep n = if delta_rep then n else 0

counted : Bool → SThread → ℕ
counted d t =
    if d
    then sub_uint64 t.worker.stats.npkts_tx t.worker.stats_prev.npkts_tx
    else t.worker.stats.npkts_tx

counted_base :
    (d : Bool) (t : SThread)
    → (counted d t + base d t.worker.stats_prev.npkts_tx) % 2 ^ 64
      ≡ t.worker.stats.npkts_tx % 2 ^ 64
unfolding counted
counted_base true t = omega arith
counted_base false t = omega arith

-- A worker in a report
reported_worker :
    (d : Bool) (intv : ℕ) (w : SWorker) (t : SThread)
    → IsInterval intv
    → Works w t
    → (a : SThread × Line) × (report_worker d intv t ≡ some a)
      × Works w a.0
      × (a.0.worker.stats_prev.npkts_tx ≡ t.worker.stats.npkts_tx)
      × (a.0.worker.wire ≡ t.worker.wire)
      × (a.1.npkts ≡ counted d t)
unfolding report_worker counted
reported_worker d intv w t h (g, l, f, b, i) =
    let nbytes =
      if d
      then sub_uint64 t.worker.stats.nbytes_tx t.worker.stats_prev.nbytes_tx
      else t.worker.stats.nbytes_tx in
    let (kbps, e) = rate_of-some nbytes intv h in
    (
      (
        record t { worker = record (t.worker) { stats_prev = t.worker.stats } },
        record {
          id = t.id;
          npkts =
              if d
              then sub_uint64 t.worker.stats.npkts_tx t.worker.stats_prev.npkts_tx
              else t.worker.stats.npkts_tx;
          nbytes = nbytes;
          kbps = kbps;
        },
      ),
      rw e refl,
      (
        g,
        record { numbered = l.numbered; npkts = l.npkts; nbytes = l.nbytes },
        record { psize = f.psize; bytes = f.bytes; ibg = f.ibg; least = f.least; most = f.most },
        b,
        i,
      ),
      refl,
      refl,
      refl,
    )

-- What a report of the first `n` workers says, and leaves
pub record Tells (d : Bool) (n : ℕ) (w : SWorker) (ts : List SThread) (a : List SThread × List Line)
    : Type 0 where
  pub works : All (Works w) a.0
  pub lines : (sum (npkts_of a.1) + base d (before n ts)) % 2 ^ 64 ≡ gone_out n ts % 2 ^ 64
  pub prevs : before n a.0 % 2 ^ 64 ≡ gone_out n ts % 2 ^ 64
  pub wires : gone_out n a.0 ≡ gone_out n ts

add_lines :
    (d : Bool) (a b x y m n : ℕ)
    → (a + base d x) % 2 ^ 64 ≡ m % 2 ^ 64
    → (b + base d y) % 2 ^ 64 ≡ n % 2 ^ 64
    → ((a + b) + base d (x + y)) % 2 ^ 64 ≡ (m + n) % 2 ^ 64
add_lines true a b x y m n h k = omega (arith, h, k)
add_lines false a b x y m n h k = omega (arith, h, k)

none_said : (d : Bool) → (0 + base d 0) % 2 ^ 64 ≡ 0 % 2 ^ 64
none_said true = refl
none_said false = refl

pub reported_workers :
    (d : Bool) (intv n : ℕ) (w : SWorker) (ts : List SThread)
    → IsInterval intv
    → All (Works w) ts
    → (a : List SThread × List Line) × (report_workers d intv n ts ≡ some a) × Tells d n w ts a
unfolding report_workers
reported_workers d intv zero w ts h k =
    ((ts, []), refl, record { works = k; lines = none_said d; prevs = refl; wires = refl })
reported_workers d intv (suc n) w [] h k =
    (([], []), refl, record { works = tt; lines = none_said d; prevs = refl; wires = refl })
reported_workers d intv (suc n) w (t ∷ ts) h ((g, l, f, o, i), ks) =
    let (a, e, k', p, q, c) = reported_worker d intv w t h (g, l, f, o, i) in
    let (b, es, more) = reported_workers d intv n w ts h ks in
    (
      (a.0 ∷ b.0, a.1 ∷ b.1),
      rw (e, es) refl,
      record {
        works = (k', more.works);
        lines = rw c (
            add_lines d (counted d t) (sum (npkts_of b.1)) t.worker.stats_prev.npkts_tx
              (before n ts) (length t.worker.wire) (gone_out n ts)
              (omega (arith, counted_base d t, l.npkts)) more.lines);
        prevs = omega (arith, p, l.npkts, more.prevs);
        wires = omega (arith, ap length q, more.wires);
      },
    )
