-- ===== src/Ttest/Reports/Lines.antt =====
-- The sums in the reports of ttest/, and what a report of ttest/ttrcv.c changes.
use tcp_eyenet.Prelude.{
  ℕ, zero, suc, ◌+◌, ◌*◌, ◌/◌, ◌%◌, ◌^◌, ◌≤◌, ◌<◌, ◌≡◌, Bool, ◌==◌, false, some, List, [], ◌∷◌,
  ◌++◌, map, arith, refl, ap, ◌∙◌,
}
use mathlib.Core.Option.{some-injective}
use tcp_eyenet.Ttest.Receiver.{RConn, RWorker, deref}
use tcp_eyenet.Ttest.Receiver.Pointers.{IsTable, Points, All-map}
use tcp_eyenet.Ttest.Reports.{
  Line, Report, sub_uint64, rate_of, total, sum_up, report_conn, report_conns,
}

-- The interval of a report, a positive uint32_t
abbrev pub IsInterval : ℕ → Type 0
IsInterval intv = (1 ≤ intv) × (intv < 2 ^ 32)

nonzero_test : (n : ℕ) → 1 ≤ n → n < 2 ^ 32 → (n * 1000 % 2 ^ 64 == 0) ≡ false
nonzero_test n h k = ground arith

pub rate_of-some :
    (nbytes intv : ℕ) → IsInterval intv → (kbps : ℕ) × (rate_of nbytes intv ≡ some kbps)
unfolding rate_of
rate_of-some nbytes intv (h, k) =
    (nbytes * 8 % 2 ^ 64 / (intv * 1000 % 2 ^ 64), rw (nonzero_test intv h k) refl)

abbrev pub sum : List ℕ → ℕ
sum [] = 0
sum (n ∷ ns) = n + sum ns

pub total-sum : (acc : ℕ) (ns : List ℕ) → total acc ns % 2 ^ 64 ≡ (acc + sum ns) % 2 ^ 64
unfolding total
total-sum acc [] = omega arith
total-sum acc (n ∷ ns) = omega (arith, total-sum ((acc + n) % 2 ^ 64) ns)

abbrev pub npkts_of : List Line → List ℕ
npkts_of lines = map (λ (l : Line). l.npkts) lines

-- The packets that some reports give
abbrev pub reported : List Report → ℕ
reported reports = sum (map (λ (r : Report). r.spkts) reports)

pub reported-append : (xs ys : List Report) → reported (xs ++ ys) ≡ reported xs + reported ys
reported-append [] ys = omega arith
reported-append (x ∷ xs) ys = omega (arith, reported-append xs ys)

pub sum_up-some :
    (shown : Bool) (intv : ℕ) (lines : List Line)
    → IsInterval intv
    → (r : Report) × (sum_up shown intv lines ≡ some r)
      × (r.spkts % 2 ^ 64 ≡ sum (npkts_of lines) % 2 ^ 64)
unfolding sum_up
sum_up-some shown intv lines h =
    let (kbps, e) = rate_of-some (total 0 (map (λ (l : Line). l.nbytes) lines)) intv h in
    (
      record {
        lines = lines;
        spkts = total 0 (npkts_of lines);
        sbytes = total 0 (map (λ (l : Line). l.nbytes) lines);
        kbps = kbps;
        shown = shown;
      },
      rw e refl,
      omega (arith, total-sum 0 (npkts_of lines)),
    )

-- The packets that were counted and are in no report yet
abbrev pub pending : List RConn → ℕ
pending [] = 0
pending (c ∷ cs) = sub_uint64 c.stats.npkts_rx c.stats_prev.npkts_rx + pending cs

-- The same connections, but for `stats_prev`
abbrev pub SameConns : List RConn → List RConn → Type 0
SameConns xs ys =
    (p : ℕ) (c : RConn)
    → deref p xs ≡ some c
    → (d : RConn) × (deref p ys ≡ some d) × (d.wid ≡ c.wid)

none_pending : (n : ℕ) → sub_uint64 n n ≡ 0
none_pending n = omega arith

same_head :
    (c : RConn) (cs ys : List RConn)
    → SameConns cs ys
    → SameConns (c ∷ cs) (record c { stats_prev = c.stats } ∷ ys)
unfolding deref
same_head c cs ys same zero d g =
    (record c { stats_prev = c.stats }, refl, ap (λ (x : RConn). x.wid) (some-injective c d g))
same_head c cs ys same (suc p) d g = same p d g

pub report_conns-some :
    (intv : ℕ) (conns : List RConn)
    → IsInterval intv
    → (a : List RConn × List Line) × (report_conns intv conns ≡ some a)
      × (sum (npkts_of a.1) ≡ pending conns)
      × (pending a.0 ≡ 0)
      × SameConns conns a.0
unfolding report_conns report_conn
report_conns-some intv [] h = (([], []), refl, refl, refl, λ p c e. (c, e, refl))
report_conns-some intv (c ∷ cs) h =
    let (kbps, e) = rate_of-some (sub_uint64 c.stats.nbytes_rx c.stats_prev.nbytes_rx) intv h in
    let (b, f, s, z, same) = report_conns-some intv cs h in
    (
      (
        record c { stats_prev = c.stats } ∷ b.0,
        record {
          id = c.cid;
          npkts = sub_uint64 c.stats.npkts_rx c.stats_prev.npkts_rx;
          nbytes = sub_uint64 c.stats.nbytes_rx c.stats_prev.nbytes_rx;
          kbps = kbps;
        }
            ∷ b.1,
      ),
      rw (e, f) refl,
      ap (λ n. sub_uint64 c.stats.npkts_rx c.stats_prev.npkts_rx + n) s,
      omega (arith, none_pending c.stats.npkts_rx, z),
      same_head c cs b.0 same,
    )

-- A report leaves every pointer what it was.
pub SameConns-IsTable :
    (xs ys : List RConn) (w : RWorker) → SameConns xs ys → IsTable xs w → IsTable ys w
SameConns-IsTable xs ys w same h i j =
    All-map (Points w.id xs) (Points w.id ys) (w.rconn_hash i j)
      (λ p (c, e, f). let (d, g, k) = same p c e in (d, g, k ∙ f)) (h i j)
