-- ===== src/Ttest/Reports.antt =====
-- `print_all_conn_stats` of ttest/ttsnd.c and of ttest/ttrcv.c: what the lines say, and `stats_prev`. A
-- division by zero has no result.
pub mod Lines
use tcp_eyenet.Prelude.{
  ℕ, zero, suc, ◌+◌, ◌-◌, ◌*◌, ◌%◌, ◌^◌, Bool, true, not, ◌==◌, Option, none, some, maybe, List, [],
  ◌∷◌, map, if◌then◌else◌,
}
use tcp_eyenet.Prelude.Int.{ℤ}
use tcp_eyenet.Ttest.Pacing.{divide}
use tcp_eyenet.Ttest.Receiver.{RConn, TRcv}
use tcp_eyenet.Ttest.Worker.{SWorker}

-- A line of a connection
pub record Line : Type 0 where
  pub id : ℕ
  pub npkts : ℕ
  pub nbytes : ℕ
  pub kbps : ℕ

-- The lines, the last line, and whether it is printed
pub record Report : Type 0 where
  pub lines : List Line
  pub spkts : ℕ
  pub sbytes : ℕ
  pub kbps : ℕ
  pub shown : Bool

-- `a - b`, on 64 bits
abbrev pub sub_uint64 : ℕ → ℕ → ℕ
sub_uint64 a b = (a + (2 ^ 64 - b % 2 ^ 64)) % 2 ^ 64

-- `kbps`
unfoldable pub rate_of : ℕ → ℕ → Option ℕ
rate_of nbytes intv = divide (nbytes * 8 % 2 ^ 64) (intv * 1000 % 2 ^ 64)

-- `spkts += npkts` and `sbytes += nbytes` over the lines
unfoldable pub total : ℕ → List ℕ → ℕ
total acc [] = acc
total acc (n ∷ ns) = total ((acc + n) % 2 ^ 64) ns

-- The last line
unfoldable pub sum_up : Bool → ℕ → List Line → Option Report
unfolding total rate_of
sum_up shown intv lines =
    let sbytes = total 0 (map (λ (l : Line). l.nbytes) lines) in
    maybe none (rate_of sbytes intv) (λ kbps. some (record {
      lines = lines;
      spkts = total 0 (map (λ (l : Line). l.npkts) lines);
      sbytes = sbytes;
      kbps = kbps;
      shown = shown;
    }))

-- A worker with what the main thread sees of its start
pub record SThread : Type 0 where
  pub wstatus : ℕ
  pub fd : ℤ
  pub id : ℕ
  pub worker : SWorker

-- `ttsnd`
pub record TSnd : Type 0 where
  pub cmd : ℕ
  pub n_cpus : ℕ
  pub remoteip : ℕ
  pub remoteport : ℕ
  pub ibg : ℕ
  pub npkts_burst : ℕ
  pub workers : List SThread
  pub reporting_interval : ℕ
  pub duration : ℕ

-- The body of the loop of ttsnd.c
unfoldable pub report_worker : Bool → ℕ → SThread → Option (SThread × Line)
unfolding rate_of
report_worker delta_rep intv w =
    let now = w.worker.stats in
    let prev = w.worker.stats_prev in
    let npkts = if delta_rep then sub_uint64 now.npkts_tx prev.npkts_tx else now.npkts_tx in
    let nbytes = if delta_rep then sub_uint64 now.nbytes_tx prev.nbytes_tx else now.nbytes_tx in
    maybe none (rate_of nbytes intv) (λ kbps. some (
      record w { worker = record (w.worker) { stats_prev = now } },
      record { id = w.id; npkts = npkts; nbytes = nbytes; kbps = kbps },
    ))

-- The loop, over the first workers; `n_cpus` is at most their number.
unfoldable pub report_workers : Bool → ℕ → ℕ → List SThread → Option (List SThread × List Line)
unfolding report_worker
report_workers delta_rep intv zero ws = some (ws, [])
report_workers delta_rep intv (suc n) [] = some ([], [])
report_workers delta_rep intv (suc n) (w ∷ ws) =
    maybe none (report_worker delta_rep intv w)
      (λ a. maybe none (report_workers delta_rep intv n ws) (λ b. some (a.0 ∷ b.0, a.1 ∷ b.1)))

-- `print_all_conn_stats` of ttsnd.c
unfoldable pub report_sender : Bool → TSnd → Option (TSnd × Report)
unfolding report_workers sum_up
report_sender delta_rep t =
    let intv = if delta_rep then t.reporting_interval else t.duration in
    maybe none (report_workers delta_rep intv t.n_cpus t.workers)
      (λ a. maybe none (sum_up true intv a.1) (λ r. some (record t { workers = a.0 }, r)))

-- The body of the loop of ttrcv.c
unfoldable pub report_conn : ℕ → RConn → Option (RConn × Line)
unfolding rate_of
report_conn intv c =
    let npkts = sub_uint64 c.stats.npkts_rx c.stats_prev.npkts_rx in
    let nbytes = sub_uint64 c.stats.nbytes_rx c.stats_prev.nbytes_rx in
    maybe none (rate_of nbytes intv) (λ kbps. some (
      record c { stats_prev = c.stats },
      record { id = c.cid; npkts = npkts; nbytes = nbytes; kbps = kbps },
    ))

unfoldable pub report_conns : ℕ → List RConn → Option (List RConn × List Line)
unfolding report_conn
report_conns intv [] = some ([], [])
report_conns intv (c ∷ cs) =
    maybe none (report_conn intv c)
      (λ a. maybe none (report_conns intv cs) (λ b. some (a.0 ∷ b.0, a.1 ∷ b.1)))

-- `print_all_conn_stats` of ttrcv.c
unfoldable pub report_receiver : ℕ → TRcv → Option (TRcv × Report)
unfolding report_conns sum_up
report_receiver intv r = maybe none (report_conns intv r.lhead_conn) (λ a.
    maybe none (sum_up (not (r.n_conns == 0)) intv a.1)
      (λ s. some (record r { lhead_conn = a.0 }, s)))
