-- ===== src/Ttest/Client.antt =====
-- `start_client` of ttest/ttsnd.c: the start of the workers, the loop of reports, the last report. What
-- the workers do between two reports is an input, as is the clock.
pub mod Rounds
pub mod Telling
pub mod Watching
pub mod Starting
pub mod Accounts
use tcp_eyenet.Prelude.{
  ℕ, zero, suc, ◌+◌, ◌*◌, ◌%◌, ◌^◌, Bool, true, false, not, ◌&&◌, ltb, ◌==◌, Option, none, some,
  maybe, List, [], ◌∷◌, if◌then◌else◌,
}
use tcp_eyenet.Prelude.Int.{ℤ, pos, eqb_ℤ}
use tcp_eyenet.Ttest.Params.{ProgParam}
use tcp_eyenet.Ttest.Pacing.{calc_pkts_rate}
use tcp_eyenet.Ttest.Worker.{
  SWorker, Round, Ended, ended, division_by_zero, cut_short, start_worker, send_rounds,
}
use tcp_eyenet.Ttest.Reports.{Report, SThread, TSnd, report_sender}

-- The results of pthread_create and, in the worker, of open_data_sockets and malloc; the socket, and what
-- is in the new packet
pub record SLaunch : Type 0 where
  pub rc : ℤ
  pub opened : ℤ
  pub allocated : Bool
  pub fd : ℤ
  pub garbage : ℕ

-- `wstatus`, as a worker of ttsnd.c sets it at its start
unfoldable pub sworker_status : SLaunch → ℕ
sworker_status l = if eqb_ℤ l.opened (pos 1) then (if l.allocated then 1 else 3) else 2

-- The loop that starts the workers, from number `i`; none where one does not start.
unfoldable pub start_sworkers : (ℕ → SLaunch) → (ℕ → SWorker) → ℕ → ℕ → Option (List SThread)
unfolding sworker_status
start_sworkers launch fresh i zero = some []
start_sworkers launch fresh i (suc n) =
    let l = launch i in
    let rest = start_sworkers launch fresh (i + 1) n in
    let w : SThread = record {
      wstatus = sworker_status l;
      fd = l.fd;
      id = i % 2 ^ 16;
      worker = fresh l.garbage;
    } in
    if eqb_ℤ l.rc (pos 0) && sworker_status l == 1
    then maybe none rest (λ ws. some (w ∷ ws))
    else none

-- `failed`: the result is -1.
pub data Client : Type 0 where
  started : TSnd → Client
  failed : Client
  no_rate : Client

-- `ttsnd` with its workers at work
unfoldable pub client_of : ProgParam → ℕ → ℕ → List SThread → TSnd
client_of p ibg npkts_burst workers = record {
  cmd = 1;
  n_cpus = p.n_cpus % 2 ^ 8;
  remoteip = p.ip;
  remoteport = p.port;
  ibg = ibg;
  npkts_burst = npkts_burst;
  workers = workers;
  reporting_interval = p.reporting_interval;
  duration = p.duration;
}

-- `start_client`, up to its loop
unfoldable pub start_client : ProgParam → Bool → (ℕ → SLaunch) → Client
unfolding start_sworkers client_of
start_client p allocated launch = maybe no_rate (calc_pkts_rate p.rate_kbps p.pktsize) (λ r.
    if allocated
    then maybe failed
        (start_sworkers launch (λ garbage. start_worker p.pktsize r.1 r.0 garbage) 0 p.n_cpus)
        (λ ws. started (client_of p r.0 r.1 ws))
    else failed)

-- The rounds of each worker before a report, and `delta` after it
pub record Period : Type 0 where
  pub rounds : ℕ → List Round
  pub delta : ℕ

-- A worker after its rounds
abbrev pub resume : SThread → Ended → Option SThread
resume w (ended v) = some (record w { worker = v })
resume w division_by_zero = none
resume w cut_short = none

-- The workers, from number `i`, after their rounds; none where one does not end its rounds.
unfoldable pub advance : (ℕ → List Round) → ℕ → List SThread → Option (List SThread)
advance rounds i [] = some []
advance rounds i (w ∷ ws) =
    maybe none (resume w (send_rounds w.worker (rounds i)))
      (λ v. maybe none (advance rounds (i + 1) ws) (λ vs. some (v ∷ vs)))

-- A turn of the loop
unfoldable pub watch_one : TSnd → Period → Option (TSnd × Report)
unfolding advance
watch_one t k =
    maybe none (advance k.rounds 0 t.workers) (λ ws. report_sender true (record t { workers = ws }))

-- The loop, with its reports; the flag says that it ended by its test.
unfoldable pub watch : ℕ → TSnd → List Period → Option (TSnd × List Report × Bool)
unfolding watch_one
watch delta t [] = some (t, [], not (ltb delta (t.duration * 1000000 % 2 ^ 64)))
watch delta t (k ∷ periods) =
    let rest =
      maybe none (watch_one t k)
        (λ a. maybe none (watch k.delta a.0 periods) (λ b. some (b.0, a.1 ∷ b.1, b.2))) in
    if ltb delta (t.duration * 1000000 % 2 ^ 64) then rest else some (t, [], true)

-- What follows the loop: `cmd` is 2, and the last report, after the rounds that still end before it
unfoldable pub finish : TSnd → (ℕ → List Round) → Option (TSnd × Report)
finish t rounds =
    maybe none (advance rounds 0 t.workers)
      (λ ws. report_sender false (record t { cmd = 2; workers = ws }))
