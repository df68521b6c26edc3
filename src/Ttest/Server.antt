-- ===== src/Ttest/Server.antt =====
-- `start_server` of ttest/ttrcv.c: the start of the workers, and the server at work. A round of a worker
-- and a report are steps, in any order.
pub mod Pending
pub mod Accounts
pub mod Tallies
use tcp_eyenet.Prelude.{
  ℕ, zero, suc, ◌+◌, ◌%◌, ◌^◌, Bool, true, ◌&&◌, ◌==◌, Option, none, some, maybe, List, [], ◌∷◌,
  ◌++◌, if◌then◌else◌,
}
use tcp_eyenet.Prelude.Int.{ℤ, pos, eqb_ℤ}
use tcp_eyenet.Ttest.Params.{ProgParam}
use tcp_eyenet.Ttest.Receiver.{
  TRcv, RWorker, Packet, Stepped, stepped, aborted, start_rworker, rcv_packet,
}
use tcp_eyenet.Ttest.Reports.{Report, report_receiver}

-- `ttrcv`, its workers, and the interval of the reports
pub record Server : Type 0 where
  pub cmd : ℕ
  pub n_cpus : ℕ
  pub localip : ℕ
  pub localport : ℕ
  pub rcv : TRcv
  pub workers : ℕ → RWorker
  pub reporting_interval : ℕ

-- The results of pthread_create and, in the worker, of open_data_sockets
pub record Launch : Type 0 where
  pub rc : ℤ
  pub opened : ℤ

-- `wstatus`, as a worker of ttrcv.c sets it at its start
unfoldable pub rworker_status : ℤ → ℕ
rworker_status opened = if eqb_ℤ opened (pos 1) then 1 else 2

-- The loop that starts the workers, from number `i`: whether it comes to its end
unfoldable pub start_workers : (ℕ → Launch) → ℕ → ℕ → Bool
unfolding rworker_status
start_workers launch i zero = true
start_workers launch i (suc n) =
    eqb_ℤ (launch i).rc (pos 0)
    && rworker_status (launch i).opened == 1
    && start_workers launch (i + 1) n

-- `ttrcv` when its workers are started
unfoldable pub fresh_server : ProgParam → Server
fresh_server p = record {
  cmd = 1;
  n_cpus = p.n_cpus % 2 ^ 8;
  localip = p.ip;
  localport = p.port;
  rcv = record { lhead_conn = []; n_conns = 0; cid_seed = 0 };
  workers = λ i. start_rworker (i % 2 ^ 16);
  reporting_interval = p.reporting_interval;
}

-- `start_server`, up to its endless loop; none for a result of -1.
unfoldable pub start_server : ProgParam → Bool → (ℕ → Launch) → Option Server
unfolding start_workers fresh_server
start_server p allocated launch =
    if allocated && start_workers launch 0 p.n_cpus then some (fresh_server p) else none

-- A packet at a worker, or a report
pub data Event : Type 0 where
  arrive : ℕ → Packet → Event
  report : Event

-- The server after some events, and its reports; `assert_failed`: a worker's assertion fails; `no_rate`: a
-- report divides by zero.
pub data Served : Type 0 where
  serving : Server → List Report → Served
  assert_failed : Served
  no_rate : Served

-- The worker's place in the array
abbrev pub set_worker : ℕ → RWorker → (ℕ → RWorker) → ℕ → RWorker
set_worker i w workers j = if j == i then w else workers j

-- The server after a worker's round
unfoldable pub after_packet : ℕ → Server → Stepped → Served
after_packet i s (stepped r w) =
    serving (record s { rcv = r; workers = set_worker i w s.workers }) []
after_packet i s aborted = assert_failed

unfoldable pub serve_event : Event → Server → Served
unfolding after_packet
serve_event (arrive i k) s = after_packet i s (rcv_packet k s.rcv (s.workers i))
serve_event report s =
    maybe no_rate (report_receiver s.reporting_interval s.rcv)
      (λ a. serving (record s { rcv = a.0 }) (a.1 ∷ []))

-- The reports of the later events come after those that are there.
abbrev pub and_serve : Served → (Server → Served) → Served
and_serve (serving s rs) next = put_before rs (next s)
  where
    put_before : List Report → Served → Served
    put_before rs (serving t more) = serving t (rs ++ more)
    put_before rs assert_failed = assert_failed
    put_before rs no_rate = no_rate
and_serve assert_failed next = assert_failed
and_serve no_rate next = no_rate

unfoldable pub serve : List Event → Server → Served
unfolding serve_event
serve [] s = serving s []
serve (e ∷ events) s = and_serve (serve_event e s) (serve events)
