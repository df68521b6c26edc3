-- ===== src/Ttest/Tests/Reporting.antt =====
-- The reports of ttest/ at concrete inputs.
use tcp_eyenet.Prelude.{All, ℕ, ◌%◌, ◌^◌, ◌≡◌, Bool, true, some, List, [], ◌∷◌, arith, refl, sym}
use tcp_eyenet.Prelude.Int.{pos}
use mathlib.Core.Option.{some-ne-none}
use tcp_eyenet.Ttest.Receiver.{deref, start_rworker, rcv_packet}
use tcp_eyenet.Ttest.Worker.{Round, start_worker}
use tcp_eyenet.Ttest.Worker.Running.{Answered}
use tcp_eyenet.Ttest.Pacing.{calc_pkts_rate, packets_per_sec, burst_of}
use tcp_eyenet.Ttest.Reports.{Report, TSnd}
use tcp_eyenet.Ttest.Reports.Lines.{reported}
use tcp_eyenet.Ttest.Server.{
  Launch, Event, arrive, report, start_server, fresh_server, start_workers, rworker_status, serve,
}
use tcp_eyenet.Ttest.Server.Accounts.{Accounts, serve-Accounts}
use tcp_eyenet.Ttest.Client.{
  SLaunch, Period, Client, started, start_client, client_of, start_sworkers, sworker_status, watch,
  finish,
}
use tcp_eyenet.Ttest.Client.Starting.{model}
use tcp_eyenet.Ttest.Client.Rounds.{gone_out}
use tcp_eyenet.Ttest.Client.Accounts.{watch-reported}
use tcp_eyenet.Ttest.Receiver.Unique.{Distinct, Stays, rcv_packet-Stays}
use tcp_eyenet.Ttest.Tests.{
  slow_param, slow_param-InRange, slow_burst, some_packet, no_conns, no_conns-IsTable, late_round,
  next_round,
}

abbrev pub launched : ℕ → Launch
launched i = record { rc = pos 0; opened = pos 1 }

abbrev some_events : List Event
some_events = arrive 0 some_packet ∷ report ∷ arrive 1 some_packet ∷ []

serve-Accounts_example : Accounts 2 (serve some_events (fresh_server slow_param))
unfolding start_server start_workers rworker_status
serve-Accounts_example =
    serve-Accounts slow_param true launched some_events (omega arith, omega arith) refl
      (refl, (tt, (refl, tt)))

abbrev slaunched : ℕ → SLaunch
slaunched i = record { rc = pos 0; opened = pos 1; allocated = true; fd = pos 4; garbage = 7 }

abbrev of_client : TSnd → Client → TSnd
of_client t (started u) = u
of_client t c = t

abbrev no_rounds : ℕ → List Round
no_rounds i = []

abbrev one_period : List Period
one_period = record { rounds = λ i. late_round ∷ next_round ∷ []; delta = 1000000 } ∷ []

abbrev running_client : TSnd
running_client =
    client_of slow_param 125 1
      (record { wstatus = 1; fd = pos 4; id = 0; worker = start_worker 1472 1 125 7 } ∷ [])

running_client-starts : start_client slow_param true slaunched ≡ started running_client
unfolding start_client start_sworkers sworker_status calc_pkts_rate packets_per_sec burst_of
running_client-starts = refl

model_answers : (i : ℕ) → All (Answered (model slow_param 125 1)) (late_round ∷ next_round ∷ [])
unfolding start_worker
model_answers i = ((omega arith, omega arith), ((omega arith, omega arith), tt))

watch-reported_example :
    (a : TSnd × List Report × Bool) × (watch 0 running_client one_period ≡ some a)
    × (reported a.1 % 2 ^ 64 ≡ gone_out 1 a.0.workers % 2 ^ 64)
    × (b : TSnd × Report) × (finish a.0 no_rounds ≡ some b)
    × (b.1.spkts % 2 ^ 64 ≡ gone_out 1 b.0.workers % 2 ^ 64)
watch-reported_example =
    watch-reported slow_param 125 1 true slaunched one_period no_rounds slow_param-InRange
      (omega arith, omega arith) slow_burst running_client-starts (model_answers, tt) (λ i. tt)

two_workers-Distinct : Distinct no_conns.lhead_conn (start_rworker 0) (start_rworker 1)
unfolding deref
two_workers-Distinct = record {
  unique = λ p q c d e f k. absurd (some-ne-none c (sym e));
  found = λ p c e f. absurd (some-ne-none c (sym e));
  others = λ p c e f. absurd (some-ne-none c (sym e));
}

rcv_packet-Stays_example :
    Stays (start_rworker 1) (rcv_packet some_packet no_conns (start_rworker 0))
unfolding start_rworker
rcv_packet-Stays_example =
    rcv_packet-Stays some_packet no_conns (start_rworker 0) (start_rworker 1)
      (λ e. absurd (omega (arith, e))) (no_conns-IsTable 0) two_workers-Distinct
