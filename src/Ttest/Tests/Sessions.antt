-- ===== src/Ttest/Tests/Sessions.antt =====
-- A client and a server of ttest together, their start and their clock, at concrete inputs.
use tcp_eyenet.Prelude.{
  ℕ, zero, suc, ◌+◌, ◌-◌, ◌*◌, ◌/◌, ◌%◌, ◌≤◌, ◌<◌, ◌≡◌, true, false, Option, none, some, List, [],
  ◌∷◌, ◌++◌, inl, inr, arith, refl, ap,
}
use tcp_eyenet.Prelude.Int.{pos}
use tcp_eyenet.Ttest.Params.{main}
use tcp_eyenet.Ttest.Params.Reaching.{Reads, options, started_as, main-options}
use tcp_eyenet.Ttest.Clock.{Timespec, get_time_usec, wait_until}
use tcp_eyenet.Ttest.Worker.{
  SWorker, ended, start_worker, send_rounds, send_round, send_burst, send_pkt, count_burst,
  next_qouta,
}
use tcp_eyenet.Ttest.Worker.Running.{IsLedger}
use tcp_eyenet.Ttest.Worker.Timed.{Timed, timed_rounds, comes_back, delta_of}
use tcp_eyenet.Ttest.Worker.Chained.{Chain}
use tcp_eyenet.Ttest.Worker.Conforming.{Conforms, client-Conforms}
use tcp_eyenet.Ttest.Receiver.{RconnTuple}
use tcp_eyenet.Ttest.Receiver.Tally.{nbytes_meter}
use tcp_eyenet.Ttest.Server.{
  Event, arrive, report, start_server, fresh_server, start_workers, rworker_status, serve,
}
use tcp_eyenet.Ttest.Server.Tallies.{Tallies, serve-Tallies}
use tcp_eyenet.Ttest.Session.{
  allocate_pkt, received_of, Delivers, nothing_left, comes, other, reports, Agrees, session-Agrees,
}
use tcp_eyenet.Ttest.Startup.{
  Thread, absent, spawned, indexed, reported, Place, creating, waiting, finished, Boot, set_at,
  Step, creates, reads, proceeds, ends, Reach, begins, later,
}
use tcp_eyenet.Ttest.Startup
use tcp_eyenet.Ttest.Startup.Owning.{Own, startup-Own}
use tcp_eyenet.Ttest.Tests.{
  decimal, decimal_from, slow_param, slow_param-InRange, slow_burst, slow_rounds, running,
  some_packet, late_round, next_round, replicate,
}
use tcp_eyenet.Ttest.Tests.Reporting.{launched}

abbrev client_at : RconnTuple
client_at = record { ip = 16777343; port = 40000 }

-- Two packets of the worker, one of another client and a report
abbrev delivered : List Event
delivered =
    arrive 0 (received_of 1472 (record (allocate_pkt 1472 0) { seq = 7 }) client_at true)
    ∷ report
    ∷ arrive 1 some_packet
    ∷ arrive 0 (received_of 1472 (record (allocate_pkt 1472 0) { seq = 1 }) client_at true)
    ∷ []

delivered-Delivers : Delivers 1472 client_at 2 delivered
delivered-Delivers =
    comes 0 7 true (reports (other 1 some_packet refl (comes 0 1 true nothing_left)))

rounds_end : send_rounds (start_worker 1472 1 125 7) (late_round ∷ next_round ∷ []) ≡ ended running
unfolding send_rounds start_worker send_round send_burst send_pkt count_burst next_qouta
rounds_end = refl

server_starts : start_server slow_param true launched ≡ some (fresh_server slow_param)
unfolding start_server start_workers rworker_status
server_starts = refl

session-Agrees_example : Agrees client_at running (serve delivered (fresh_server slow_param))
unfolding received_of
session-Agrees_example =
    session-Agrees 7 slow_param 125 1 (late_round ∷ next_round ∷ []) slow_param true launched
      client_at delivered slow_param-InRange slow_burst slow_rounds rounds_end
      (omega arith, omega arith) server_starts (refl, (tt, (refl, (refl, tt)))) delivered-Delivers

serve-Tallies_example :
    Tallies nbytes_meter client_at 2944 (serve delivered (fresh_server slow_param))
unfolding received_of allocate_pkt
serve-Tallies_example =
    serve-Tallies nbytes_meter client_at slow_param true launched delivered
      (omega arith, omega arith) server_starts (refl, (tt, (refl, (refl, tt))))

-- A round that starts at 10 s, takes a millisecond for its burst, and sleeps until a little after its
-- gap; and one that starts at 10.2 s and takes two gaps.
abbrev at_usec : ℕ → Timespec
at_usec us = record { tv_sec = 10; tv_nsec = us * 1000 }

abbrev brief_turn : Timed
brief_turn = record {
  start = at_usec 0;
  sent = true ∷ replicate 249 false;
  burst_end = at_usec 1000;
  wait = record { entry = at_usec 1001; spins = at_usec 125000 ∷ []; woken = at_usec 125040 };
}

abbrev long_turn : Timed
long_turn = record {
  start = at_usec 200000;
  sent = true ∷ replicate 249 false;
  burst_end = at_usec 450000;
  wait = record { entry = at_usec 450000; spins = []; woken = at_usec 450000 };
}

turns-Chain : Chain (125 * 1000) 1 (at_usec 0) (brief_turn ∷ long_turn ∷ [])
unfolding comes_back delta_of wait_until get_time_usec
turns-Chain = (
  record {
    normal = ((omega arith, omega arith), (omega arith, omega arith));
    started = omega arith;
    took = omega arith;
    short = omega arith;
    answers = omega arith;
    waits = λ h. (inr (inl (omega arith)), λ k. omega arith);
  },
  (
    record {
      normal = ((omega arith, omega arith), (omega arith, omega arith));
      started = omega arith;
      took = omega arith;
      short = omega arith;
      answers = omega arith;
      waits = λ h. absurd (omega (arith, h));
    },
    tt,
  ),
)

client-Conforms_example :
    (v : SWorker) × (t : Timespec) × (timed_rounds
        (start_worker 1472 1 125 7)
        (at_usec 0)
        (brief_turn ∷ long_turn ∷ [])
      ≡ some (v, t))
    × (get_time_usec (at_usec 0) ≤ get_time_usec t)
    × IsLedger 7 v
    × Conforms slow_param 125 (get_time_usec t - get_time_usec (at_usec 0)) v
client-Conforms_example =
    client-Conforms 7 slow_param 125 1 (at_usec 0) (brief_turn ∷ long_turn ∷ []) slow_param-InRange
      slow_burst turns-Chain

-- One worker, whose thread is there when `main` has come through its loop
abbrev none_there : ℕ → Thread
none_there k = absent

abbrev booted : Boot
booted = record {
  i = 1;
  place = finished;
  wstatus = set_at 0 1 (set_at 0 0 (λ k. 0));
  threads = set_at 0 (reported 0 1) (set_at 0 (indexed 0) (set_at 0 spawned none_there));
}

booting : Reach 1 booted
booting =
    later
      (later
        (later (later (later (begins (λ k. 0)) (creates refl (omega arith))) (reads 0 refl))
          (Startup.Step.reports 0 0 1 refl (omega arith)))
        (proceeds refl refl))
      (ends refl (omega arith))

startup-Own_example :
    Own finished 1 0 (reported 0 1)
    × (finished ≡ finished → 0 < 1 → booted.threads 0 ≡ reported 0 1)
startup-Own_example = startup-Own 1 0 (omega arith) booting

-- Ten decimal digits
abbrev digits_of : ℕ → ℕ → List ℕ
digits_of zero n = []
digits_of (suc k) n = digits_of k (n / 10) ++ (n % 10 + 48) ∷ []

decimal-append :
    (n : ℕ) (cs : List ℕ) (c : ℕ)
    → decimal_from n (cs ++ c ∷ []) ≡ decimal_from n cs * 10 + (c - 48)
decimal-append n [] c = refl
decimal-append n (d ∷ cs) c = decimal-append (n * 10 + (d - 48)) cs c

abbrev bound : ℕ → ℕ
bound zero = 1
bound (suc k) = 10 * bound k

digits_value : (k n : ℕ) → n < bound k → decimal_from 0 (digits_of k n) ≡ n
digits_value zero n h = omega arith
digits_value (suc k) n h = omega (
  arith,
  decimal-append 0 (digits_of k (n / 10)) (n % 10 + 48),
  digits_value k (n / 10) (omega arith),
)

-- The one byte of a text is the address.
abbrev address_of : List ℕ → Option ℕ
address_of [] = none
address_of (a ∷ as_left) = some a

decimal-Reads : Reads decimal address_of (digits_of 10) (λ a. a ∷ [])
decimal-Reads = record {
  numbers = λ n h. ap pos (digits_value 10 n (omega arith));
  addresses = λ a h. refl;
}

main-options_example :
    main decimal address_of 15 (options (digits_of 10) (λ a. a ∷ []) slow_param)
    ≡ started_as slow_param
main-options_example =
    main-options decimal address_of (digits_of 10) (λ a. a ∷ []) decimal-Reads 15 slow_param
      (λ e. absurd (omega (arith, e))) (inl refl) slow_param-InRange
      (omega arith, omega arith, omega arith)
