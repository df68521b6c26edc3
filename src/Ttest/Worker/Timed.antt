-- ===== src/Ttest/Worker/Timed.antt =====
-- The loop of `snd_worker` of ttest/ttsnd.c with its clock: when each round starts, how long its burst
-- takes, and when `wait_until` returns.
use tcp_eyenet.Prelude.{
  ℕ, ◌+◌, ◌-◌, ◌%◌, ◌^◌, leb, Bool, Option, none, some, maybe, List, [], ◌∷◌, if◌then◌else◌,
}
use tcp_eyenet.Ttest.Clock.{Timespec, get_time_usec, Wait, wait_until}
use tcp_eyenet.Ttest.Worker.{SWorker, Ended, ended, division_by_zero, cut_short, send_round}

-- The readings of a round, and the results of sendto
pub record Timed : Type 0 where
  pub start : Timespec
  pub sent : List Bool
  pub burst_end : Timespec
  pub wait : Wait

-- `delta`, on 64 bits
unfoldable pub delta_of : Timed → ℕ
delta_of r = (get_time_usec r.burst_end + (2 ^ 64 - get_time_usec r.start)) % 2 ^ 64

-- When the round comes back to the loop's test: after its burst, if that took the gap, or after
-- `wait_until`
unfoldable pub comes_back : ℕ → Timed → Option Timespec
unfolding delta_of
comes_back ibg r =
    if leb ibg (delta_of r)
    then some r.burst_end
    else wait_until ((get_time_usec r.start + ibg) % 2 ^ 64) r.wait

abbrev pub of_ended : Ended → Option SWorker
of_ended (ended w) = some w
of_ended division_by_zero = none
of_ended cut_short = none

-- One round; none where it does not end.
unfoldable pub timed_round : SWorker → Timed → Option (SWorker × Timespec)
unfolding comes_back
timed_round w r =
    maybe none (of_ended (send_round w (record { sent = r.sent; delta = delta_of r })))
      (λ v. maybe none (comes_back w.ibg r) (λ t. some (v, t)))

-- The rounds while `cmd` is 1, with the worker and the time after them
unfoldable pub timed_rounds : SWorker → Timespec → List Timed → Option (SWorker × Timespec)
unfolding timed_round
timed_rounds w now [] = some (w, now)
timed_rounds w now (r ∷ rs) = maybe none (timed_round w r) (λ x. timed_rounds x.0 x.1 rs)
