-- ===== src/Vns/Tests/Control.antt =====
-- The congestion control at work: three packets in flight, the second is acknowledged.
use tcp_eyenet.Prelude.{◌≡◌, refl, List, [], ◌∷◌, ℕ, arith}
use tcp_eyenet.Prelude.Int.{ℤ, pos, ◌-ℤ◌}
use tcp_eyenet.Double.Fixed.{fixed_double, fixed-IsIeee, fixed_dec}
use tcp_eyenet.Vns.Eyenet.State.{Eyenet, PacketInfo, eyenet, set_ts, initialize}
use tcp_eyenet.Vns.Eyenet.Packets.{count}
use tcp_eyenet.Vns.Eyenet.Handlers.{ok, on_ack, on_pkt_sent}
use tcp_eyenet.Vns.Eyenet.Ledger.{books, above, below}
use tcp_eyenet.Vns.Eyenet.Losses.{Expect, after_ack, on_ack-books}
use tcp_eyenet.Vns.Eyenet.Runs.{
  Orderly, done, ticks, restarts, arrives, leaves, IsSound, run-eyenet-returns,
}
use tcp_eyenet.Vns.Eyenet.Steady.{
  Call, sets_ts, initializes, acks, sends, run, step, run-eyenet-IsSteady,
}
use tcp_eyenet.Vns.Eyenet.Invariant.{IsSteady}

abbrev ms : ℕ → ℤ
ms n = fixed_dec n 0

abbrev info : PacketInfo ℤ
info = record {
  intersend = ms 0;
  intersend_rate = ms 0;
  last_avg_send_rate = ms 0;
  rtt = ms 30;
  sent_ts = ms 1;
}

-- Packets 0, 1 and 2 in flight, at 40 ms
abbrev flying : Eyenet ℤ
flying = record (eyenet (ms 1)) {
  unacked_pkts = (pos 0, info) ∷ (pos 1, info) ∷ (pos 2, info) ∷ [];
  curr_ts = ms 40;
  nsent = 3;
}

-- What the books show after packet 1 is acknowledged.
books_run : after_ack (pos 1) (books flying) ≡ ((pos 2, info) ∷ [], 1, 3, 1)
unfolding eyenet above below count
books_run = refl

on_ack-books_example :
    Expect
      (λ t. books t ≡ after_ack (pos 2 -ℤ pos 1) (books flying))
      (on_ack flying (pos 2) (ms 0) (ms 5))
on_ack-books_example = on_ack-books flying (pos 2) (ms 0) (ms 5) (omega arith)

abbrev calls : List (Call ℤ)
calls = sets_ts (ms 3) ∷ initializes ∷ sends (pos 0) ∷ []

abbrev after_calls : Eyenet ℤ
after_calls = on_pkt_sent (initialize (set_ts (eyenet (ms 1)) (ms 3))) (pos 0)

run-eyenet-IsSteady_example : IsSteady after_calls
unfolding run step
run-eyenet-IsSteady_example = run-eyenet-IsSteady fixed-IsIeee calls refl

-- A packet at 3 ms, its acknowledgment at 40 ms, and a restart
abbrev session : List (Call ℤ)
session =
    sets_ts (ms 3)
    ∷ initializes
    ∷ sends (pos 0)
    ∷ sets_ts (ms 40)
    ∷ acks (pos 1) (ms 0) (ms 3)
    ∷ sets_ts (ms 50)
    ∷ initializes
    ∷ []

session-Orderly : Orderly (ms 0) session
unfolding fixed_dec ◌-ℤ◌
session-Orderly = restarts (ms 3) (
    leaves (pos 0) (omega arith)
      (ticks (ms 40) refl (arrives (pos 1) (ms 0) (ms 3) refl refl (restarts (ms 50) done))))

run-eyenet-returns_example : (t : Eyenet ℤ) × (run (eyenet (ms 1)) session ≡ ok t) × IsSound t
run-eyenet-returns_example = run-eyenet-returns fixed-IsIeee session session-Orderly
