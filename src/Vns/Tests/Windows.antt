-- ===== src/Vns/Tests/Windows.antt =====
-- `win`, `rtt_win`, `loss_reduce` and `data_rank` at work.
use tcp_eyenet.Prelude.{
  some, ◌≤◌, zero, suc, ◌-◌, ◌++◌, List, drop, length, ◌≡◌, refl, true, false, [], ◌∷◌, ◌↔◌, arith,
  ℕ,
}
use tcp_eyenet.Prelude.Int.{ℤ, quot, ◌+ℤ◌, ◌-ℤ◌, ◌*ℤ◌}
use tcp_eyenet.Double.{◌≼◌}
use tcp_eyenet.Double.Fixed.{
  fixed_double, fixed-IsIeee, fixed_dec, fixed_times, fixed_of_int, fixed_to_int,
}
use tcp_eyenet.Vns.Win
use tcp_eyenet.Vns.Win.{Win, evict, settled, update_win, pop_worse, keep_back}
use tcp_eyenet.Vns.Win.Refinement.{Refines, slide, win-Refines, add-Refines}
use tcp_eyenet.Vns.Win.Runs
use tcp_eyenet.Vns.Win.Runs.{win-bounds}
use tcp_eyenet.Vns.RttWin
use tcp_eyenet.Vns.RttWin.{RttWin, win_sz, smooth}
use tcp_eyenet.Vns.RttWin.Order.{rtt_win-IsTracking, min-le-virgin}
use tcp_eyenet.Vns.LossReduce
use tcp_eyenet.Vns.LossReduce.{LossReduce, tally, is_over, loss_rate}
use tcp_eyenet.Vns.LossReduce.Rate.{update_iff}
use tcp_eyenet.Vns.DataRank.Percentile.{get_rank-places}
use tcp_eyenet.Vns.DataRank.Largest.{Nums, above}
use tcp_eyenet.Vns.DataRank.Window.{add_all, add_all-last}
use tcp_eyenet.Vns.DataRank.{DataRank, get_rank, insert_largest, rank_rounds, minus_ones}

abbrev ms : ℕ → ℤ
ms n = fixed_dec n 0

abbrev low : Win ℤ
low = Win.win true

abbrev seen : Win ℤ
seen = Win.add (Win.add low (ms 30) (ms 0)) (ms 20) (ms 5)

-- A minimum forgets the sample that a later one beats.
seen_runs : seen.val ≡ (ms 5, ms 20) ∷ []
unfolding Win.win Win.add fixed_dec ◌-ℤ◌
seen_runs = refl

add-Refines_example : Refines (Win.add low (ms 30) (ms 0)) (slide low.sz (ms 30) (ms 0) [])
unfolding Win.win fixed_dec
add-Refines_example = add-Refines fixed-IsIeee low (ms 30) (ms 0) (win-Refines true) refl tt

-- 30 at the time 0, 20 at 5 and 40 at 9
win-bounds_example :
    settled true
      (Runs.add_all (Win.win true) ((ms 0, ms 30) ∷ (ms 5, ms 20) ∷ (ms 9, ms 40) ∷ [])).tail
      (ms 20)
    ≡ true
unfolding fixed_dec ◌-ℤ◌
win-bounds_example =
    win-bounds fixed-IsIeee true ((ms 0, ms 30) ∷ []) (ms 5, ms 20) ((ms 9, ms 40) ∷ [])
      (refl, (refl, (refl, tt))) ((refl, (refl, tt)), ((refl, tt), (tt, tt))) (refl, (refl, tt))

min-le-virgin_example :
    (RttWin.add RttWin.rtt_win (ms 30) (ms 2)).min_rtt.tail
    ≼ (RttWin.add RttWin.rtt_win (ms 30) (ms 2)).virgin_rtt.tail
unfolding fixed_dec
min-le-virgin_example =
    min-le-virgin fixed-IsIeee RttWin.rtt_win (ms 30) (ms 2) (ms 1) (rtt_win-IsTracking (ms 1)) refl
      refl

abbrev lossy : LossReduce ℤ
lossy = record { nloss = 20; npkts = 20; last_win_ts = ms 0 }

-- Twenty losses of twenty packets, and one more: a reduction. With one arrival among them: none.
lossy_runs :
    ((LossReduce.update lossy true (ms 90) (ms 30)).1 ≡ true)
    × ((LossReduce.update (record lossy { nloss = 19 }) true (ms 90) (ms 30)).1 ≡ false)
unfolding LossReduce.update tally is_over loss_rate fixed_dec ◌+ℤ◌ fixed_times fixed_of_int
lossy_runs = (refl, refl)

update_iff_example : ((LossReduce.update lossy true (ms 90) (ms 30)).1 ≡ true) ↔ (
    (is_over (tally lossy true) (ms 90) (ms 30) ≡ true)
    × ((tally lossy true).nloss ≡ (tally lossy true).npkts))
update_iff_example = update_iff fixed-IsIeee lossy true (ms 90) (ms 30) (omega arith)

-- The rank of three samples, and a queue that is turned round.
rank_runs :
    rank_rounds 3 (ms 4 ∷ ms 9 ∷ ms 6 ∷ []) (minus_ones 2)
    ≡ (ms 4 ∷ ms 9 ∷ ms 6 ∷ [], ms 9 ∷ ms 6 ∷ [])
unfolding rank_rounds minus_ones insert_largest fixed_dec fixed_of_int ◌*ℤ◌
rank_runs = refl

abbrev ones : ℕ → List ℤ
ones zero = []
ones (suc n) = ms 1 ∷ ones n

-- A queue that is full
abbrev full : DataRank ℤ
full = record { percentile = ms 0; window = ones 100 }

add_all-last_example :
    (add_all full (ms 2 ∷ ms 3 ∷ [])).window
    ≡ drop (length (ones 100 ++ ms 2 ∷ ms 3 ∷ []) - 100) (ones 100 ++ ms 2 ∷ ms 3 ∷ [])
add_all-last_example = add_all-last full (ms 2 ∷ ms 3 ∷ []) (omega arith)

-- The times from `n` ms down
abbrev times_from : ℕ → List ℤ
times_from zero = []
times_from (suc n) = fixed_dec n 0 ∷ times_from n

Nums-times_from : (n : ℕ) → Nums (times_from n)
Nums-times_from zero = tt
Nums-times_from (suc n) = (fixed-IsIeee.dec_mono n 0 n 0 (omega arith), Nums-times_from n)

abbrev full_rank : DataRank ℤ
full_rank = record { percentile = fixed_dec 5 1; window = times_from 100 }

get_rank-places_example :
    (v : ℤ) × (get_rank full_rank ≡ (full_rank, some v))
    × ((ms 50 ≼ v) ↔ (50 ≤ above (ms 50) full_rank.window))
unfolding fixed_dec fixed_times fixed_of_int fixed_to_int ◌-ℤ◌ ◌*ℤ◌ quot
get_rank-places_example =
    get_rank-places fixed-IsIeee full_rank 49 (ms 50) refl (Nums-times_from 100) refl refl refl
