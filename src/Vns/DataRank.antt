-- ===== src/Vns/DataRank.antt =====
-- `class data_rank` of vns/vns_utils.cc: the last 100 samples and a rank among them. The queue is a
-- list, its front first.
pub mod Window
pub mod Largest
pub mod Ranked
pub mod Percentile
use tcp_eyenet.Prelude.{
  ℕ, zero, suc, List, [], ◌∷◌, ◌++◌, Option, none, some, ltb, if◌then◌else◌, length,
}
use tcp_eyenet.Prelude.Int.{pos, negsuc, pos_part}
use tcp_eyenet.Double.{Double}

abbrev pub win_len : ℕ
win_len = 100

pub record DataRank {ℓ} (W : Type ℓ) : Type ℓ where
  pub percentile : W
  pub window : List W

abbrev pub pop {ℓ} : {A : Type ℓ} → List A → List A
pop [] = []
pop (x ∷ xs) = xs

module _ {ℓ} {W : Type ℓ} ⦃d : Double W⦄ where
  open d use {dec, of_int, to_int, minus, times, lt, le}

  -- The constructor `data_rank(double_t)`
  unfoldable pub data_rank : W → DataRank W
  data_rank val = record { percentile = val; window = [] }

  -- `data_rank::add`
  unfoldable pub add : DataRank W → W → DataRank W
  add r val =
      let pushed = r.window ++ val ∷ [] in
      record r { window = if ltb win_len (length pushed) then pop pushed else pushed }

  -- The loop of `clear`
  unfoldable pub pop_all : List W → List W
  pop_all [] = []
  pop_all (x ∷ xs) = pop_all xs

  -- `data_rank::clear`
  unfoldable pub clear : DataRank W → DataRank W
  unfolding pop_all
  clear r = record r { window = pop_all r.window }

  -- The inner loop of `get_rank` over the entries of `largest`; `last` is `largest[n-1]`, which the
  -- loop writes only in its last round.
  unfoldable pub insert_largest : W → W → List W → List W
  insert_largest last tmp [] = []
  insert_largest last tmp (l ∷ ls) =
      let carry = if le tmp last then tmp else (if lt l tmp then l else tmp) in
      let here = if le tmp last then l else (if lt l tmp then tmp else l) in
      here ∷ insert_largest last carry ls

  abbrev pub last_or : W → List W → W
  last_or x [] = x
  last_or x (y ∷ ys) = last_or y ys

  -- The outer loop of `get_rank`: each round takes the front, puts it into `largest` and behind the
  -- queue. The front of an empty queue is not read, since `get_rank` returns before.
  unfoldable pub rank_rounds : ℕ → List W → List W → List W × List W
  rank_rounds zero window largest = (window, largest)
  rank_rounds (suc k) [] largest = ([], largest)
  rank_rounds (suc k) (x ∷ window) largest =
      rank_rounds k (window ++ x ∷ []) (insert_largest (last_or x largest) x largest)

  -- The `n` entries of `largest` before the rounds.
  unfoldable pub minus_ones : ℕ → List W
  minus_ones zero = []
  minus_ones (suc n) = of_int (negsuc 0) ∷ minus_ones n

  -- The last entry
  unfoldable pub last? : List W → Option W
  last? [] = none
  last? (x ∷ xs) = some (last_or x xs)

  -- `data_rank::get_rank`; `none` is the read of `largest[-1]`, for a percentile that leaves `n = 0`. The
  -- percentile is taken to be -0.01 or more: below it `n` is over 101, the size of `largest`, and the code
  -- writes behind the array, which is not modelled.
  unfoldable pub get_rank : DataRank W → DataRank W × Option W
  unfolding rank_rounds minus_ones last?
  get_rank r =
      let n = pos_part (to_int (times (minus (dec 1 0) r.percentile) (of_int (pos win_len)))) in
      let (window, largest) = rank_rounds win_len r.window (minus_ones n) in
      if ltb 0 (length r.window)
      then (record r { window = window }, last? largest)
      else (r, some (dec 0 0))
