-- ===== src/Vns/Win.antt =====
-- `class win` of vns/vns_utils.cc: the minimum or maximum of the samples of a sliding time window,
-- kept as a monotone deque. The deque is a list, its front first; a sample is a time and a value.
pub mod Skyline
pub mod Pushing
pub mod Expiry
pub mod Refinement
pub mod Bounds
pub mod Runs
use tcp_eyenet.Prelude.{Bool, true, false, ◌||◌, List, [], ◌∷◌, ◌++◌, if◌then◌else◌}
use tcp_eyenet.Double.{Double}

pub record Win {ℓ} (W : Type ℓ) : Type ℓ where
  pub sz : W
  pub val : List (W × W)
  pub tail : W
  pub is_min : Bool

module _ {ℓ} {W : Type ℓ} ⦃d : Double W⦄ where
  open d use {dec, double_max, double_min, minus, lt, le}

  -- The sample is of no more use once `v` has come: `> v` in a minimum, `< v` in a maximum.
  abbrev pub worse : Bool → W → W → Bool
  worse true old v = lt v old
  worse false old v = lt old v

  -- The test of `update_win` under which the tail is taken anew.
  abbrev pub settled : Bool → W → W → Bool
  settled true front tail = le front tail
  settled false front tail = le tail front

  abbrev pub initial_tail : Bool → W
  initial_tail true = double_max
  initial_tail false = double_min

  -- `win::win`
  unfoldable pub win : Bool → Win W
  win is_min = record { sz = dec 10000 0; val = []; tail = initial_tail is_min; is_min = is_min }

  -- `win::clear`
  unfoldable pub clear : Win W → Win W
  clear w = record w { sz = dec 10000 0; val = []; tail = initial_tail w.is_min }

  -- `win::update_sz`
  unfoldable pub update_sz : Win W → W → Win W
  update_sz w s = record w { sz = s }

  -- The loop of `update_win`: the front goes while another sample is behind it and it is older than
  -- `cut`, which is `now - sz`; the flag is `again`.
  unfoldable pub evict : Bool → W → W → Bool → List (W × W) → Bool × List (W × W)
  evict is_min tail cut again [] = (again, [])
  evict is_min tail cut again (x ∷ []) = (again, x ∷ [])
  evict is_min tail cut again (x ∷ y ∷ r) =
      let rest = evict is_min tail cut (again || settled is_min x.1 tail) (y ∷ r) in
      if lt x.0 cut then rest else (again, x ∷ y ∷ r)

  -- `val.front().second`; with an empty deque `update_win` does not read it.
  abbrev pub front_or : W → List (W × W) → W
  front_or t [] = t
  front_or t (x ∷ r) = x.1

  -- `win::update_win`
  unfoldable pub update_win : Win W → W → Win W
  unfolding evict
  update_win w now =
      let (again, left) = evict w.is_min w.tail (minus now w.sz) false w.val in
      record w { val = left; tail = if again then front_or w.tail left else w.tail }

  -- The loop of `add`: samples leave at the back, up to the first that is not worse than `v`. What
  -- stands behind `x` has been looked at first.
  unfoldable pub keep_back : Bool → W → W × W → List (W × W) → List (W × W)
  keep_back is_min v x [] = if worse is_min x.1 v then [] else x ∷ []
  keep_back is_min v x (y ∷ s) = x ∷ y ∷ s

  unfoldable pub pop_worse : Bool → W → List (W × W) → List (W × W)
  unfolding keep_back
  pop_worse is_min v [] = []
  pop_worse is_min v (x ∷ r) = keep_back is_min v x (pop_worse is_min v r)

  -- `win::add`
  unfoldable pub add : Win W → W → W → Win W
  unfolding update_win pop_worse
  add w v ts =
      let m = w.is_min in
      update_win
        (record w {
          val = pop_worse m v w.val ++ (ts, v) ∷ [];
          tail = if worse m w.tail v then v else w.tail;
        })
        ts
