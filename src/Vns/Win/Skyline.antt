-- ===== src/Vns/Win/Skyline.antt =====
-- The reference for `win`: the plain list of the samples in the window, oldest first. Its skyline is
-- what is left of it when every sample that a later one beats is dropped; the deque holds just that.
use tcp_eyenet.Prelude.{Bool, List, [], ◌∷◌, if◌then◌else◌, All}
use tcp_eyenet.Double.{Double, ◌≼◌}
use tcp_eyenet.Vns.Win.{worse}

module _ {ℓ} {W : Type ℓ} ⦃d : Double W⦄ where
  open d use {lt}

  -- Samples before the cut leave, oldest first; the newest stays in any case.
  unfoldable pub expire : W → List (W × W) → List (W × W)
  expire cut [] = []
  expire cut (x ∷ []) = x ∷ []
  expire cut (x ∷ y ∷ r) = let rest = expire cut (y ∷ r) in if lt x.0 cut then rest else x ∷ y ∷ r

  -- `x` in front of a skyline: dropped, if the first of these beats it.
  unfoldable pub before : Bool → W × W → List (W × W) → List (W × W)
  before m x [] = x ∷ []
  before m x (y ∷ r) = if worse m x.1 y.1 then y ∷ r else x ∷ y ∷ r

  unfoldable pub skyline : Bool → List (W × W) → List (W × W)
  skyline m [] = []
  skyline m (x ∷ xs) = before m x (skyline m xs)

  -- The better of two values, the first if they are equal.
  unfoldable pub pick : Bool → W → W → W
  pick m a b = if worse m a b then b else a

  -- The best value of the samples, `t` if there are none.
  unfoldable pub best : Bool → W → List (W × W) → W
  best m t [] = t
  best m t (x ∷ []) = x.1
  best m t (x ∷ y ∷ r) = pick m x.1 (best m t (y ∷ r))

  -- Values that are numbers, and times in order.
  abbrev pub IsNum : W → Type 0
  IsNum x = x ≼ x

  abbrev pub NotBefore : W → List (W × W) → Type 0
  NotBefore t = All (λ x. t ≼ x.0)

  abbrev pub InOrder : List (W × W) → Type 0
  InOrder [] = Unit {0}
  InOrder (x ∷ xs) = NotBefore x.0 xs × InOrder xs
