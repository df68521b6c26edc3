-- ===== src/Vns/Win/Pushing.antt =====
-- The loop of `win::add` at the back of the deque keeps it the skyline of the samples.
use tcp_eyenet.Prelude.{
  ◌≡◌, ◌⊎◌, refl, ap, ◌∙◌, Bool, true, false, List, [], ◌∷◌, ◌++◌, arith, All, Bool-cases, inl, inr,
}
use tcp_eyenet.Double.{Double, IsIeee}
use tcp_eyenet.Double.Laws.{lt_trans, le_of_not_lt, not_lt_of_le}
use tcp_eyenet.Vns.Win.{worse, keep_back, pop_worse}
use tcp_eyenet.Vns.Win.Skyline.{before, skyline, pick, best, IsNum}

module _ {ℓ} {W : Type ℓ} ⦃d : Double W⦄ (laws : IsIeee W) where
  pub worse_trans :
      (m : Bool) (x y z : W) → worse m x y ≡ true → worse m y z ≡ true → worse m x z ≡ true
  worse_trans true x y z h k = lt_trans laws z y x k h
  worse_trans false x y z h k = lt_trans laws x y z h k

  -- Between numbers, what is not worse than `y` is not worse than something worse... than `z` either.
  pub not_worse_trans :
      (m : Bool) (x y z : W)
      → IsNum x
      → IsNum y
      → IsNum z
      → worse m x y ≡ false
      → worse m y z ≡ false
      → worse m x z ≡ false
  not_worse_trans true x y z nx ny nz h k = ground (
    arith,
    le_of_not_lt laws y x ny nx,
    le_of_not_lt laws z y nz ny,
    laws.le_trans x y z,
    not_lt_of_le laws z x,
  )
  not_worse_trans false x y z nx ny nz h k = ground (
    arith,
    le_of_not_lt laws x y nx ny,
    le_of_not_lt laws y z ny nz,
    laws.le_trans z y x,
    not_lt_of_le laws x z,
  )

  -- What the loop leaves of a deque begins as the deque did, or is empty.
  keep_back-cases :
      (m : Bool) (v : W) (y : W × W) (s : List (W × W))
      → ((keep_back m v y s ≡ []) × (worse m y.1 v ≡ true))
        ⊎ ((r : List (W × W)) × (keep_back m v y s ≡ y ∷ r))
  unfolding keep_back
  keep_back-cases m v y [] = elim (Bool-cases (worse m y.1 v)) [
    | inl h ↦ inl (rw h, h)
    | inr h ↦ inr ([], rw h)
  ]
  keep_back-cases m v y (z ∷ s) = inr (z ∷ s, refl)

  before-keep_back :
      (m : Bool) (v t : W) (x y : W × W) (s r : List (W × W))
      → pop_worse m v r ≡ s
      → before m x (keep_back m v y s ++ (t, v) ∷ [])
        ≡ pop_worse m v (before m x (y ∷ r)) ++ (t, v) ∷ []
  unfolding pop_worse before
  before-keep_back m v t x y [] r e = elim (Bool-cases (worse m y.1 v)) [
    | inl h ↦ ground (arith, worse_trans m x.1 y.1 v)
    | inr h ↦ ground arith
  ]
  before-keep_back m v t x y (z ∷ s) r e = ground arith

  pop_worse-before :
      (m : Bool) (v t : W) (x : W × W) (s : List (W × W))
      → before m x (pop_worse m v s ++ (t, v) ∷ []) ≡ pop_worse m v (before m x s) ++ (t, v) ∷ []
  unfolding pop_worse before
  pop_worse-before m v t x [] = ground arith
  pop_worse-before m v t x (y ∷ r) = before-keep_back m v t x y (pop_worse m v r) r refl

  -- A new sample: what the loop leaves of the skyline, with the sample behind it, is the new skyline.
  pub skyline-snoc :
      (m : Bool) (v t : W) (xs : List (W × W))
      → skyline m (xs ++ (t, v) ∷ []) ≡ pop_worse m v (skyline m xs) ++ (t, v) ∷ []
  unfolding skyline before pop_worse
  skyline-snoc m v t [] = refl
  skyline-snoc m v t (x ∷ xs) =
      ap (before m x) (skyline-snoc m v t xs) ∙ pop_worse-before m v t x (skyline m xs)

  -- A new sample changes the best value to the better of the two.
  pick_assoc :
      (m : Bool) (a b c : W)
      → IsNum a
      → IsNum b
      → IsNum c
      → pick m a (pick m b c) ≡ pick m (pick m a b) c
  unfolding pick
  pick_assoc m a b c na nb nc =
      ground (arith, worse_trans m a b c, not_worse_trans m a b c na nb nc)

  pub best-IsNum :
      (m : Bool) (i : W) (x : W × W) (xs : List (W × W))
      → All (λ y. IsNum y.1) (x ∷ xs)
      → IsNum (best m i (x ∷ xs))
  unfolding best pick
  best-IsNum m i x [] ns = ns.0
  best-IsNum m i x (y ∷ r) ns = ground (arith, best-IsNum m i y r ns.1)

  pub best-snoc :
      (m : Bool) (t v i : W) (x : W × W) (xs : List (W × W))
      → All (λ y. IsNum y.1) (x ∷ xs)
      → IsNum v
      → best m i ((x ∷ xs) ++ (t, v) ∷ []) ≡ pick m (best m i (x ∷ xs)) v
  unfolding best
  best-snoc m t v i x [] ns nv = refl
  best-snoc m t v i x (y ∷ r) (nx, ns) nv =
      ap (pick m x.1) (best-snoc m t v i y r ns nv)
      ∙ pick_assoc m x.1 (best m i (y ∷ r)) v nx (best-IsNum m i y r ns) nv
