-- ===== src/Vns/Win/Bounds.antt =====
-- What the tail of a `win` says about the samples in its window.
use tcp_eyenet.Prelude.{
  ◌≡◌, Bool, true, false, List, [], ◌∷◌, map, arith, All, Bool-cases, inl, inr,
}
use mathlib.Core.List.{Mem, mem-cons_self, mem-cons_of_mem}
use tcp_eyenet.Double.{Double, IsIeee}
use tcp_eyenet.Double.Laws.{le_of_not_lt}
use tcp_eyenet.Vns.Win.{Win, worse, settled, initial_tail}
use tcp_eyenet.Vns.Win.Skyline.{pick, best, IsNum}
use tcp_eyenet.Vns.Win.Pushing.{best-IsNum}
use tcp_eyenet.Vns.Win.Refinement.{Refines, samples-IsNum}

module _ {ℓ} {W : Type ℓ} ⦃d : Double W⦄ where
  open d use {lt}

  abbrev values : List (W × W) → List W
  values = map (λ x. x.1)

  best-mem :
      (m : Bool) (i : W) (x : W × W) (xs : List (W × W)) → Mem (best m i (x ∷ xs)) (values (x ∷ xs))
  unfolding best pick
  best-mem m i x [] = mem-cons_self
  best-mem m i x (y ∷ r) = elim (Bool-cases (worse m x.1 (best m i (y ∷ r)))) [
    | inl e ↦ rw e (mem-cons_of_mem x.1 (best-mem m i y r))
    | inr e ↦ rw e mem-cons_self
  ]

  -- What holds of every value in a window that is not empty holds of the best one.
  pub best-All {κ} :
      (P : W → Type κ) (m : Bool) (i : W) (x : W × W) (xs : List (W × W))
      → All (λ y. P y.1) (x ∷ xs)
      → P (best m i (x ∷ xs))
  unfolding best pick
  best-All P m i x [] h = h.0
  best-All P m i x (y ∷ r) h = elim (Bool-cases (worse m x.1 (best m i (y ∷ r)))) [
    | inl e ↦ rw e (best-All P m i y r h.1)
    | inr e ↦ rw e h.0
  ]

  -- With samples in the window, the tail is the value of one of them.
  pub tail-mem :
      (w : Win W) (x : W × W) (xs : List (W × W))
      → Refines w (x ∷ xs)
      → Mem w.tail (values (x ∷ xs))
  tail-mem w x xs r = rw r.tail_eq (best-mem w.is_min (initial_tail w.is_min) x xs)

  module _ (laws : IsIeee W) where
    -- A value at least as good as each one of the list.
    settled_trans :
        (m : Bool) (x y z : W) → settled m x y ≡ true → settled m y z ≡ true → settled m x z ≡ true
    settled_trans true x y z h k = laws.le_trans x y z h k
    settled_trans false x y z h k = laws.le_trans z y x k h

    pick-settled :
        (m : Bool) (a b : W)
        → IsNum a
        → IsNum b
        → (settled m (pick m a b) a ≡ true) × (settled m (pick m a b) b ≡ true)
    unfolding pick
    pick-settled true a b na nb = ground (arith, le_of_not_lt laws b a nb na, laws.lt_le b a)
    pick-settled false a b na nb = ground (arith, le_of_not_lt laws a b na nb, laws.lt_le a b)

    best-settled :
        (m : Bool) (i t : W) (x : W × W) (xs : List (W × W))
        → settled m t (best m i (x ∷ xs)) ≡ true
        → All (λ y. IsNum y.1) (x ∷ xs)
        → All (λ y. settled m t y.1 ≡ true) (x ∷ xs)
    unfolding best
    best-settled m i t x [] h n = (h, tt)
    best-settled m i t x (y ∷ r) h n =
        let (a, b) = pick-settled m x.1 (best m i (y ∷ r)) n.0 (best-IsNum laws m i y r n.1) in
        (
          settled_trans m t (pick m x.1 (best m i (y ∷ r))) x.1 h a,
          best-settled m i t y r
              (settled_trans m t (pick m x.1 (best m i (y ∷ r))) (best m i (y ∷ r)) h b) n.1,
        )

    -- The tail of a minimum is at most each value in the window, that of a maximum at least.
    pub tail-bounds :
        (w : Win W) (xs : List (W × W))
        → Refines w xs
        → All (λ x. settled w.is_min w.tail x.1 ≡ true) xs
    tail-bounds w [] r = tt
    tail-bounds w (x ∷ xs) r =
        let m = w.is_min in
        let i = initial_tail m in
        let nums = samples-IsNum laws m (x ∷ xs) r.samples in
        best-settled m i w.tail x xs
          (rw r.tail_eq (num-settled m _ (best-IsNum laws m i x xs nums))) nums
      where
        num-settled : (m : Bool) (v : W) → IsNum v → settled m v v ≡ true
        num-settled true v h = h
        num-settled false v h = h
