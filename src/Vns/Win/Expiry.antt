-- ===== src/Vns/Win/Expiry.antt =====
-- The loop of `win::update_win` at the front of the deque, and the best value of a skyline.
use tcp_eyenet.Prelude.{
  ◌≡◌, refl, ap, ◌∙◌, Bool, true, false, ◌||◌, List, [], ◌∷◌, arith, if◌then◌else◌, Bool-cases, inl,
  inr,
}
use tcp_eyenet.Double.{Double, IsIeee, ◌≼◌}
use tcp_eyenet.Double.Laws.{le_lt_trans}
use tcp_eyenet.Vns.Win.{worse, settled, evict, front_or}
use tcp_eyenet.Vns.Win.Skyline.{before, skyline, expire, pick, best, IsNum, NotBefore, InOrder}

module _ {ℓ} {W : Type ℓ} ⦃d : Double W⦄ where
  open d use {lt}

  -- The deque that the loop leaves does not depend on the flag.
  pub evict-expire :
      (m : Bool) (tail cut : W) (again : Bool) (xs : List (W × W))
      → (evict m tail cut again xs).1 ≡ expire cut xs
  unfolding evict expire
  evict-expire m tail cut again [] = refl
  evict-expire m tail cut again (x ∷ []) = refl
  evict-expire m tail cut again (x ∷ y ∷ r) =
      ground (arith, evict-expire m tail cut (again || settled m x.1 tail) (y ∷ r))

  evict_again : (m : Bool) (tail cut : W) (xs : List (W × W)) → (evict m tail cut true xs).0 ≡ true
  unfolding evict
  evict_again m tail cut [] = refl
  evict_again m tail cut (x ∷ []) = refl
  evict_again m tail cut (x ∷ y ∷ r) = ground (arith, evict_again m tail cut (y ∷ r))

  -- With the front's value in the tail, the loop takes the tail anew just when the front changes.
  pub evict-tail :
      (m : Bool) (cut i : W) (x : W × W) (xs : List (W × W))
      → IsNum x.1
      → let (again, left) = evict m x.1 cut false (x ∷ xs) in
        (if again then front_or i left else x.1) ≡ front_or i (expire cut (x ∷ xs))
  unfolding evict expire
  evict-tail m cut i x [] n = refl
  evict-tail true cut i x (y ∷ r) n =
      ground (arith, evict_again true x.1 cut (y ∷ r), evict-expire true x.1 cut true (y ∷ r))
  evict-tail false cut i x (y ∷ r) n =
      ground (arith, evict_again false x.1 cut (y ∷ r), evict-expire false x.1 cut true (y ∷ r))

  before-NotBefore :
      (m : Bool) (t : W) (x : W × W) (s : List (W × W))
      → t ≼ x.0
      → NotBefore t s
      → NotBefore t (before m x s)
  unfolding before
  before-NotBefore m t x [] h k = (h, tt)
  before-NotBefore m t x (y ∷ r) h k = ground arith

  skyline-NotBefore :
      (m : Bool) (t : W) (xs : List (W × W)) → NotBefore t xs → NotBefore t (skyline m xs)
  unfolding skyline
  skyline-NotBefore m t [] h = tt
  skyline-NotBefore m t (x ∷ xs) h =
      before-NotBefore m t x (skyline m xs) h.0 (skyline-NotBefore m t xs h.1)

  before-cons :
      (m : Bool) (x : W × W) (s : List (W × W))
      → (z : W × W) × (r : List (W × W)) × (before m x s ≡ z ∷ r)
  unfolding before
  before-cons m x [] = (x, [], refl)
  before-cons m x (y ∷ s) = elim (Bool-cases (worse m x.1 y.1)) [
    | inl h ↦ (y, s, rw h)
    | inr h ↦ (x, y ∷ s, rw h)
  ]

  front-before :
      (m : Bool) (i : W) (x y : W × W) (s : List (W × W))
      → front_or i (before m x (before m y s)) ≡ pick m x.1 (front_or i (before m y s))
  unfolding before pick
  front-before m i x y [] = ground arith
  front-before m i x y (z ∷ s) = ground arith

  -- The front of a skyline has the best value.
  pub front-skyline :
      (m : Bool) (i : W) (xs : List (W × W)) → front_or i (skyline m xs) ≡ best m i xs
  unfolding skyline before best pick
  front-skyline m i [] = refl
  front-skyline m i (x ∷ []) = refl
  front-skyline m i (x ∷ y ∷ r) =
      front-before m i x y (skyline m r) ∙ ap (pick m x.1) (front-skyline m i (y ∷ r))

  module _ (laws : IsIeee W) where
    expire_fresh :
        (cut : W) (x : W × W) (xs : List (W × W))
        → lt x.0 cut ≡ false
        → expire cut (x ∷ xs) ≡ x ∷ xs
    unfolding expire
    expire_fresh cut x [] h = refl
    expire_fresh cut x (y ∷ r) h = rw h

    expire_step :
        (cut : W) (x y : W × W) (r : List (W × W))
        → expire cut (x ∷ y ∷ r) ≡ (if lt x.0 cut then expire cut (y ∷ r) else x ∷ y ∷ r)
    unfolding expire
    expire_step cut x y r = refl

    expire-before :
        (m : Bool) (cut : W) (x y : W × W) (r : List (W × W))
        → x.0 ≼ y.0
        → expire cut (before m x (y ∷ r))
          ≡ (if lt x.0 cut then expire cut (y ∷ r) else before m x (y ∷ r))
    unfolding before
    expire-before m cut x y r h = elim (Bool-cases (worse m x.1 y.1)) [
      | inl e ↦ rw e (ground (arith, le_lt_trans laws x.0 y.0 cut h, expire_fresh cut y r))
      | inr e ↦ rw e (expire_step cut x y r)
    ]

    expire-before-before :
        (m : Bool) (cut : W) (x y : W × W) (s : List (W × W))
        → NotBefore x.0 (before m y s)
        → expire cut (before m x (before m y s))
          ≡ (if lt x.0 cut then expire cut (before m y s) else before m x (before m y s))
    expire-before-before m cut x y s h =
        let (z, r, e) = before-cons m y s in
        let late : NotBefore x.0 (z ∷ r) = rw e at h in rw e (expire-before m cut x z r late.0)

    -- Dropping old samples and dropping beaten ones commute, when the times are in order.
    pub skyline-expire :
        (m : Bool) (cut : W) (xs : List (W × W))
        → InOrder xs
        → skyline m (expire cut xs) ≡ expire cut (skyline m xs)
    unfolding skyline
    skyline-expire m cut [] h = unfold expire in refl
    skyline-expire m cut (x ∷ []) h = unfold expire before in refl
    skyline-expire m cut (x ∷ y ∷ r) h =
        let late = skyline-NotBefore m x.0 (y ∷ r) h.0 in
        rw (expire-before-before m cut x y (skyline m r) late, expire_step cut x y r)
          (elim (Bool-cases (lt x.0 cut)) [
            | inl e ↦ rw e (skyline-expire m cut (y ∷ r) h.1)
            | inr e ↦ rw e
          ])
