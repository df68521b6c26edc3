-- ===== src/Vns/Win/Runs.antt =====
-- Runs of `win` of vns/vns_utils.cc: samples that are added one after the other.
use tcp_eyenet.Prelude.{
  ◌≡◌, refl, sym, ap, ◌∙◌, subst, Bool, true, false, List, [], ◌∷◌, ◌++◌, All, All_at, append_assoc,
  Bool-cases, inl, inr,
}
use mathlib.Core.List.{Memᴰ}
use tcp_eyenet.Double.{Double, IsIeee, ◌≼◌}
use tcp_eyenet.Vns.Win.{Win, win, add, update_win, settled}
use tcp_eyenet.Vns.Win.Skyline.{expire, InOrder}
use tcp_eyenet.Vns.Win.Refinement.{Refines, IsSample, slide, win-Refines, add-Refines}
use tcp_eyenet.Vns.Win.Bounds.{tail-bounds}

module _ {ℓ} {A : Type ℓ} where
  Memᴰ-append-head : (x : A) (xs ys : List A) → Memᴰ x (xs ++ x ∷ ys)
  Memᴰ-append-head x [] ys = Memᴰ.head refl
  Memᴰ-append-head x (y ∷ xs) ys = Memᴰ.tail (Memᴰ-append-head x xs ys)

  Memᴰ-append : (x : A) (xs ys : List A) → Memᴰ x xs → Memᴰ x (xs ++ ys)
  Memᴰ-append x [] ys k = elim k [ ]
  Memᴰ-append x (y ∷ xs) ys (Memᴰ.head e) = Memᴰ.head e
  Memᴰ-append x (y ∷ xs) ys (Memᴰ.tail k) = Memᴰ.tail (Memᴰ-append x xs ys k)

module _ {ℓ} {W : Type ℓ} ⦃d : Double W⦄ where
  open d use {dec, minus, lt}

  -- The samples, each a time and a value, are added in their order.
  abbrev pub add_all : Win W → List (W × W) → Win W
  add_all w [] = w
  add_all w (y ∷ ys) = add_all (add w y.1 y.0) ys

  -- At none of the times is the sample older than `sz`.
  abbrev pub Lasts : W → W × W → List (W × W) → Type 0
  Lasts sz x = All (λ y. lt x.0 (minus y.0 sz) ≡ false)

  expire-keeps :
      (cut : W) (x : W × W) (xs : List (W × W))
      → lt x.0 cut ≡ false
      → Memᴰ x xs
      → Memᴰ x (expire cut xs)
  unfolding expire
  expire-keeps cut x [] fresh k = elim k [ ]
  expire-keeps cut x (y ∷ []) fresh k = k
  expire-keeps cut x (y ∷ z ∷ r) fresh k = elim (Bool-cases (lt y.0 cut)) [
    | inr young ↦ rw young k
    | inl old ↦ rw old (expire-keeps cut x (z ∷ r) fresh (behind old k))
  ]
    where
      behind : lt y.0 cut ≡ true → Memᴰ x (y ∷ z ∷ r) → Memᴰ x (z ∷ r)
      behind old (Memᴰ.head e) =
          let never : true ≡ false = sym old ∙ ap (λ u. lt u.0 cut) (sym e) ∙ fresh in cc
      behind old (Memᴰ.tail k) = k

  expire-InOrder-append :
      (cut : W) (xs rest : List (W × W)) → InOrder (xs ++ rest) → InOrder (expire cut xs ++ rest)
  unfolding expire
  expire-InOrder-append cut [] rest o = o
  expire-InOrder-append cut (x ∷ []) rest o = o
  expire-InOrder-append cut (x ∷ y ∷ r) rest o = elim (Bool-cases (lt x.0 cut)) [
    | inl old ↦ rw old (expire-InOrder-append cut (y ∷ r) rest o.1)
    | inr young ↦ rw young o
  ]

  -- The samples before one of a list in order are no younger.
  before-late :
      (xs : List (W × W)) (y : W × W) (rest : List (W × W))
      → InOrder (xs ++ y ∷ rest)
      → All (λ x. x.0 ≼ y.0) xs
  before-late [] y rest o = tt
  before-late (x ∷ xs) y rest o = (
    All_at (λ z. x.0 ≼ z.0) y (xs ++ y ∷ rest) o.0 (Memᴰ-append-head y xs rest),
    before-late xs y rest o.1,
  )

  add-same : (w : Win W) (v ts : W) → ((add w v ts).is_min ≡ w.is_min) × ((add w v ts).sz ≡ w.sz)
  unfolding add update_win
  add-same w v ts = (refl, refl)

  module _ (laws : IsIeee W) where
    -- A sample more, with those that follow it
    step-Refines :
        (w : Win W) (xs : List (W × W)) (y : W × W) (rest : List (W × W))
        → Refines w xs
        → IsSample w.is_min y.1
        → InOrder (xs ++ y ∷ rest)
        → Refines (add w y.1 y.0) (slide w.sz y.1 y.0 xs) × InOrder (slide w.sz y.1 y.0 xs ++ rest)
    unfolding slide
    step-Refines w xs y rest r k o = (
      add-Refines laws w y.1 y.0 r k (before-late xs y rest o),
      expire-InOrder-append (minus y.0 w.sz) (xs ++ y ∷ []) rest
          (subst InOrder (sym (append_assoc xs (y ∷ []) rest)) o),
    )

    -- The tail stays at least as good as a sample of the window, while it is not too old.
    adds-bound :
        (m : Bool) (sz : W) (rest : List (W × W)) (w : Win W) (xs : List (W × W)) (x : W × W)
        → w.is_min ≡ m
        → w.sz ≡ sz
        → Refines w xs
        → All (λ y. IsSample m y.1) rest
        → InOrder (xs ++ rest)
        → Memᴰ x xs
        → Lasts sz x rest
        → settled m (add_all w rest).tail x.1 ≡ true
    unfolding slide
    adds-bound m sz [] w xs x e f r k o mem fresh =
        subst (λ b. settled b w.tail x.1 ≡ true) e
          (All_at (λ y. settled w.is_min w.tail y.1 ≡ true) x xs (tail-bounds laws w xs r) mem)
    adds-bound m sz (y ∷ rest) w xs x e f r k o mem fresh =
        let (r', o') = step-Refines w xs y rest r (subst (λ b. IsSample b y.1) (sym e) k.0) o in
        adds-bound m sz rest (add w y.1 y.0) (slide w.sz y.1 y.0 xs) x ((add-same w y.1 y.0).0 ∙ e)
          ((add-same w y.1 y.0).1 ∙ f) r' k.1 o'
          (expire-keeps (minus y.0 w.sz) x (xs ++ y ∷ [])
            (subst (λ z. lt x.0 (minus y.0 z) ≡ false) (sym f) fresh.0)
            (Memᴰ-append x xs (y ∷ []) mem))
          fresh.1

    run-bound :
        (m : Bool) (sz : W) (earlier : List (W × W)) (x : W × W) (rest : List (W × W)) (w : Win W)
        (xs : List (W × W))
        → w.is_min ≡ m
        → w.sz ≡ sz
        → Refines w xs
        → All (λ y. IsSample m y.1) (earlier ++ x ∷ rest)
        → InOrder (xs ++ (earlier ++ x ∷ rest))
        → Lasts sz x (x ∷ rest)
        → settled m (add_all w (earlier ++ x ∷ rest)).tail x.1 ≡ true
    unfolding slide
    run-bound m sz [] x rest w xs e f r k o fresh =
        let (r', o') = step-Refines w xs x rest r (subst (λ b. IsSample b x.1) (sym e) k.0) o in
        adds-bound m sz rest (add w x.1 x.0) (slide w.sz x.1 x.0 xs) x ((add-same w x.1 x.0).0 ∙ e)
          ((add-same w x.1 x.0).1 ∙ f) r' k.1 o'
          (expire-keeps (minus x.0 w.sz) x (xs ++ x ∷ [])
            (subst (λ z. lt x.0 (minus x.0 z) ≡ false) (sym f) fresh.0) (Memᴰ-append-head x xs []))
          fresh.1
    run-bound m sz (y ∷ earlier) x rest w xs e f r k o fresh =
        let (r', o') =
          step-Refines w xs y (earlier ++ x ∷ rest) r (subst (λ b. IsSample b y.1) (sym e) k.0) o in
        run-bound m sz earlier x rest (add w y.1 y.0) (slide w.sz y.1 y.0 xs)
          ((add-same w y.1 y.0).0 ∙ e) ((add-same w y.1 y.0).1 ∙ f) r' k.1 o' fresh

    -- After any samples that are in range and come in order, from the constructor on, the tail of a
    -- minimum is at most each one, and that of a maximum at least each one, that was at no later
    -- sample's time, and not at its own, older than the window of 10000 ms.
    pub win-bounds :
        (m : Bool) (earlier : List (W × W)) (x : W × W) (rest : List (W × W))
        → All (λ y. IsSample m y.1) (earlier ++ x ∷ rest)
        → InOrder (earlier ++ x ∷ rest)
        → Lasts (dec 10000 0) x (x ∷ rest)
        → settled m (add_all (win m) (earlier ++ x ∷ rest)).tail x.1 ≡ true
    unfolding win
    win-bounds m earlier x rest k o fresh =
        run-bound m (dec 10000 0) earlier x rest (win m) [] refl refl (win-Refines m) k o fresh
