-- ===== src/Vns/RttWin/Suffix.antt =====
-- Two windows over the same samples, of which the one keeps an end of what the other keeps.
use tcp_eyenet.Prelude.{◌≡◌, refl, ap, List, [], ◌∷◌, ◌++◌, Bool-cases, inl, inr}
use mathlib.Core.List.{append_assoc}
use tcp_eyenet.Double.{Double, ◌≺◌}
use tcp_eyenet.Vns.Win.Skyline.{expire}
use tcp_eyenet.Vns.Win.Refinement.{slide}

abbrev pub IsSuffix {ℓ} : {A : Type ℓ} → List A → List A → Type ℓ
IsSuffix {A = A} ys xs = (zs : List A) × (xs ≡ zs ++ ys)

module _ {ℓ} {W : Type ℓ} ⦃d : Double W⦄ where
  open d use {dec, minus, times, lt, double_max}

  suffix_cons : (z : W × W) {xs ys : List (W × W)} → IsSuffix ys xs → IsSuffix ys (z ∷ xs)
  suffix_cons z (zs, e) = (z ∷ zs, ap (◌∷◌ z) e)

  suffix_append :
      (zs : List (W × W)) {xs ys : List (W × W)} → IsSuffix ys xs → IsSuffix ys (zs ++ xs)
  suffix_append [] h = h
  suffix_append (z ∷ zs) h = suffix_cons z (suffix_append zs h)

  expire_suffix : (cut : W) (xs : List (W × W)) → IsSuffix (expire cut xs) xs
  unfolding expire
  expire_suffix cut [] = ([], refl)
  expire_suffix cut (x ∷ []) = ([], refl)
  expire_suffix cut (x ∷ y ∷ r) = elim (Bool-cases (lt x.0 cut)) [
    | inl e ↦ rw e (suffix_cons x (expire_suffix cut (y ∷ r)))
    | inr e ↦ rw e ([], refl)
  ]

  -- A window whose cut is later keeps an end of the other one, when it held an end of it before.
  expire_both :
      (c k : W) (xs : List (W × W))
      → ((y : W) → y ≺ c → y ≺ k)
      → IsSuffix (expire k xs) (expire c xs)
  unfolding expire
  expire_both c k [] h = ([], refl)
  expire_both c k (x ∷ []) h = ([], refl)
  expire_both c k (x ∷ y ∷ r) h = elim (Bool-cases (lt x.0 c)) [
    | inl e ↦ rw (e, h x.0 e) (expire_both c k (y ∷ r) h)
    | inr e ↦ rw e (expire_suffix k (x ∷ y ∷ r))
  ]

  expire-cons_suffix :
      (c : W) (z : W × W) (l : List (W × W)) {ys : List (W × W)}
      → IsSuffix ys (expire c l)
      → IsSuffix ys l
      → IsSuffix ys (expire c (z ∷ l))
  unfolding expire
  expire-cons_suffix c z [] old all = suffix_cons z all
  expire-cons_suffix c z (u ∷ r) old all = elim (Bool-cases (lt z.0 c)) [
    | inl e ↦ rw e old
    | inr e ↦ rw e (suffix_cons z all)
  ]

  -- A window whose cut is later keeps an end of the other one, when it held an end of it before.
  expire-append_suffix :
      (c k : W) (zs ys : List (W × W))
      → ((y : W) → y ≺ c → y ≺ k)
      → IsSuffix (expire k ys) (expire c (zs ++ ys))
  expire-append_suffix c k [] ys h = expire_both c k ys h
  expire-append_suffix c k (z ∷ zs) ys h =
      expire-cons_suffix c z (zs ++ ys) (expire-append_suffix c k zs ys h)
        (suffix_append zs (expire_suffix k ys))

  pub slide_suffix :
      (s t v ts : W) (xs ys : List (W × W))
      → ((y : W) → y ≺ minus ts s → y ≺ minus ts t)
      → IsSuffix ys xs
      → IsSuffix (slide t v ts ys) (slide s v ts xs)
  unfolding slide
  slide_suffix s t v ts xs ys h (zs, e) =
      rw (e, append_assoc zs ys ((ts, v) ∷ []))
        (expire-append_suffix (minus ts s) (minus ts t) zs (ys ++ (ts, v) ∷ []) h)
