-- ===== src/Prelude/Lists.antt =====
-- Lists measured by native numbers, under the library's names, and predicates on their elements.
use Prim.Native.Nat.{ℕ, zero, suc, ◌+◌}
use mathlib.Core.Path.{◌≡◌, subst, sym}
use mathlib.Core.List.{List, [], ◌∷◌, ◌++◌, Memᴰ}
use native.Mathlib.Omega.{arith}

module _ {ℓ} {A : Type ℓ} where
  abbrev pub length : List A → ℕ
  length [] = 0
  length (x ∷ xs) = suc (length xs)

  abbrev pub drop : ℕ → List A → List A
  drop zero xs = xs
  drop (suc n) [] = []
  drop (suc n) (x ∷ xs) = drop n xs

  abbrev pub All {κ} : (A → Type κ) → List A → Type κ
  All P [] = Unit
  All P (x ∷ xs) = P x × All P xs

  pub length-append : (xs ys : List A) → length (xs ++ ys) ≡ length xs + length ys
  length-append [] ys = omega arith
  length-append (x ∷ xs) ys = omega (arith, length-append xs ys)

  pub All-append {κ} : (P : A → Type κ) (xs ys : List A) → All P xs → All P ys → All P (xs ++ ys)
  All-append P [] ys _ q = q
  All-append P (x ∷ xs) ys (p, ps) q = (p, All-append P xs ys ps q)

  pub All_at {κ} : (P : A → Type κ) (x : A) (l : List A) → All P l → Memᴰ x l → P x
  All_at P x [] h m = elim m [ ]
  All_at P x (y ∷ l) h (Memᴰ.head e) = subst P (sym e) h.0
  All_at P x (y ∷ l) h (Memᴰ.tail m) = All_at P x l h.1 m

  pub All_map {κ μ} :
      (P : A → Type κ) (Q : A → Type μ) (l : List A) → ((x : A) → P x → Q x) → All P l → All Q l
  All_map P Q [] f h = tt
  All_map P Q (x ∷ l) f h = (f x h.0, All_map P Q l f h.1)
