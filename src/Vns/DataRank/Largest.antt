-- ===== src/Vns/DataRank/Largest.antt =====
-- The inner loop of `data_rank::get_rank` of vns/vns_utils.cc: what it leaves of the largest entries.
use tcp_eyenet.Prelude.{
  ℕ, suc, ◌+◌, ◌≤◌, ◌≡◌, refl, ap, ◌∙◌, sym, subst, Bool, true, false, leb, inl, inr, Bool-cases,
  if◌then◌else◌, List, [], ◌∷◌, All, length, arith,
}
use tcp_eyenet.Double.{Double, IsIeee, ◌≼◌}
use tcp_eyenet.Double.Laws.{le_of_not_lt}
use tcp_eyenet.Vns.DataRank.{insert_largest}

abbrev pub bit : Bool → ℕ
bit b = if b then 1 else 0

abbrev pub least : ℕ → ℕ → ℕ
least m n = if leb m n then m else n

module _ {ℓ} {W : Type ℓ} ⦃d : Double W⦄ where
  open d use {le, lt}

  -- How many entries are not below `x`
  abbrev pub above : W → List W → ℕ
  above x [] = 0
  above x (y ∷ ys) = bit (le x y) + above x ys

  -- Numbers, not NaN
  abbrev pub Nums : List W → Type 0
  Nums ls = All (λ y. y ≼ y) ls

  abbrev pub From : W → List W → Type 0
  From x ls = All (λ y. x ≼ y) ls

  pub above_le : (x : W) (ls : List W) → above x ls ≤ length ls
  above_le x [] = omega arith
  above_le x (y ∷ ys) =
      let one : bit (le x y) ≤ 1 = ground arith in omega (arith, one, above_le x ys)

  pub above_all : (x : W) (ls : List W) → From x ls → above x ls ≡ length ls
  above_all x [] h = refl
  above_all x (y ∷ ys) (h, hs) = rw h (omega (arith, above_all x ys hs))

  module _ (laws : IsIeee W) where
    open laws use {lt_le, le_trans}

    pub From-le : (x y : W) (ls : List W) → x ≼ y → From y ls → From x ls
    From-le x y [] h k = tt
    From-le x y (z ∷ zs) h (k, ks) = (le_trans x y z h k, From-le x y zs h ks)

    -- An entry that is not above the last one changes nothing.
    insert_none : (last tmp : W) (ls : List W) → tmp ≼ last → insert_largest last tmp ls ≡ ls
    unfolding insert_largest
    insert_none last tmp [] h = refl
    insert_none last tmp (l ∷ ls) h = rw h (ap (λ xs. l ∷ xs) (insert_none last tmp ls h))

    swap_counts :
        (a b : Bool) (m n : ℕ)
        → m ≤ n
        → (a ≡ false → b ≡ false)
        → bit a + least n (m + bit b) ≡ least (suc n) ((bit b + m) + bit a)
    swap_counts a b m n h f = ground arith

    stay_counts :
        (a b : Bool) (m n : ℕ)
        → m ≤ n
        → (b ≡ false → a ≡ false)
        → bit b + least n (m + bit a) ≡ least (suc n) ((bit b + m) + bit a)
    stay_counts a b m n h f = ground arith

    full_counts : (b : Bool) (m n : ℕ) → m ≤ n → (b ≡ true → m ≡ n) → m ≡ least n (m + bit b)
    full_counts b m n h f = ground arith

    not_above : (x y z : W) → y ≼ z → le x z ≡ false → le x y ≡ false
    not_above x y z h k = ground (arith, le_trans x y z)

    -- The new entry is counted, and of all that is counted the loop keeps as many as there is room for.
    pub insert-above :
        (x last tmp : W) (ls : List W)
        → tmp ≼ tmp
        → Nums ls
        → From last ls
        → above x (insert_largest last tmp ls) ≡ least (length ls) (above x ls + bit (le x tmp))
    unfolding insert_largest
    insert-above x last tmp [] nt ns fs = ground arith
    insert-above x last tmp (l ∷ ls) nt (nl, ns) (fl, fs) = elim (Bool-cases (le tmp last)) [
      | inl e ↦
          ap (above x) (insert_none last tmp (l ∷ ls) e)
          ∙ full_counts (le x tmp) (above x (l ∷ ls)) (length (l ∷ ls)) (above_le x (l ∷ ls)) (λ g.
            above_all x (l ∷ ls) (From-le x last (l ∷ ls) (le_trans x tmp last g e) (fl, fs)))
      | inr e ↦ elim (Bool-cases (lt l tmp)) [
        | inl f ↦
            rw (e, f)
              (ap (λ n. bit (le x tmp) + n) (insert-above x last l ls nl ns fs)
                ∙ swap_counts (le x tmp) (le x l) (above x ls) (length ls) (above_le x ls)
                    (not_above x l tmp (lt_le l tmp f)))
        | inr f ↦
            rw (e, f)
              (ap (λ n. bit (le x l) + n) (insert-above x last tmp ls nt ns fs)
                ∙ stay_counts (le x tmp) (le x l) (above x ls) (length ls) (above_le x ls)
                    (not_above x tmp l (le_of_not_lt laws l tmp nl nt f)))
      ]
    ]

    -- No entry is above `m`, and each is not below those after it.
    abbrev pub UpTo : W → List W → Type 0
    UpTo m ls = All (λ y. y ≼ m) ls

    abbrev pub Falling : List W → Type 0
    Falling [] = Unit
    Falling (l ∷ ls) = UpTo l ls × Falling ls

    UpTo-le : (m n : W) (ls : List W) → m ≼ n → UpTo m ls → UpTo n ls
    UpTo-le m n [] h k = tt
    UpTo-le m n (z ∷ zs) h (k, ks) = (le_trans z m n k h, UpTo-le m n zs h ks)

    insert-UpTo :
        (m last tmp : W) (ls : List W) → tmp ≼ m → UpTo m ls → UpTo m (insert_largest last tmp ls)
    unfolding insert_largest
    insert-UpTo m last tmp [] h k = tt
    insert-UpTo m last tmp (l ∷ ls) h (k, ks) = elim (Bool-cases (le tmp last)) [
      | inl e ↦ rw e (k, insert-UpTo m last tmp ls h ks)
      | inr e ↦ elim (Bool-cases (lt l tmp)) [
        | inl f ↦ rw (e, f) (h, insert-UpTo m last l ls k ks)
        | inr f ↦ rw (e, f) (k, insert-UpTo m last tmp ls h ks)
      ]
    ]

    pub insert-Falling :
        (last tmp : W) (ls : List W)
        → tmp ≼ tmp
        → Nums ls
        → Falling ls
        → Falling (insert_largest last tmp ls)
    unfolding insert_largest
    insert-Falling last tmp [] nt ns h = tt
    insert-Falling last tmp (l ∷ ls) nt (nl, ns) (k, h) = elim (Bool-cases (le tmp last)) [
      | inl e ↦ subst Falling (sym (insert_none last tmp (l ∷ ls) e)) (k, h)
      | inr e ↦ elim (Bool-cases (lt l tmp)) [
        | inl f ↦
            rw (e, f)
              (
                insert-UpTo tmp last l ls (lt_le l tmp f) (UpTo-le l tmp ls (lt_le l tmp f) k),
                insert-Falling last l ls nl ns h,
              )
        | inr f ↦
            rw (e, f)
              (
                insert-UpTo l last tmp ls (le_of_not_lt laws l tmp nl nt f) k,
                insert-Falling last tmp ls nt ns h,
              )
      ]
    ]
