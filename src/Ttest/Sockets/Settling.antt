-- ===== src/Ttest/Sockets/Settling.antt =====
-- What `open_data_sockets` of ttest/ttest.c leaves: all sockets, or none.
use tcp_eyenet.Prelude.{
  ℕ, zero, suc, ◌+◌, ◌≡◌, ◌⊎◌, inl, inr, Bool, true, false, All, Bool-cases, ◌==◌, List, [], ◌∷◌,
  ◌++◌, map, length, drop, arith, refl, ap, sym, subst, ◌∙◌,
}
use tcp_eyenet.Prelude.Int.{ℤ, pos, negsuc, ◌≤ℤ◌, ltb_ℤ, eqb_ℤ}
use tcp_eyenet.Ttest.Sockets.{
  Attempt, Table, get_at, set_at, close_in, fail_from, is_refused, open_from, open_data_sockets,
}

abbrev pub rev_onto : List ℤ → List ℤ → List ℤ
rev_onto [] ys = ys
rev_onto (x ∷ xs) ys = rev_onto xs (x ∷ ys)

-- A number of -1 before a list
abbrev pub fill : ℕ → List ℤ → List ℤ
fill zero ys = ys
fill (suc n) ys = fill n (negsuc 0 ∷ ys)

set_at-rev_onto :
    (done ys : List ℤ) (k n : ℕ) (v : ℤ)
    → n ≡ length done + k
    → set_at n v (rev_onto done ys) ≡ rev_onto done (set_at k v ys)
set_at-rev_onto [] ys k n v e = ap (λ i. set_at i v ys) (e ∙ omega arith)
set_at-rev_onto (x ∷ xs) ys k n v e = set_at-rev_onto xs (x ∷ ys) (suc k) n v (omega (arith, e))

get_at-rev_onto :
    (done ys : List ℤ) (k n : ℕ) → n ≡ length done + k → get_at n (rev_onto done ys) ≡ get_at k ys
get_at-rev_onto [] ys k n e = ap (λ i. get_at i ys) (e ∙ omega arith)
get_at-rev_onto (x ∷ xs) ys k n e = get_at-rev_onto xs (x ∷ ys) (suc k) n (omega (arith, e))

eqb_ℤ-same : (a : ℤ) → eqb_ℤ a a ≡ true
eqb_ℤ-same a = ground arith

close_in_head : (fd : ℤ) (xs : List ℤ) → close_in fd (fd ∷ xs) ≡ xs
close_in_head fd xs = rw (eqb_ℤ-same fd) refl

-- The table after the sockets of `done`, the last one first
abbrev table : List ℤ → List ℤ → List ℤ → Table
table done ys base = record { datafd_arr = rev_onto done ys; open_fds = done ++ base }

-- What a round of `failed:` makes of the table
last_closed :
    (x : ℤ) (xs ys base : List ℤ)
    → record {
      datafd_arr = set_at (length xs) (negsuc 0) (rev_onto xs (x ∷ ys));
      open_fds = close_in (get_at (length xs) (rev_onto xs (x ∷ ys))) (x ∷ xs ++ base);
    }
      ≡ table xs (negsuc 0 ∷ ys) base
last_closed x xs ys base =
    let arr = set_at-rev_onto xs (x ∷ ys) 0 (length xs) (negsuc 0) (omega arith) in
    let fds =
      ap (λ v. close_in v (x ∷ xs ++ base))
        (get_at-rev_onto xs (x ∷ ys) 0 (length xs) (omega arith))
      ∙ close_in_head x (xs ++ base) in
    λ i. record { datafd_arr = arr i; open_fds = fds i }

fail_from-closes :
    (done ys base : List ℤ)
    → fail_from (length done) (table done ys base)
      ≡ (record { datafd_arr = fill (length done) ys; open_fds = base }, negsuc 0)
unfolding fail_from
fail_from-closes [] ys base = refl
fail_from-closes (x ∷ xs) ys base =
    ap (fail_from (length xs)) (last_closed x xs ys base) ∙ fail_from-closes xs (negsuc 0 ∷ ys) base

same_fill : (m n : ℕ) (ys : List ℤ) → m ≡ n → fill m ys ≡ fill n ys
same_fill m n ys e = ap (λ k. fill k ys) e

same_pos : (m n : ℕ) → m ≡ n → pos m ≡ pos n
same_pos m n e = ap pos e

-- `socket` gave a descriptor, and `bind` took the address, if there is one.
abbrev pub IsOpened : Attempt → Type 0
IsOpened a = (pos 0 ≤ℤ a.fd) × ((a.s_addr ≡ 0) ⊎ (pos 0 ≤ℤ a.bound))

-- The attempt of the number `k` is the first that does not succeed.
abbrev pub FailsAt : ℕ → List Attempt → Type 0
FailsAt k [] = ⊥
FailsAt zero (a ∷ attempts) = IsOpened a → ⊥
FailsAt (suc k) (a ∷ attempts) = IsOpened a × FailsAt k attempts

-- Either all attempts succeed, all sockets are open, in the array in their order, and their number is
-- the result; or there is a first one that does not, the result is -1, what is open is what was before,
-- and the places of those before it, which were written, have -1.
abbrev pub Settled : List Attempt → List ℤ → List ℤ → List ℤ → Table × ℤ → Type 0
Settled attempts done ys base (t, rc) =
    (All IsOpened attempts
      × (rc ≡ pos (length done + length attempts))
      × (t.datafd_arr ≡ rev_onto done (map (λ (a : Attempt). a.fd) attempts))
      × (t.open_fds ≡ rev_onto (map (λ (a : Attempt). a.fd) attempts) (done ++ base)))
    ⊎ ((k : ℕ) × FailsAt k attempts
        × (rc ≡ negsuc 0)
        × (t.open_fds ≡ base)
        × (t.datafd_arr ≡ fill (length done + k) (drop k ys)))

tests-IsOpened : (a : Attempt) → ltb_ℤ a.fd (pos 0) ≡ false → is_refused a ≡ false → IsOpened a
tests-IsOpened a e f = (ground arith, bound_of_test (a.s_addr == 0) refl)
  where
    bound_of_test : (b : Bool) → (a.s_addr == 0) ≡ b → (a.s_addr ≡ 0) ⊎ (pos 0 ≤ℤ a.bound)
    bound_of_test true g = inl (ground arith)
    bound_of_test false g = inr (ground arith)

not-IsOpened_fd : (a : Attempt) → ltb_ℤ a.fd (pos 0) ≡ true → IsOpened a → ⊥
not-IsOpened_fd a e (h, k) = ground arith

not-IsOpened_bound : (a : Attempt) → is_refused a ≡ true → IsOpened a → ⊥
not-IsOpened_bound a e (h, inl k) = ground arith
not-IsOpened_bound a e (h, inr k) = ground arith

fail_from-Settled :
    (attempts : List Attempt) (done ys base : List ℤ)
    → FailsAt 0 attempts
    → Settled attempts done ys base (fail_from (length done) (table done ys base))
fail_from-Settled attempts done ys base h =
    rw (fail_from-closes done ys base)
      (inr (0, h, refl, refl, same_fill (length done) (length done + 0) ys (omega arith)))

-- A socket more stands before the ones that are left.
Settled-later :
    (a : Attempt) (attempts : List Attempt) (done ys base : List ℤ) (y : ℤ) (r : Table × ℤ)
    → IsOpened a
    → Settled attempts (a.fd ∷ done) ys base r
    → Settled (a ∷ attempts) done (y ∷ ys) base r
Settled-later a attempts done ys base y r o (inl (all, e, f, g)) = inl (
  (o, all),
  e
      ∙ same_pos (suc (length done) + length attempts) (length done + suc (length attempts))
          (omega arith),
  f,
  g,
)
Settled-later a attempts done ys base y r o (inr (k, first, e, f, g)) = inr (
  suc k,
  (o, first),
  e,
  f,
  g ∙ same_fill (suc (length done) + k) (length done + suc k) (drop k ys) (omega arith),
)

given_up :
    (fd : ℤ) (done ys base : List ℤ)
    → fail_from
        (length done)
        (record { datafd_arr = rev_onto done ys; open_fds = close_in fd (fd ∷ done ++ base) })
      ≡ fail_from (length done) (table done ys base)
given_up fd done ys base =
    ap (λ l. fail_from (length done) (record { datafd_arr = rev_onto done ys; open_fds = l }))
      (close_in_head fd (done ++ base))

taken :
    (a : Attempt) (attempts : List Attempt) (done ys base : List ℤ) (y : ℤ)
    → open_from (length done + 1) attempts (record {
      datafd_arr = set_at (length done) a.fd (rev_onto done (y ∷ ys));
      open_fds = a.fd ∷ done ++ base;
    })
      ≡ open_from (suc (length done)) attempts (table (a.fd ∷ done) ys base)
taken a attempts done ys base y =
    let index : length done + 1 ≡ suc (length done) = omega arith in
    let arr = set_at-rev_onto done (y ∷ ys) 0 (length done) a.fd (omega arith) in
    λ i.
      open_from (index i) attempts (record { datafd_arr = arr i; open_fds = a.fd ∷ done ++ base })

unequal : {n : ℕ} → suc n ≡ 0 → ⊥
unequal {n} e = omega (arith, e)

open_from-Settled :
    (attempts : List Attempt) (done ys base : List ℤ)
    → length ys ≡ length attempts
    → Settled attempts done ys base (open_from (length done) attempts (table done ys base))
unfolding open_from
open_from-Settled [] done [] base e =
    inl (tt, same_pos (length done) (length done + 0) (omega arith), refl, refl)
open_from-Settled [] done (y ∷ ys) base e = elim (unequal e) [ ]
open_from-Settled (a ∷ attempts) done [] base e = elim (unequal (sym e)) [ ]
open_from-Settled (a ∷ attempts) done (y ∷ ys) base e =
    let P = Settled (a ∷ attempts) done (y ∷ ys) base in
    let failed = fail_from-Settled (a ∷ attempts) done (y ∷ ys) base in
    elim (Bool-cases (ltb_ℤ a.fd (pos 0))) [
      | inl none_ ↦ rw none_ (failed (not-IsOpened_fd a none_))
      | inr some_ ↦ elim (Bool-cases (is_refused a)) [
        | inl turned_down ↦
            rw (some_, turned_down)
              (subst P (sym (given_up a.fd done (y ∷ ys) base))
                (failed (not-IsOpened_bound a turned_down)))
        | inr taken_on ↦
            rw (some_, taken_on)
              (subst P (sym (taken a attempts done ys base y)) (
                Settled-later a attempts done ys base y
                  (open_from (suc (length done)) attempts (table (a.fd ∷ done) ys base))
                  (tests-IsOpened a some_ taken_on)
                  (open_from-Settled attempts (a.fd ∷ done) ys base (omega (arith, e)))))
      ]
    ]

-- For an array with one place for each socket, whatever socket and bind give: either every socket has a
-- descriptor, every bind of an address succeeds, all sockets are open, the array has their descriptors
-- in their order and the result is their number; or there is a first one that fails, the result is -1,
-- every socket that the call opened is closed again, and the places of those before it, which it wrote,
-- hold -1.
pub open_data_sockets-Settled :
    (attempts : List Attempt) (arr base : List ℤ)
    → length arr ≡ length attempts
    → Settled attempts [] arr base
        (open_data_sockets attempts (record { datafd_arr = arr; open_fds = base }))
unfolding open_data_sockets
open_data_sockets-Settled attempts arr base e = open_from-Settled attempts [] arr base e
