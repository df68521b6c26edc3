-- ===== src/Vns/DataRank/Window.antt =====
-- The samples that `data_rank` of vns/vns_utils.cc keeps.
use tcp_eyenet.Prelude.{
  ℕ, zero, suc, ◌+◌, ◌-◌, ◌≤◌, ◌≡◌, refl, ap, sym, ◌∙◌, true, false, ltb, inl, inr, Bool-cases,
  List, [], ◌∷◌, ◌++◌, drop, length, length-append, append-nil, append_assoc, arith,
}
use tcp_eyenet.Double.{Double}
use tcp_eyenet.Vns.DataRank.{DataRank, data_rank, pop, win_len}
use tcp_eyenet.Vns.DataRank

one_over : {n : ℕ} → ltb 100 n ≡ true → n ≤ 101 → 1 ≡ n - 100
one_over {n} e h = ground arith

none_over : (n : ℕ) → ltb 100 n ≡ false → 0 ≡ n - 100
none_over n e = ground arith

module _ {ℓ} {A : Type ℓ} where
  drop_cong : (m n : ℕ) (xs : List A) → m ≡ n → drop m xs ≡ drop n xs
  drop_cong m n xs e = ap (λ k. drop k xs) e

  drop-drop :
      (m k : ℕ) (xs ys : List A)
      → k ≤ length xs
      → drop m (drop k xs ++ ys) ≡ drop (k + m) (xs ++ ys)
  drop-drop m zero xs ys h = drop_cong m (0 + m) (xs ++ ys) (omega arith)
  drop-drop m (suc k) [] ys h = absurd (omega (arith, h))
  drop-drop m (suc k) (x ∷ xs) ys h =
      drop-drop m k xs ys (omega (arith, h))
      ∙ drop_cong (suc (k + m)) (suc k + m) (x ∷ xs ++ ys) (omega arith)

  length-drop : (k : ℕ) (xs : List A) → length (drop k xs) ≡ length xs - k
  length-drop zero xs = omega arith
  length-drop (suc k) [] = omega arith
  length-drop (suc k) (x ∷ xs) = length-drop k xs ∙ omega arith

  drop_one : (xs : List A) → pop xs ≡ drop 1 xs
  drop_one [] = refl
  drop_one (x ∷ xs) = refl

module _ {ℓ} {W : Type ℓ} ⦃d : Double W⦄ where
  -- Samples that are added one after the other
  unfoldable pub add_all : DataRank W → List W → DataRank W
  add_all r [] = r
  add_all r (x ∷ xs) = add_all (DataRank.add r x) xs

  pushed_length :
      (r : DataRank W) (x : W) → length r.window ≤ 100 → length (r.window ++ x ∷ []) ≤ 101
  pushed_length r x h = omega (arith, h, length-append r.window (x ∷ []))

  add-drop :
      (r : DataRank W) (x : W)
      → length r.window ≤ 100
      → (DataRank.add r x).window ≡ drop (length (r.window ++ x ∷ []) - 100) (r.window ++ x ∷ [])
  unfolding DataRank.add
  add-drop r x h = elim (Bool-cases (ltb 100 (length (r.window ++ x ∷ [])))) [
    | inl e ↦ rw e (
        drop_one (r.window ++ x ∷ [])
        ∙ drop_cong 1 (length (r.window ++ x ∷ []) - 100) (r.window ++ x ∷ [])
            (one_over e (pushed_length r x h)))
    | inr e ↦ rw e (
        drop_cong 0 (length (r.window ++ x ∷ []) - 100) (r.window ++ x ∷ [])
          (none_over (length (r.window ++ x ∷ [])) e))
  ]

  -- From a queue of at most 100 samples, after any samples are added one after the other, the queue has
  -- the last 100 of all of them, or all where they are fewer, in the order in which they came.
  pub add_all-last :
      (r : DataRank W) (xs : List W)
      → length r.window ≤ 100
      → (add_all r xs).window ≡ drop (length (r.window ++ xs) - 100) (r.window ++ xs)
  unfolding add_all
  add_all-last r [] h =
      sym (append-nil r.window)
      ∙ drop_cong 0 (length (r.window ++ []) - 100) (r.window ++ [])
          (omega (arith, h, length-append r.window []))
  add_all-last r (x ∷ xs) h =
      let w = r.window in
      let p = w ++ x ∷ [] in
      let k = length p - 100 in
      let m = length (drop k p ++ xs) - 100 in
      let short = pushed_length r x h in
      let left = length-drop k p in
      let all = length-append (drop k p) xs in
      let more = length-append w (x ∷ xs) in
      let one = length-append w (x ∷ []) in
      let here = add-drop r x h in
      add_all-last (DataRank.add r x) xs (omega (arith, ap length here, left, short))
      ∙ ap (λ l. drop (length (l ++ xs) - 100) (l ++ xs)) here
      ∙ drop-drop m k p xs (omega arith)
      ∙ drop_cong (k + m) (length (w ++ x ∷ xs) - 100) (p ++ xs)
          (omega (arith, short, left, all, more, one))
      ∙ ap (drop (length (w ++ x ∷ xs) - 100)) (append_assoc w (x ∷ []) xs)
