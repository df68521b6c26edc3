-- ===== src/Vns/DataRank/Percentile.antt =====
-- What `data_rank::get_rank` of vns/vns_utils.cc gives for a full queue.
use tcp_eyenet.Prelude.{
  ℕ, zero, suc, ◌+◌, ◌≤◌, ◌≡◌, refl, ap, ◌∙◌, sym, true, false, inl, inr, Bool-cases, ◌↔◌, some,
  List, [], ◌∷◌, ◌++◌, length, append-nil, arith, ltb,
}
use tcp_eyenet.Prelude.Int.{pos, negsuc, pos_part}
use tcp_eyenet.Double.{Double, IsIeee, ◌≼◌}
use tcp_eyenet.Vns.DataRank.{DataRank, win_len, last_or, rank_rounds, minus_ones, last?, get_rank}
use tcp_eyenet.Vns.DataRank.Largest.{
  least, above, Nums, From, From-le, above_le, above_all, Falling, UpTo,
}
use tcp_eyenet.Vns.DataRank.Ranked.{
  feed, rounds-feed, feed-above, length-feed, feed-Nums-Falling, From-last_or,
}

length-minus_ones {ℓ} : (W : Type ℓ) ⦃d : Double W⦄ (n : ℕ) → length {A = W} (minus_ones n) ≡ n
unfolding minus_ones
length-minus_ones W zero = refl
length-minus_ones W (suc n) = ap suc (length-minus_ones W n)

Nums-minus_ones {ℓ} :
    (W : Type ℓ) ⦃d : Double W⦄ (n : ℕ)
    → d.of_int (negsuc 0) ≼ d.of_int (negsuc 0)
    → Nums {W = W} (minus_ones n)
unfolding minus_ones
Nums-minus_ones W zero h = tt
Nums-minus_ones W (suc n) h = (h, Nums-minus_ones W n h)

not_empty : (n : ℕ) → n ≡ 100 → ltb 0 n ≡ true
not_empty n e = ground arith

zero_add : (n : ℕ) → 0 + n ≡ n
zero_add n = omega arith

module _ {ℓ} {W : Type ℓ} ⦃d : Double W⦄ where
  open d use {dec, of_int, to_int, minus, times, le}

  -- The number of entries, `n`
  abbrev pub places : DataRank W → ℕ
  places r = pos_part (to_int (times (minus (dec 1 0) r.percentile) (of_int (pos win_len))))

  above-minus_ones : (x : W) (n : ℕ) → le x (of_int (negsuc 0)) ≡ false → above x (minus_ones n) ≡ 0
  unfolding minus_ones
  above-minus_ones x zero h = refl
  above-minus_ones x (suc n) h = rw (h, above-minus_ones x n h) refl

  From-above : (x : W) (ls : List W) → above x ls ≡ length ls → From x ls
  From-above x [] h = tt
  From-above x (l ∷ ls) h = elim (Bool-cases (le x l)) [
    | inl e ↦
        let g : 1 + above x ls ≡ suc (length ls) = rw e at h in
        (e, From-above x ls (omega (arith, g)))
    | inr e ↦
        let g : 0 + above x ls ≡ suc (length ls) = rw e at h in
        absurd (omega (arith, g, above_le x ls))
  ]

  last-From : (x l : W) (ls : List W) → From x (l ∷ ls) → x ≼ last_or l ls
  last-From x l [] (h, _) = h
  last-From x l (y ∷ ys) (_, hs) = last-From x y ys hs

  module _ (laws : IsIeee W) where
    Falling-minus_ones :
        (n : ℕ) → of_int (negsuc 0) ≼ of_int (negsuc 0) → Falling laws (minus_ones n)
    unfolding minus_ones
    Falling-minus_ones zero h = tt
    Falling-minus_ones (suc n) h = (up_to n, Falling-minus_ones n h)
      where
        up_to : (m : ℕ) → UpTo laws (of_int (negsuc 0)) (minus_ones m)
        up_to zero = tt
        up_to (suc m) = (h, up_to m)

    -- The last entry of a falling list is not below `x` just when no entry is.
    last_iff :
        (x l : W) (ls : List W)
        → Nums (l ∷ ls)
        → Falling laws (l ∷ ls)
        → (x ≼ last_or l ls) ↔ (above x (l ∷ ls) ≡ length (l ∷ ls))
    last_iff x l ls (h, hs) f = (
      (λ g.
          above_all x (l ∷ ls)
            (From-le laws x (last_or l ls) (l ∷ ls) g (From-last_or laws l ls h hs f))),
      (λ g. last-From x l ls (From-above x (l ∷ ls) g)),
    )

    -- Of a list with room for `suc m` entries that holds the largest of `xs`, what the last entry is
    last_rank :
        (m : ℕ) (xs largest : List W)
        → length largest ≡ suc m
        → Nums largest
        → Falling laws largest
        → ((x : W)
            → le x (of_int (negsuc 0)) ≡ false
            → above x largest ≡ least (suc m) (above x xs))
        → (v : W) × (last? largest ≡ some v)
          × ((x : W) → le x (of_int (negsuc 0)) ≡ false → (x ≼ v) ↔ (suc m ≤ above x xs))
    unfolding last?
    last_rank m xs [] e hl f k = absurd (omega (arith, e))
    last_rank m xs (l ∷ ls) e hl f k = (
      last_or l ls,
      refl,
      λ x h.
          let both = last_iff x l ls hl f in
          (
            (λ g. room (suc m) (above x xs) (sym (k x h) ∙ both.0 g ∙ e)),
            (λ g. both.1 (k x h ∙ full (suc m) (above x xs) g ∙ sym e)),
          ),
    )
      where
        room : (n k : ℕ) → least n k ≡ n → n ≤ k
        room n k h = ground arith

        full : (n k : ℕ) → n ≤ k → least n k ≡ n
        full n k h = ground arith

    rank_rounds_all :
        (xs largest : List W)
        → length xs ≡ win_len
        → rank_rounds win_len xs largest ≡ (xs, feed xs largest)
    rank_rounds_all xs largest e =
        ap (λ (w : List W). rank_rounds win_len w largest) (sym (append-nil xs))
        ∙ ap (λ n. rank_rounds n (xs ++ []) largest) (sym e)
        ∙ rounds-feed xs [] largest

    get_rank-last :
        (r : DataRank W) (m : ℕ)
        → length r.window ≡ win_len
        → Nums r.window
        → of_int (negsuc 0) ≼ of_int (negsuc 0)
        → places r ≡ suc m
        → (v : W) × (get_rank r ≡ (r, some v))
          × ((x : W) → le x (of_int (negsuc 0)) ≡ false → (x ≼ v) ↔ (suc m ≤ above x r.window))
    unfolding get_rank
    get_rank-last r m e hx h p =
        let ones = minus_ones (suc m) in
        let big = feed r.window ones in
        let (nums, falls) =
          feed-Nums-Falling laws r.window ones hx (Nums-minus_ones W (suc m) h)
            (Falling-minus_ones (suc m) h) in
        let counts : (x : W)
            → le x (of_int (negsuc 0)) ≡ false
            → above x big ≡ least (suc m) (above x r.window) =
          λ x low.
            feed-above laws x r.window ones hx (Nums-minus_ones W (suc m) h)
              (Falling-minus_ones (suc m) h)
            ∙ ap (λ k. least k (above x ones + above x r.window)) (length-minus_ones W (suc m))
            ∙ ap (λ k. least (suc m) (k + above x r.window)) (above-minus_ones x (suc m) low)
            ∙ ap (least (suc m)) (zero_add (above x r.window)) in
        let (v, g, k) =
          last_rank m r.window big (length-feed laws r.window ones ∙ length-minus_ones W (suc m))
            nums falls counts in
        (v, rw (p, rank_rounds_all r.window ones e, not_empty (length r.window) e, g) refl, k)

    -- For a full queue of 100 numbers, a percentile that leaves `suc m` places, and an `x` for which
    -- `x <= -1` fails: `get_rank` leaves the queue as it was and gives its entry of that rank,
    -- which is not below `x` just when at least `suc m` of the samples are not below `x`.
    pub get_rank-places :
        (r : DataRank W) (m : ℕ) (x : W)
        → length r.window ≡ win_len
        → Nums r.window
        → of_int (negsuc 0) ≼ of_int (negsuc 0)
        → places r ≡ suc m
        → le x (of_int (negsuc 0)) ≡ false
        → (v : W) × (get_rank r ≡ (r, some v)) × ((x ≼ v) ↔ (suc m ≤ above x r.window))
    get_rank-places r m x e hx h p low =
        let (v, g, k) = get_rank-last r m e hx h p in (v, g, k x low)
