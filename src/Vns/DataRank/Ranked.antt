-- ===== src/Vns/DataRank/Ranked.antt =====
-- `data_rank::get_rank` of vns/vns_utils.cc over a full queue.
use tcp_eyenet.Prelude.{
  ℕ, suc, ◌+◌, ◌≤◌, ◌≡◌, refl, ap, ◌∙◌, sym, inl, inr, Bool-cases, List, [], ◌∷◌, ◌++◌, length,
  append_assoc, append-nil, arith,
}
use tcp_eyenet.Double.{Double, IsIeee, ◌≼◌}
use tcp_eyenet.Vns.DataRank.{insert_largest, last_or, rank_rounds}
use tcp_eyenet.Vns.DataRank.Largest.{
  bit, least, above, Nums, From, above_le, insert-above, insert-Falling, Falling,
}

module _ {ℓ} {W : Type ℓ} ⦃d : Double W⦄ where
  open d use {le, lt, of_int}

  -- The samples one after the other into `largest`
  abbrev pub feed : List W → List W → List W
  feed [] largest = largest
  feed (x ∷ xs) largest = feed xs (insert_largest (last_or x largest) x largest)

  -- As many rounds as there are samples leave the queue as it was.
  pub rounds-feed :
      (xs ys largest : List W)
      → rank_rounds (length xs) (xs ++ ys) largest ≡ (ys ++ xs, feed xs largest)
  unfolding rank_rounds
  rounds-feed [] ys largest = λ i. (sym (append-nil ys) i, largest)
  rounds-feed (x ∷ xs) ys largest =
      let next = insert_largest (last_or x largest) x largest in
      ap (λ (w : List W). rank_rounds (length xs) w next) (append_assoc xs ys (x ∷ []))
      ∙ rounds-feed xs (ys ++ x ∷ []) next
      ∙ ap (λ (w : List W). (w, feed xs next)) (append_assoc ys (x ∷ []) xs)

  length-insert :
      (last : W) (ls : List W) (tmp : W) → length (insert_largest last tmp ls) ≡ length ls
  unfolding insert_largest
  length-insert last [] tmp = refl
  length-insert last (l ∷ ls) tmp = ap suc (length-insert last ls _)

  insert-Nums :
      (last tmp : W) (ls : List W) → tmp ≼ tmp → Nums ls → Nums (insert_largest last tmp ls)
  unfolding insert_largest
  insert-Nums last tmp [] h k = tt
  insert-Nums last tmp (l ∷ ls) h (k, ks) = elim (Bool-cases (le tmp last)) [
    | inl e ↦ rw e (k, insert-Nums last tmp ls h ks)
    | inr e ↦ elim (Bool-cases (lt l tmp)) [
      | inl f ↦ rw (e, f) (h, insert-Nums last l ls k ks)
      | inr f ↦ rw (e, f) (k, insert-Nums last tmp ls h ks)
    ]
  ]

  module _ (laws : IsIeee W) where
    open laws use {le_trans}

    -- The last entry of a falling list is the least one.
    pub From-last_or :
        (l : W) (ls : List W)
        → l ≼ l
        → Nums ls
        → Falling laws (l ∷ ls)
        → From (last_or l ls) (l ∷ ls)
    From-last_or l [] h k f = (h, tt)
    From-last_or l (y ∷ ys) h (k, ks) ((g, _), f) =
        let (a, rest) = From-last_or y ys k ks f in (le_trans (last_or y ys) y l a g, (a, rest))

    least-From : (x : W) (ls : List W) → Nums ls → Falling laws ls → From (last_or x ls) ls
    least-From x [] h f = tt
    least-From x (l ∷ ls) (h, hs) f = From-last_or l ls h hs f

    add_least : (a b m n k : ℕ) → a ≡ least n (b + m) → least n (a + k) ≡ least n (b + (m + k))
    add_least a b m n k h = ground arith

    within : (m n : ℕ) → m ≤ n → m ≡ least n (m + 0)
    within m n h = ground arith

    pub feed-above :
        (x : W) (xs largest : List W)
        → Nums xs
        → Nums largest
        → Falling laws largest
        → above x (feed xs largest) ≡ least (length largest) (above x largest + above x xs)
    feed-above x [] largest hx hl f = within (above x largest) (length largest) (above_le x largest)
    feed-above x (y ∷ ys) largest (h, hs) hl f =
        let last = last_or y largest in
        let next = insert_largest last y largest in
        let one = insert-above laws x last y largest h hl (least-From y largest hl f) in
        let rest =
          feed-above x ys next hs (insert-Nums last y largest h hl)
            (insert-Falling laws last y largest h hl f) in
        rest
        ∙ ap (λ n. least n (above x next + above x ys)) (length-insert last largest y)
        ∙ add_least (above x next) (above x largest) (bit (le x y)) (length largest) (above x ys)
            one

    pub length-feed : (xs largest : List W) → length (feed xs largest) ≡ length largest
    length-feed [] largest = refl
    length-feed (x ∷ xs) largest = length-feed xs _ ∙ length-insert (last_or x largest) largest x

    pub feed-Nums-Falling :
        (xs largest : List W)
        → Nums xs
        → Nums largest
        → Falling laws largest
        → Nums (feed xs largest) × Falling laws (feed xs largest)
    feed-Nums-Falling [] largest hx hl f = (hl, f)
    feed-Nums-Falling (x ∷ xs) largest (h, hs) hl f =
        feed-Nums-Falling xs _ hs (insert-Nums (last_or x largest) x largest h hl)
          (insert-Falling laws (last_or x largest) x largest h hl f)
