-- ===== src/Vns/Win/Refinement.antt =====
-- `win` refines the plain list of the samples in its window.
use tcp_eyenet.Prelude.{
  ◌≡◌, subst, refl, sym, ap, ◌∙◌, Bool, true, false, List, [], ◌∷◌, ◌++◌, if◌then◌else◌, All,
  All-append, Bool-cases, inl, inr,
}
use tcp_eyenet.Double.{Double, IsIeee, ◌≼◌}
use tcp_eyenet.Double.Laws.{lt_num}
use tcp_eyenet.Vns.Win.{
  Win, win, add, clear, update_sz, update_win, worse, initial_tail, evict, front_or, pop_worse,
}
use tcp_eyenet.Vns.Win.Skyline.{skyline, expire, pick, best, IsNum, InOrder}
use tcp_eyenet.Vns.Win.Pushing.{skyline-snoc, best-snoc, best-IsNum}
use tcp_eyenet.Vns.Win.Expiry.{evict-expire, evict-tail, front-skyline, skyline-expire}

module _ {ℓ} {W : Type ℓ} ⦃d : Double W⦄ where
  open d use {minus, lt}

  -- A value that the initial tail does not shadow: below DOUBLE_MAX in a minimum, above DOUBLE_MIN
  -- in a maximum. It is a number.
  abbrev pub IsSample : Bool → W → Type 0
  IsSample m v = worse m (initial_tail m) v ≡ true

  pub record Refines (w : Win W) (xs : List (W × W)) : Type ℓ where
    pub deque_eq : w.val ≡ skyline w.is_min xs
    pub tail_eq : w.tail ≡ best w.is_min (initial_tail w.is_min) xs
    pub samples : All (λ x. IsSample w.is_min x.1) xs
    pub in_order : InOrder xs

  -- The window after a sample: it joins at the end, and samples before `ts - sz` leave.
  unfoldable pub slide : W → W → W → List (W × W) → List (W × W)
  unfolding expire
  slide sz v ts xs = expire (minus ts sz) (xs ++ (ts, v) ∷ [])

  pub win-Refines : (m : Bool) → Refines (win m) []
  unfolding win skyline best
  win-Refines m = record { deque_eq = refl; tail_eq = refl; samples = tt; in_order = tt }

  pub clear-Refines : (w : Win W) → Refines (clear w) []
  unfolding clear skyline best
  clear-Refines w = record { deque_eq = refl; tail_eq = refl; samples = tt; in_order = tt }

  pub update_sz-Refines :
      (w : Win W) (s : W) {xs : List (W × W)} → Refines w xs → Refines (update_sz w s) xs
  unfolding update_sz
  update_sz-Refines w s r = record {
    deque_eq = r.deque_eq;
    tail_eq = r.tail_eq;
    samples = r.samples;
    in_order = r.in_order;
  }

  pub snoc-cons :
      (xs : List (W × W)) (y : W × W) → (z : W × W) × (r : List (W × W)) × (xs ++ y ∷ [] ≡ z ∷ r)
  snoc-cons [] y = (y, [], refl)
  snoc-cons (x ∷ xs) y = (x, xs ++ y ∷ [], refl)

  -- Dropping samples keeps what holds of all of them, and their order.
  pub expire-All {κ} :
      (P : W × W → Type κ) (cut : W) (xs : List (W × W)) → All P xs → All P (expire cut xs)
  unfolding expire
  expire-All P cut [] h = h
  expire-All P cut (x ∷ []) h = h
  expire-All P cut (x ∷ y ∷ r) h = elim (Bool-cases (lt x.0 cut)) [
    | inl e ↦ rw e (expire-All P cut (y ∷ r) h.1)
    | inr e ↦ rw e h
  ]

  expire-InOrder : (cut : W) (xs : List (W × W)) → InOrder xs → InOrder (expire cut xs)
  unfolding expire
  expire-InOrder cut [] h = h
  expire-InOrder cut (x ∷ []) h = h
  expire-InOrder cut (x ∷ y ∷ r) h = elim (Bool-cases (lt x.0 cut)) [
    | inl e ↦ rw e (expire-InOrder cut (y ∷ r) h.1)
    | inr e ↦ rw e h
  ]

  snoc-InOrder :
      (xs : List (W × W)) (y : W × W)
      → InOrder xs
      → All (λ x. x.0 ≼ y.0) xs
      → InOrder (xs ++ y ∷ [])
  snoc-InOrder [] y h k = (tt, tt)
  snoc-InOrder (x ∷ xs) y h k =
      (All-append (λ z. x.0 ≼ z.0) xs (y ∷ []) h.0 (k.0, tt), snoc-InOrder xs y h.1 k.1)

  best_any :
      (m : Bool) (t u : W) (x : W × W) (xs : List (W × W)) → best m t (x ∷ xs) ≡ best m u (x ∷ xs)
  unfolding best
  best_any m t u x [] = refl
  best_any m t u x (y ∷ r) = ap (pick m x.1) (best_any m t u y r)

  pub expire-cons :
      (cut : W) (x : W × W) (xs : List (W × W))
      → (z : W × W) × (r : List (W × W)) × (expire cut (x ∷ xs) ≡ z ∷ r)
  unfolding expire
  expire-cons cut x [] = (x, [], refl)
  expire-cons cut x (y ∷ r) = elim (Bool-cases (lt x.0 cut)) [
    | inl e ↦ rw e (expire-cons cut y r)
    | inr e ↦ (x, y ∷ r, rw e)
  ]

  module _ (laws : IsIeee W) where
    IsSample-IsNum : (m : Bool) (v : W) → IsSample m v → IsNum v
    IsSample-IsNum true v h = (lt_num laws _ _ h).0
    IsSample-IsNum false v h = (lt_num laws _ _ h).1

    pub samples-IsNum :
        (m : Bool) (xs : List (W × W)) → All (λ x. IsSample m x.1) xs → All (λ x. IsNum x.1) xs
    samples-IsNum m [] h = tt
    samples-IsNum m (x ∷ xs) h = (IsSample-IsNum m x.1 h.0, samples-IsNum m xs h.1)

    -- The tail after the push, before old samples leave.
    tail-push :
        (m : Bool) (v ts : W) (xs : List (W × W))
        → All (λ x. IsSample m x.1) xs
        → IsSample m v
        → pick m (best m (initial_tail m) xs) v ≡ best m (initial_tail m) (xs ++ (ts, v) ∷ [])
    tail-push m v ts [] h k = unfold pick best in rw k
    tail-push m v ts (x ∷ xs) h k = sym (
        best-snoc laws m ts v (initial_tail m) x xs (samples-IsNum m (x ∷ xs) h)
          (IsSample-IsNum m v k))

    -- The eviction, from a deque whose front is in the tail.
    evict_front :
        (m : Bool) (cut t : W) (zs : List (W × W))
        → front_or t zs ≡ t
        → IsNum t
        → let (again, left) = evict m t cut false zs in
          (if again then front_or t left else t) ≡ front_or t (expire cut zs)
    evict_front m cut t [] h n = unfold evict expire in refl
    evict_front m cut t (z ∷ zs) h n = subst (λ u. Goal u) h (evict-tail m cut z.1 z zs (rw h n))
      where
        Goal : W → Type ℓ
        Goal u =
            let (again, left) = evict m u cut false (z ∷ zs) in
            (if again then front_or u left else u) ≡ front_or u (expire cut (z ∷ zs))

    -- `update_win` on the skyline of `ys` leaves that of the samples that have not expired.
    update_win-Refines :
        (w : Win W) (now : W) (y : W × W) (r : List (W × W))
        → let ys = y ∷ r in
          w.val ≡ skyline w.is_min ys
          → best w.is_min w.tail ys ≡ w.tail
          → IsNum w.tail
          → All (λ x. IsSample w.is_min x.1) ys
          → InOrder ys
          → Refines (update_win w now) (expire (minus now w.sz) ys)
    unfolding update_win
    update_win-Refines w now y r e t n s o =
        let m = w.is_min in
        let cut = minus now w.sz in
        let front : front_or w.tail (skyline m (y ∷ r)) ≡ w.tail =
          front-skyline m w.tail (y ∷ r) ∙ t in
        let (z, zs, c) = expire-cons cut y r in
        record {
          deque_eq =
              evict-expire m w.tail cut false w.val
              ∙ ap (expire cut) e
              ∙ sym (skyline-expire laws m cut (y ∷ r) o);
          tail_eq =
              evict_front m cut w.tail w.val (ap (front_or w.tail) e ∙ front) n
              ∙ ap (λ zs. front_or w.tail (expire cut zs)) e
              ∙ ap (front_or w.tail) (sym (skyline-expire laws m cut (y ∷ r) o))
              ∙ front-skyline m w.tail (expire cut (y ∷ r))
              ∙ rw c (best_any m w.tail (initial_tail m) z zs);
          samples = expire-All (λ x. IsSample m x.1) cut (y ∷ r) s;
          in_order = expire-InOrder cut (y ∷ r) o;
        }

    -- A sample that is in range and no older than the last ones takes the deque from the skyline of
    -- the window to that of the window after it, and the tail to its best value.
    pub add-Refines :
        (w : Win W) (v ts : W) {xs : List (W × W)}
        → Refines w xs
        → IsSample w.is_min v
        → All (λ x. x.0 ≼ ts) xs
        → Refines (add w v ts) (slide w.sz v ts xs)
    unfolding add slide pick
    add-Refines w v ts {xs} r k late =
        let m = w.is_min in
        let i = initial_tail m in
        let (y, ys, c) = snoc-cons xs (ts, v) in
        let all : All (λ x. IsSample m x.1) (xs ++ (ts, v) ∷ []) =
          All-append (λ x. IsSample m x.1) xs ((ts, v) ∷ []) r.samples (k, tt) in
        let pushed : pick m w.tail v ≡ best m i (xs ++ (ts, v) ∷ []) =
          rw r.tail_eq (tail-push m v ts xs r.samples k) in
        let t : W = pick m w.tail v in
        let top : t ≡ best m i (y ∷ ys) = pushed ∙ ap (best m i) c in
        let nums = samples-IsNum m (y ∷ ys) (subst (All (λ x. IsSample m x.1)) c all) in
        subst (λ zs. Refines (add w v ts) (expire (minus ts w.sz) zs)) (sym c)
          (update_win-Refines (record w { val = pop_worse m v w.val ++ (ts, v) ∷ []; tail = t }) ts
            y ys
            (ap (λ zs. pop_worse m v zs ++ (ts, v) ∷ []) r.deque_eq
              ∙ sym (skyline-snoc laws m v ts xs)
              ∙ ap (skyline m) c)
            (best_any m t i y ys ∙ sym top) (subst IsNum (sym top) (best-IsNum laws m i y ys nums))
            (subst (All (λ x. IsSample m x.1)) c all)
            (subst InOrder c (snoc-InOrder xs (ts, v) r.in_order late)))
