-- ===== src/Vns/RttWin/Order.antt =====
-- The smallest recent round-trip time is never below the smallest one.
use tcp_eyenet.Prelude.{◌≡◌, subst, refl, ◌∙◌, true, List, [], ◌∷◌, ◌++◌, arith, All, All-append}
use tcp_eyenet.Double.{Double, IsIeee, ◌≼◌, ◌≺◌, fmin}
use tcp_eyenet.Double.Laws.{le-fmax_left}
use tcp_eyenet.Vns.Win
use tcp_eyenet.Vns.Win.{Win, worse, settled, initial_tail}
use tcp_eyenet.Vns.Win.Refinement.{
  Refines, slide, clear-Refines, win-Refines, update_sz-Refines, add-Refines, expire-All,
  expire-cons, snoc-cons,
}
use tcp_eyenet.Vns.Win.Bounds.{tail-bounds, best-All}
use tcp_eyenet.Vns.RttWin.{RttWin, rtt_win, clear, add, win_sz, smooth}
use tcp_eyenet.Vns.RttWin.Suffix.{IsSuffix, slide_suffix}

module _ {ℓ} {W : Type ℓ} ⦃d : Double W⦄ where
  open d use {dec, minus, times, lt, double_max}

  slide-cons :
      (s v ts : W) (xs : List (W × W))
      → (z : W × W) × (r : List (W × W)) × (slide s v ts xs ≡ z ∷ r)
  unfolding slide
  slide-cons s v ts xs =
      let (y, ys, e) = snoc-cons xs (ts, v) in rw e (expire-cons (minus ts s) y ys)

  All-suffix {κ} : (P : W × W → Type κ) (zs ys : List (W × W)) → All P (zs ++ ys) → All P ys
  All-suffix P [] ys h = h
  All-suffix P (z ∷ zs) ys h = All-suffix P zs ys h.1

  All-mono_time :
      (s t : W) (xs : List (W × W))
      → IsIeee W
      → s ≼ t
      → All (λ x. x.0 ≼ s) xs
      → All (λ x. x.0 ≼ t) xs
  All-mono_time s t [] laws h k = tt
  All-mono_time s t (x ∷ xs) laws h k =
      (laws.le_trans x.0 s t k.0 h, All-mono_time s t xs laws h k.1)

  -- What the two windows hold since the last `clear`: those of `virgin_rtt` are an end of those of
  -- `min_rtt`, and all are from `now` or before.
  pub record IsTracking (r : RttWin W) (now : W) : Type ℓ where
    pub samples : List (W × W)
    pub recent : List (W × W)
    pub min_ref : Refines r.min_rtt samples
    pub virgin_ref : Refines r.virgin_rtt recent
    pub min_kind : r.min_rtt.is_min ≡ true
    pub virgin_kind : r.virgin_rtt.is_min ≡ true
    pub suffix : IsSuffix recent samples
    pub past : All (λ x. x.0 ≼ now) samples

  pub rtt_win-IsTracking : (now : W) → IsTracking rtt_win now
  unfolding rtt_win Win.win
  rtt_win-IsTracking now = record {
    samples = [];
    recent = [];
    min_ref = win-Refines true;
    virgin_ref = win-Refines true;
    min_kind = refl;
    virgin_kind = refl;
    suffix = ([], refl);
    past = tt;
  }

  pub clear-IsTracking :
      {r : RttWin W} (now then_ : W) → IsTracking r then_ → IsTracking (clear r) now
  unfolding clear Win.clear
  clear-IsTracking {r} now then_ t = record {
    samples = [];
    recent = [];
    min_ref = clear-Refines r.min_rtt;
    virgin_ref = clear-Refines r.virgin_rtt;
    min_kind = t.min_kind;
    virgin_kind = t.virgin_kind;
    suffix = ([], refl);
    past = tt;
  }

  -- Time that passes changes nothing.
  pub later-IsTracking :
      {r : RttWin W} (now ts : W) → IsIeee W → now ≼ ts → IsTracking r now → IsTracking r ts
  later-IsTracking now ts laws h t = record {
    samples = t.samples;
    recent = t.recent;
    min_ref = t.min_ref;
    virgin_ref = t.virgin_ref;
    min_kind = t.min_kind;
    virgin_kind = t.virgin_kind;
    suffix = t.suffix;
    past = All-mono_time now ts t.samples laws h t.past;
  }

  module _ (laws : IsIeee W) where
    fmin-le_left : (x y : W) → x ≼ x → fmin x y ≼ x
    fmin-le_left x y h = ground (arith, laws.lt_le y x)

    win_sz-num : (r : RttWin W) → win_sz r ≼ win_sz r
    unfolding win_sz
    win_sz-num r =
        (laws.le_num _ _ (
          le-fmax_left laws (dec 10000 0) (times (dec 20 0) r.min_rtt.tail)
            (laws.dec_mono 10000 0 10000 0 (omega arith)))).1

    -- One of the windows of minima under `add`.
    resized-Refines :
        (w : Win W) (s v ts : W) {xs : List (W × W)}
        → Refines w xs
        → w.is_min ≡ true
        → v ≺ double_max
        → All (λ x. x.0 ≼ ts) xs
        → Refines (Win.add (Win.update_sz w s) v ts) (slide s v ts xs)
    unfolding Win.update_sz
    resized-Refines w s v ts r kind small late =
        add-Refines laws (Win.update_sz w s) v ts (update_sz-Refines w s r) (rw kind small) late

    resized_kind : (w : Win W) (s v ts : W) → (Win.add (Win.update_sz w s) v ts).is_min ≡ w.is_min
    unfolding Win.update_sz Win.add
    resized_kind w s v ts = refl

    slide-past :
        (s v ts : W) (xs : List (W × W))
        → ts ≼ ts
        → All (λ x. x.0 ≼ ts) xs
        → All (λ x. x.0 ≼ ts) (slide s v ts xs)
    unfolding slide
    slide-past s v ts xs n h =
        expire-All (λ x. x.0 ≼ ts) (minus ts s) (xs ++ (ts, v) ∷ [])
          (All-append (λ x. x.0 ≼ ts) xs ((ts, v) ∷ []) h (n, tt))

    add_tracked :
        (r : RttWin W) (v ts now : W)
        → IsTracking r now
        → v ≺ double_max
        → now ≼ ts
        → IsTracking (add r v ts) ts
    unfolding add
    add_tracked r v ts now t small later =
        let sz = win_sz r in
        let near = fmin sz (times (dec 5 1) (smooth r v)) in
        let past = All-mono_time now ts t.samples laws later t.past in
        let (zs, e) = t.suffix in
        let recent_past = All-suffix (λ x. x.0 ≼ ts) zs t.recent (rw e at past) in
        record {
          samples = slide sz v ts t.samples;
          recent = slide near v ts t.recent;
          min_ref = resized-Refines r.min_rtt sz v ts t.min_ref t.min_kind small past;
          virgin_ref =
              resized-Refines r.virgin_rtt near v ts t.virgin_ref t.virgin_kind small recent_past;
          min_kind = resized_kind r.min_rtt sz v ts ∙ t.min_kind;
          virgin_kind = resized_kind r.virgin_rtt near v ts ∙ t.virgin_kind;
          suffix =
              slide_suffix sz near v ts t.samples t.recent
                (λ y. laws.minus_anti ts near sz y (fmin-le_left sz _ (win_sz-num r))) t.suffix;
          past = slide-past sz v ts t.samples (laws.le_num now ts later).1 past;
        }

    -- A sample below DOUBLE_MAX, at a time that is not before the last one, keeps both windows in step.
    pub add-IsTracking :
        (r : RttWin W) (v ts now : W)
        → IsTracking r now
        → v ≺ double_max
        → now ≼ ts
        → IsTracking (add r v ts) ts
    add-IsTracking r v ts now t small later = add_tracked r v ts now t small later

    tracking_order :
        (r : RttWin W) (now : W) (t : IsTracking r now) (y : W × W) (ys : List (W × W))
        → t.recent ≡ y ∷ ys
        → r.min_rtt.tail ≼ r.virgin_rtt.tail
    tracking_order r now t y ys e =
        let (zs, s) = t.suffix in
        let low : All (λ x. r.min_rtt.tail ≼ x.1) t.samples =
          subst (λ m. All (λ x. settled m r.min_rtt.tail x.1 ≡ true) t.samples) t.min_kind
            (tail-bounds laws r.min_rtt t.samples t.min_ref) in
        let near : All (λ x. r.min_rtt.tail ≼ x.1) t.recent =
          All-suffix (λ x. r.min_rtt.tail ≼ x.1) zs t.recent
            (subst (All (λ x. r.min_rtt.tail ≼ x.1)) s low) in
        rw (t.virgin_ref.tail_eq, e)
          (best-All (λ v. r.min_rtt.tail ≼ v) r.virgin_rtt.is_min _ y ys
            (subst (All (λ x. r.min_rtt.tail ≼ x.1)) e near))

    -- After such a sample the minimum over the short window is not below that over the long one.
    pub min-le-virgin :
        (r : RttWin W) (v ts now : W)
        → IsTracking r now
        → v ≺ double_max
        → now ≼ ts
        → (add r v ts).min_rtt.tail ≼ (add r v ts).virgin_rtt.tail
    unfolding add_tracked slide
    min-le-virgin r v ts now t small later =
        let t' = add_tracked r v ts now t small later in
        let (y, ys, e) =
          slide-cons (fmin (win_sz r) (times (dec 5 1) (smooth r v))) v ts t.recent in
        tracking_order (add r v ts) ts t' y ys e
