-- ===== src/Ttest/Startup/Owning.antt =====
-- Each worker of ttest reads its own number.
use tcp_eyenet.Prelude.{ℕ, ◌^◌, ◌<◌, ◌≡◌, inl, inr, arith, refl, sym, subst}
use native.Mathlib.Decide.{dec_lt}
use tcp_eyenet.Ttest.Startup.{
  Thread, absent, spawned, indexed, reported, Place, creating, waiting, finished, gave_up, Boot,
  Reach,
}
use tcp_eyenet.Ttest.Startup.Waiting.{Here, IsSafe}
use tcp_eyenet.Ttest.Startup.Safety.{Reach-IsSafe}

-- A worker has the number of its own thread; it has not read the number yet, or has not reported, only
-- while `main` waits for it, with `i` still its number.
abbrev pub Own : Place → ℕ → ℕ → Thread → Type 0
Own p i k absent = Unit
Own p i k spawned = (k ≡ i) × (p ≡ waiting)
Own p i k (indexed idx) = (idx ≡ k) × (k ≡ i) × (p ≡ waiting)
Own p i k (reported idx status) = idx ≡ k

module _ (n : ℕ) where
  Here-Own : (p : Place) (i : ℕ) (t : Thread) (w : ℕ) → Here n p i t w → Own p i i t
  Here-Own creating i t w (e, _) = subst (Own creating i i) (sym e) tt
  Here-Own waiting i t w (_, inl (e, _)) = subst (Own waiting i i) (sym e) (refl, refl)
  Here-Own waiting i t w (_, inr (inl (e, _))) = subst (Own waiting i i) (sym e) (refl, refl, refl)
  Here-Own waiting i t w (_, inr (inr (st, e, _))) = subst (Own waiting i i) (sym e) refl
  Here-Own finished i t w (e, _) = subst (Own finished i i) (sym e) tt
  Here-Own gave_up i t w (inl e) = subst (Own gave_up i i) (sym e) tt
  Here-Own gave_up i t w (inr (st, e)) = subst (Own gave_up i i) (sym e) refl

  safe-Own : (s : Boot) (k : ℕ) → IsSafe n s → Own s.place s.i k (s.threads k)
  safe-Own s k h = elim (dec_lt k s.i) [
    | yes below ↦ subst (Own s.place s.i k) (sym (h.before k below)) refl
    | no notbelow ↦ elim (dec_lt s.i k) [
      | yes above ↦ subst (Own s.place s.i k) (sym (h.after k above)) tt
      | no notabove ↦
          let e : s.i ≡ k = omega arith in
          subst (λ j. Own s.place s.i j (s.threads j)) e
            (Here-Own s.place s.i (s.threads s.i) (s.wstatus s.i) h.here)
    ]
  ]

  -- All workers are at work when `main` has come through its loop.
  finished_all :
      (s : Boot) (k : ℕ) → IsSafe n s → s.place ≡ finished → k < n → s.threads k ≡ reported k 1
  finished_all s k h e b =
      let (a, i) = subst (λ p. Here n p s.i (s.threads s.i) (s.wstatus s.i)) e h.here in
      h.before k (omega (arith, i))

  -- However the steps of `main` and of its fewer than 2^32 workers alternate: each worker has read its own number, never
  -- another's; it reads it only while `main` waits for it, so that `i` still has it, and never after
  -- `main` has left the loop or returned; and when `main` comes through its loop, every worker is at work.
  pub startup-Own :
      {s : Boot} (k : ℕ)
      → n < 2 ^ 32
      → Reach n s
      → Own s.place s.i k (s.threads k) × (s.place ≡ finished → k < n → s.threads k ≡ reported k 1)
  startup-Own {s} k small r = let h = Reach-IsSafe n small r in (safe-Own s k h, finished_all s k h)
