-- ===== src/Ttest/Startup/Waiting.antt =====
-- The thread that `main` waits for while the workers of ttest start.
use tcp_eyenet.Prelude.{ℕ, ◌≤◌, ◌<◌, ◌≡◌, ◌≢◌, ◌⊎◌, ◌∙◌, inl, inr, arith, refl, ap, sym, subst}
use native.Mathlib.Decide.{dec_lt}
use tcp_eyenet.Ttest.Startup.{
  Thread, absent, spawned, indexed, reported, Place, creating, waiting, finished, gave_up, Boot,
}

-- The thread of the worker that `main` is about, with its status
abbrev pub Here : ℕ → Place → ℕ → Thread → ℕ → Type 0
Here n creating i t w = (t ≡ absent) × (i ≤ n)
Here n waiting i t w =
    (i < n)
    × (((t ≡ spawned) × (w ≡ 0))
        ⊎ (((t ≡ indexed i) × (w ≡ 0)) ⊎ ((status : ℕ) × (t ≡ reported i status) × (w ≡ status))))
Here n finished i t w = (t ≡ absent) × (i ≡ n)
Here n gave_up i t w = (t ≡ absent) ⊎ ((status : ℕ) × (t ≡ reported i status))

pub record IsSafe (n : ℕ) (s : Boot) : Type 0 where
  pub before : (k : ℕ) → k < s.i → s.threads k ≡ reported k 1
  pub after : (k : ℕ) → s.i < k → s.threads k ≡ absent
  pub here : Here n s.place s.i (s.threads s.i) (s.wstatus s.i)

-- A thread that has not reported is the one that `main` waits for.
abbrev pub Young : Thread → Type 0
Young absent = ⊥
Young spawned = Unit
Young (indexed j) = Unit
Young (reported j st) = ⊥

abbrev pub IsSpawned : Thread → Type 0
IsSpawned absent = ⊥
IsSpawned spawned = Unit
IsSpawned (indexed j) = ⊥
IsSpawned (reported j st) = ⊥

abbrev pub index_of : Thread → ℕ
index_of absent = 0
index_of spawned = 0
index_of (indexed j) = j
index_of (reported j st) = j

module _ (n : ℕ) where
  pub waits :
      (s : Boot)
      → IsSafe n s
      → s.place ≡ waiting
      → Here n waiting s.i (s.threads s.i) (s.wstatus s.i)
  waits s h e = subst (λ p. Here n p s.i (s.threads s.i) (s.wstatus s.i)) e h.here

  pub creates_here :
      (s : Boot) → IsSafe n s → s.place ≡ creating → (s.threads s.i ≡ absent) × (s.i ≤ n)
  creates_here s h e = subst (λ p. Here n p s.i (s.threads s.i) (s.wstatus s.i)) e h.here

  Young-place : (p : Place) (i : ℕ) (t : Thread) (w : ℕ) → Young t → Here n p i t w → p ≡ waiting
  Young-place creating i t w y (e, _) = absurd (subst Young e y)
  Young-place waiting i t w y h = refl
  Young-place finished i t w y (e, _) = absurd (subst Young e y)
  Young-place gave_up i t w y (inl e) = absurd (subst Young e y)
  Young-place gave_up i t w y (inr (st, e)) = absurd (subst Young e y)

  pub Young-here :
      (s : Boot) (k : ℕ) → IsSafe n s → Young (s.threads k) → (k ≡ s.i) × (s.place ≡ waiting)
  Young-here s k h y = elim (dec_lt k s.i) [
    | yes below ↦ absurd (subst Young (h.before k below) y)
    | no notbelow ↦ elim (dec_lt s.i k) [
      | yes above ↦ absurd (subst Young (h.after k above) y)
      | no notabove ↦
          let e : k ≡ s.i = omega arith in
          (
            e,
            Young-place s.place s.i (s.threads s.i) (s.wstatus s.i)
                (subst (λ j. Young (s.threads j)) e y) h.here,
          )
    ]
  ]

  -- The thread that `main` waits for has reported, once its `wstatus` is not 0.
  pub waited :
      (s : Boot)
      → IsSafe n s
      → s.place ≡ waiting
      → s.wstatus s.i ≢ 0
      → (s.i < n) × (s.threads s.i ≡ reported s.i (s.wstatus s.i))
  waited s h wait nonzero =
      let (lt, cases) = waits s h wait in
      elim cases [
        | inl (a, b) ↦ absurd (nonzero b)
        | inr (inl (a, b)) ↦ absurd (nonzero b)
        | inr (inr (st, a, b)) ↦ (lt, a ∙ ap (reported s.i) (sym b))
      ]
