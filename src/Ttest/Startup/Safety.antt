-- ===== src/Ttest/Startup/Safety.antt =====
-- The threads of ttest while they start: what holds after each of their steps.
use tcp_eyenet.Prelude.{ℕ, ◌+◌, ◌%◌, ◌^◌, ◌<◌, ◌≡◌, ◌≢◌, ◌∙◌, inl, inr, arith, refl, ap, sym, subst}
use native.Mathlib.Decide.{dec_lt}
use tcp_eyenet.Ttest.Startup.Waiting.{
  Here, IsSafe, Young, IsSpawned, index_of, waits, creates_here, Young-here, waited,
}
use tcp_eyenet.Ttest.Startup.{
  spawned, indexed, reported, creating, waiting, Boot, set_at, Step, creates, fails, reads, reports,
  proceeds, gives_up, ends, Reach, begins, later,
}

module _ {ℓ} {A : Type ℓ} where
  set_at_same : (k : ℕ) (v : A) (f : ℕ → A) → set_at k v f k ≡ v
  set_at_same k v f = ground arith

  set_at_other : (k j : ℕ) (v : A) (f : ℕ → A) → j ≢ k → set_at k v f j ≡ f j
  set_at_other k j v f h = ground arith

  set_at_here : (i k : ℕ) (v : A) (f : ℕ → A) → i ≡ k → set_at k v f i ≡ v
  set_at_here i k v f h = ground arith

module _ (n : ℕ) where
  creates-IsSafe :
      (s : Boot)
      → s.place ≡ creating
      → s.i < n
      → IsSafe n s
      → IsSafe n (record {
        i = s.i;
        place = waiting;
        wstatus = set_at s.i 0 s.wstatus;
        threads = set_at s.i spawned s.threads;
      })
  creates-IsSafe s e lt h = record {
    before = λ k b. set_at_other s.i k spawned s.threads (omega arith) ∙ h.before k b;
    after = λ k b. set_at_other s.i k spawned s.threads (omega arith) ∙ h.after k b;
    here = (lt, inl (set_at_same s.i spawned s.threads, set_at_same s.i 0 s.wstatus));
  }

  reads-IsSafe :
      (s : Boot) (k : ℕ)
      → s.threads k ≡ spawned
      → IsSafe n s
      → IsSafe n (record {
        i = s.i;
        place = s.place;
        wstatus = s.wstatus;
        threads = set_at k (indexed s.i) s.threads;
      })
  reads-IsSafe s k e h =
      let (own, wait) = Young-here n s k h (subst Young (sym e) tt) in
      let t = indexed s.i in
      let (lt, cases) = waits n s h wait in
      let unset : s.wstatus s.i ≡ 0 = elim cases [
        | inl (a, b) ↦ b
        | inr (inl (a, b)) ↦ b
        | inr (inr (st, a, b)) ↦ absurd (subst Young (sym e ∙ ap s.threads own ∙ a) tt)
      ] in
      record {
        before = λ j b. set_at_other k j t s.threads (omega arith) ∙ h.before j b;
        after = λ j b. set_at_other k j t s.threads (omega arith) ∙ h.after j b;
        here =
            subst (λ p. Here n p s.i (set_at k t s.threads s.i) (s.wstatus s.i)) (sym wait)
              (lt, inr (inl (set_at_here s.i k t s.threads (sym own), unset)));
      }

  reports-IsSafe :
      (s : Boot) (k idx status : ℕ)
      → s.threads k ≡ indexed idx
      → IsSafe n s
      → IsSafe n (record {
        i = s.i;
        place = s.place;
        wstatus = set_at idx status s.wstatus;
        threads = set_at k (reported idx status) s.threads;
      })
  reports-IsSafe s k idx status e h =
      let (own, wait) = Young-here n s k h (subst Young (sym e) tt) in
      let t = reported idx status in
      let (lt, cases) = waits n s h wait in
      let there : s.threads s.i ≡ indexed idx = ap s.threads (sym own) ∙ e in
      let same : s.i ≡ idx = elim cases [
        | inl (a, b) ↦ absurd (subst IsSpawned (sym a ∙ there) tt)
        | inr (inl (a, b)) ↦ ap index_of (sym a ∙ there)
        | inr (inr (st, a, b)) ↦ absurd (subst Young (sym there ∙ a) tt)
      ] in
      let told : set_at k t s.threads s.i ≡ reported s.i status =
        set_at_here s.i k t s.threads (sym own) ∙ ap (λ j. reported j status) (sym same) in
      record {
        before = λ j b. set_at_other k j t s.threads (omega arith) ∙ h.before j b;
        after = λ j b. set_at_other k j t s.threads (omega arith) ∙ h.after j b;
        here =
            subst (λ p. Here n p s.i (set_at k t s.threads s.i) (set_at idx status s.wstatus s.i))
              (sym wait) (lt, inr (inr (status, told, set_at_here s.i idx status s.wstatus same)));
      }

  proceeds-IsSafe :
      (s : Boot)
      → n < 2 ^ 32
      → s.place ≡ waiting
      → s.wstatus s.i ≡ 1
      → IsSafe n s
      → IsSafe n (record {
        i = (s.i + 1) % 2 ^ 32;
        place = creating;
        wstatus = s.wstatus;
        threads = s.threads;
      })
  proceeds-IsSafe s small wait one h =
      let (lt, told) = waited n s h wait (λ z. absurd (omega (arith, one, z))) in
      let next : (s.i + 1) % 2 ^ 32 ≡ s.i + 1 = omega arith in
      record {
        before = λ k b. elim (dec_lt k s.i) [
          | yes below ↦ h.before k below
          | no notbelow ↦
              let e : k ≡ s.i = omega arith in
              ap s.threads e ∙ told ∙ (λ j. reported (sym e j) (one j))
        ];
        after = λ k b. h.after k (omega arith);
        here = (h.after ((s.i + 1) % 2 ^ 32) (omega arith), omega arith);
      }

  Step-IsSafe : {s t : Boot} → n < 2 ^ 32 → IsSafe n s → Step n s t → IsSafe n t
  Step-IsSafe {s} small h (creates e lt) = creates-IsSafe s e lt h
  Step-IsSafe {s} small h (fails e lt) = record {
    before = h.before;
    after = h.after;
    here = inl (creates_here n s h e).0;
  }
  Step-IsSafe {s} small h (reads k e) = reads-IsSafe s k e h
  Step-IsSafe {s} small h (reports k idx status e one) = reports-IsSafe s k idx status e h
  Step-IsSafe {s} small h (proceeds e one) = proceeds-IsSafe s small e one h
  Step-IsSafe {s} small h (gives_up e nonzero none_) = record {
    before = h.before;
    after = h.after;
    here = inr (s.wstatus s.i, (waited n s h e nonzero).1);
  }
  Step-IsSafe {s} small h (ends e le) =
      let (a, b) = creates_here n s h e in
      record { before = h.before; after = h.after; here = (a, omega arith) }

  pub Reach-IsSafe : {s : Boot} → n < 2 ^ 32 → Reach n s → IsSafe n s
  Reach-IsSafe small (begins memory) = record {
    before = λ k b. absurd (omega (arith, b));
    after = λ k b. refl;
    here = (refl, omega arith);
  }
  Reach-IsSafe small (later r t) = Step-IsSafe small (Reach-IsSafe small r) t
