-- ===== src/Ttest/Client/Watching.antt =====
-- The loop of reports of `start_client` of ttest/ttsnd.c.
use tcp_eyenet.Prelude.{
  ℕ, ◌+◌, ◌*◌, ◌%◌, ◌^◌, ◌≡◌, Bool, true, false, not, ltb, some, List, [], ◌∷◌, All, Bool-cases,
  inl, inr, arith, refl, subst, ◌∙◌,
}
use tcp_eyenet.Ttest.Worker.{SWorker, Round}
use tcp_eyenet.Ttest.Worker.Running.{Answered}
use tcp_eyenet.Ttest.Reports.{Report, TSnd, report_sender}
use tcp_eyenet.Ttest.Reports.Lines.{IsInterval, reported, sum_up-some}
use tcp_eyenet.Ttest.Client.{Period, watch_one, watch, finish}
use tcp_eyenet.Ttest.Client.Telling.{reported_workers}
use tcp_eyenet.Ttest.Client.Rounds.{Works, before, gone_out, advance-Works}

none_given : (n : ℕ) → n ≡ n + 0
none_given n = omega arith

one_given : (m n k : ℕ) → (m + n) + k ≡ m + (n + k)
one_given m n k = omega arith

module _ (w : SWorker) where
  -- The client at the test of its loop, with the packets that its reports gave
  pub record Even (t : TSnd) (given : ℕ) : Type 0 where
    pub works : All (Works w) t.workers
    pub interval : IsInterval t.reporting_interval
    pub duration : IsInterval t.duration
    pub sums : given % 2 ^ 64 ≡ gone_out t.n_cpus t.workers % 2 ^ 64
    pub prevs : before t.n_cpus t.workers % 2 ^ 64 ≡ gone_out t.n_cpus t.workers % 2 ^ 64

  watch_one-Even :
      (t : TSnd) (k : Period) (given : ℕ)
      → ((i : ℕ) → All (Answered w) (k.rounds i))
      → Even t given
      → (a : TSnd × Report) × (watch_one t k ≡ some a)
        × Even a.0 (given + a.1.spkts)
        × (a.0.n_cpus ≡ t.n_cpus)
  unfolding watch_one report_sender
  watch_one-Even t k given a h =
      let (us, e, works, same) = advance-Works w k.rounds 0 t.workers a h.works in
      let (b, f, tells) =
        reported_workers true t.reporting_interval t.n_cpus w us h.interval works in
      let (r, g, s) = sum_up-some true t.reporting_interval b.1 h.interval in
      (
        (record t { workers = b.0 }, r),
        rw (e, f, g) refl,
        record {
          works = tells.works;
          interval = h.interval;
          duration = h.duration;
          sums = omega (arith, s, tells.lines, tells.wires, h.sums, h.prevs, same t.n_cpus);
          prevs = omega (arith, tells.prevs, tells.wires);
        },
        refl,
      )

  -- In every period every worker is answered.
  abbrev pub AllAnswered : List Period → Type 0
  AllAnswered periods = All (λ (k : Period). (i : ℕ) → All (Answered w) (k.rounds i)) periods

  pub watch-Even :
      (delta : ℕ) (t : TSnd) (periods : List Period) (given : ℕ)
      → AllAnswered periods
      → Even t given
      → (a : TSnd × List Report × Bool) × (watch delta t periods ≡ some a)
        × Even a.0 (given + reported a.1)
        × (a.0.n_cpus ≡ t.n_cpus)
  unfolding watch
  watch-Even delta t [] given a h = (
    (t, [], not (ltb delta (t.duration * 1000000 % 2 ^ 64))),
    refl,
    subst (Even t) (none_given given) h,
    refl,
  )
  watch-Even delta t (k ∷ periods) given (a, more) h =
      elim (Bool-cases (ltb delta (t.duration * 1000000 % 2 ^ 64))) [
        | inl y ↦
            let (b, e, even, c) = watch_one-Even t k given a h in
            let (x, f, g, d) = watch-Even k.delta b.0 periods (given + b.1.spkts) more even in
            (
              (x.0, b.1 ∷ x.1, x.2),
              rw (y, e, f) refl,
              subst (Even x.0) (one_given given b.1.spkts (reported x.1)) g,
              d ∙ c,
            )
        | inr y ↦ ((t, [], true), rw y refl, subst (Even t) (none_given given) h, refl)
      ]

  pub finish-counts :
      (t : TSnd) (rounds : ℕ → List Round) (given : ℕ)
      → ((i : ℕ) → All (Answered w) (rounds i))
      → Even t given
      → (a : TSnd × Report) × (finish t rounds ≡ some a)
        × (a.1.spkts % 2 ^ 64 ≡ gone_out t.n_cpus a.0.workers % 2 ^ 64)
  unfolding finish report_sender
  finish-counts t rounds given a h =
      let (us, e, works, same) = advance-Works w rounds 0 t.workers a h.works in
      let (b, f, tells) = reported_workers false t.duration t.n_cpus w us h.duration works in
      let (r, g, s) = sum_up-some true t.duration b.1 h.duration in
      (
        (record t { cmd = 2; workers = b.0 }, r),
        rw (e, f, g) refl,
        omega (arith, s, tells.lines, tells.wires),
      )
