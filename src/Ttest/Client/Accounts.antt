-- ===== src/Ttest/Client/Accounts.antt =====
-- What the reports of a client of ttest/ttsnd.c account for.
use tcp_eyenet.Prelude.{
  OnSome, ℕ, ◌+◌, ◌%◌, ◌^◌, ◌<◌, ◌≡◌, Bool, Option, none, some, maybe, List, All, if_either, arith,
  refl, ap, sym, subst, ◌∙◌,
}
use tcp_eyenet.Ttest.Params.{ProgParam}
use tcp_eyenet.Ttest.Params.Range.{InRange}
use tcp_eyenet.Ttest.Pacing.{calc_pkts_rate}
use tcp_eyenet.Ttest.Worker.{Round}
use tcp_eyenet.Ttest.Worker.Running.{Answered}
use tcp_eyenet.Ttest.Reports.{Report, SThread, TSnd}
use tcp_eyenet.Ttest.Reports.Lines.{reported}
use tcp_eyenet.Ttest.Client.{
  SLaunch, start_client, client_of, Client, started, failed, no_rate, Period, watch, finish,
}
use tcp_eyenet.Ttest.Client.Rounds.{gone_out}
use tcp_eyenet.Ttest.Client.Watching.{Even, AllAnswered, watch-Even, finish-counts}
use tcp_eyenet.Ttest.Client.Starting.{model, Fresh, start_sworkers-Fresh}

-- What holds of a client that starts
abbrev OnStarted : (TSnd → Type 0) → Client → Type 0
OnStarted P (started t) = P t
OnStarted P failed = Unit
OnStarted P no_rate = Unit

OnStarted-maybe :
    (P : TSnd → Type 0) (Q : List SThread → Type 0) (o : Option (List SThread))
    (make : List SThread → TSnd)
    → OnSome Q o
    → ((ts : List SThread) → Q ts → P (make ts))
    → OnStarted P (maybe failed o (λ ts. started (make ts)))
OnStarted-maybe P Q none make h f = tt
OnStarted-maybe P Q (some ts) make h f = f ts h

-- An interval and a duration are numbers of 32 bits.
abbrev pub Is32Bits : ProgParam → Type 0
Is32Bits p = (p.reporting_interval < 2 ^ 32) × (p.duration < 2 ^ 32)

start_client-Even :
    (p : ProgParam) (ibg np : ℕ) (allocated : Bool) (launch : ℕ → SLaunch)
    → InRange p
    → Is32Bits p
    → calc_pkts_rate p.rate_kbps p.pktsize ≡ some (ibg, np)
    → OnStarted
        (λ t. Even (model p ibg np) t 0 × (t.n_cpus ≡ p.n_cpus % 2 ^ 8))
        (start_client p allocated launch)
unfolding start_client client_of
start_client-Even p ibg np allocated launch h b c = rw c (
    if_either (OnStarted (λ t. Even (model p ibg np) t 0 × (t.n_cpus ≡ p.n_cpus % 2 ^ 8))) allocated
      (OnStarted-maybe (λ t. Even (model p ibg np) t 0 × (t.n_cpus ≡ p.n_cpus % 2 ^ 8))
        (Fresh (model p ibg np)) _ (client_of p ibg np)
        (start_sworkers-Fresh p ibg np h c launch 0 p.n_cpus)
        (λ ts (works, z). (
          record {
            works = works;
            interval = (h.reporting_interval, b.0);
            duration = (h.duration, b.1);
            sums = ap (λ n. n % 2 ^ 64) (sym (z (p.n_cpus % 2 ^ 8)).1);
            prevs = ap (λ n. n % 2 ^ 64) ((z (p.n_cpus % 2 ^ 8)).0 ∙ sym (z (p.n_cpus % 2 ^ 8)).1);
          },
          refl,
        )))
      tt)

-- A client that starts, with parameters that `parse_args` lets through, whose workers are answered and
-- take at most 250 gaps for each round: no worker and no report divides by zero. Whenever its loop is at
-- its test, the sums of its reports are, modulo 2^64, the packets that went out up to the last report
-- from the workers of the reports, which are the first n_cpus modulo 2^8; and the last report, after
-- what the workers still send, is of all packets that went out from them.
pub watch-reported :
    (p : ProgParam) (ibg np : ℕ) (allocated : Bool) (launch : ℕ → SLaunch) (periods : List Period)
    (rounds : ℕ → List Round) {t : TSnd}
    → InRange p
    → Is32Bits p
    → calc_pkts_rate p.rate_kbps p.pktsize ≡ some (ibg, np)
    → start_client p allocated launch ≡ started t
    → AllAnswered (model p ibg np) periods
    → ((i : ℕ) → All (Answered (model p ibg np)) (rounds i))
    → (a : TSnd × List Report × Bool) × (watch 0 t periods ≡ some a)
      × (reported a.1 % 2 ^ 64 ≡ gone_out (p.n_cpus % 2 ^ 8) a.0.workers % 2 ^ 64)
      × (b : TSnd × Report) × (finish a.0 rounds ≡ some b)
      × (b.1.spkts % 2 ^ 64 ≡ gone_out (p.n_cpus % 2 ^ 8) b.0.workers % 2 ^ 64)
watch-reported p ibg np allocated launch periods rounds {t} h b c e a l =
    let w = model p ibg np in
    let (even, n) =
      subst (OnStarted (λ u. Even w u 0 × (u.n_cpus ≡ p.n_cpus % 2 ^ 8))) e
        (start_client-Even p ibg np allocated launch h b c) in
    let (r, f, after, m) = watch-Even w 0 t periods 0 a even in
    let (s, g, k) = finish-counts w r.0 rounds (0 + reported r.1) l after in
    let same : r.0.n_cpus ≡ p.n_cpus % 2 ^ 8 = m ∙ n in
    (
      r,
      f,
      omega (arith, after.sums, ap (λ x. gone_out x r.0.workers) same),
      s,
      g,
      omega (arith, k, ap (λ x. gone_out x s.0.workers) same),
    )
