-- ===== src/Ttest/Client/Starting.antt =====
-- The start of the workers of `start_client` of ttest/ttsnd.c.
use tcp_eyenet.Prelude.{
  ℕ, zero, suc, ◌+◌, ◌≡◌, ◌&&◌, ◌==◌, Option, none, some, maybe, List, [], ◌∷◌, All, if_either,
  length, arith, refl, OnSome,
}
use tcp_eyenet.Prelude.Int.{pos, eqb_ℤ}
use tcp_eyenet.Ttest.Params.{ProgParam}
use tcp_eyenet.Ttest.Params.Range.{InRange}
use tcp_eyenet.Ttest.Pacing.{calc_pkts_rate}
use tcp_eyenet.Ttest.Worker.{SWorker, start_worker}
use tcp_eyenet.Ttest.Worker.Client.{started-Fits}
use tcp_eyenet.Ttest.Reports.{SThread}
use tcp_eyenet.Ttest.Client.{SLaunch, sworker_status, start_sworkers}
use tcp_eyenet.Ttest.Client.Rounds.{Works, before, gone_out}

-- The worker whose burst and gap all workers of a client have
abbrev pub model : ProgParam → ℕ → ℕ → SWorker
model p ibg np = start_worker p.pktsize np ibg 0

-- The workers before their first round
abbrev pub Fresh : SWorker → List SThread → Type 0
Fresh w ts = All (Works w) ts × ((n : ℕ) → (before n ts ≡ 0) × (gone_out n ts ≡ 0))

Fresh-∷ :
    (w : SWorker) (t : SThread) (o : Option (List SThread))
    → Works w t
    → t.worker.stats_prev.npkts_tx ≡ 0
    → length t.worker.wire ≡ 0
    → OnSome (Fresh w) o
    → OnSome (Fresh w) (maybe none o (λ ts. some (t ∷ ts)))
Fresh-∷ w t none h e f k = tt
Fresh-∷ w t (some ts) h e f (k, z) = ((h, k), sums)
  where
    sums : (n : ℕ) → (before n (t ∷ ts) ≡ 0) × (gone_out n (t ∷ ts) ≡ 0)
    sums zero = (refl, refl)
    sums (suc n) = (omega (arith, e, (z n).0), omega (arith, f, (z n).1))

module _ (p : ProgParam) (ibg np : ℕ) (range : InRange p)
    (rate : calc_pkts_rate p.rate_kbps p.pktsize ≡ some (ibg, np)) (launch : ℕ → SLaunch) where
  pub start_sworkers-Fresh :
      (i n : ℕ)
      → OnSome
          (Fresh (model p ibg np))
          (start_sworkers launch (λ garbage. start_worker p.pktsize np ibg garbage) i n)
  unfolding start_sworkers start_worker
  start_sworkers-Fresh i zero = (tt, nothing)
    where
      nothing : (n : ℕ) → (before n [] ≡ 0) × (gone_out n [] ≡ 0)
      nothing zero = (refl, refl)
      nothing (suc n) = (refl, refl)
  start_sworkers-Fresh i (suc n) =
      let (ledger, fits) = started-Fits (launch i).garbage p ibg np range rate in
      if_either (OnSome (Fresh (model p ibg np)))
        (eqb_ℤ (launch i).rc (pos 0) && sworker_status (launch i) == 1)
        (Fresh-∷ (model p ibg np) _ _ ((launch i).garbage, ledger, fits, refl, refl) refl refl
          (start_sworkers-Fresh (i + 1) n))
        tt
