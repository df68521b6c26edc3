-- ===== src/Ttest/Client/Rounds.antt =====
-- The workers of ttest/ttsnd.c between two reports.
use tcp_eyenet.Prelude.{
  ℕ, zero, suc, ◌+◌, ◌≡◌, leb, ◌==◌, some, List, [], ◌∷◌, All, if_either, length, arith, refl, ap,
  ◌∙◌,
}
use tcp_eyenet.Ttest.Worker.{
  SStats, SWorker, Round, Ended, ended, division_by_zero, cut_short, send_burst, count_burst,
  next_qouta, send_round, send_rounds, and_then,
}
use tcp_eyenet.Ttest.Worker.Running.{IsLedger, Fits, Answered, Steady}
use tcp_eyenet.Ttest.Worker.Client.{Answered-same, send_rounds-Steady}
use tcp_eyenet.Ttest.Reports.{SThread}
use tcp_eyenet.Ttest.Client.{resume, advance}

-- The rounds do not touch what the last report left.
abbrev KeepsPrev : SWorker → Ended → Type 0
KeepsPrev w (ended v) = v.stats_prev ≡ w.stats_prev
KeepsPrev w division_by_zero = Unit
KeepsPrev w cut_short = Unit

send_round-KeepsPrev : (w : SWorker) (r : Round) → KeepsPrev w (send_round w r)
unfolding send_round next_qouta count_burst
send_round-KeepsPrev w r =
    let b = send_burst w.qouta 0 r.sent (w.seq, w.hdr_seq, w.wire) in
    if_either (KeepsPrev w) b.1
      (if_either (KeepsPrev w) (leb w.ibg r.delta) (if_either (KeepsPrev w) (w.ibg == 0) tt refl)
        refl)
      tt

KeepsPrev-trans :
    (w v : SWorker) (x : Ended) → v.stats_prev ≡ w.stats_prev → KeepsPrev v x → KeepsPrev w x
KeepsPrev-trans w v (ended u) e f = f ∙ e
KeepsPrev-trans w v division_by_zero e f = f
KeepsPrev-trans w v cut_short e f = f

KeepsPrev-and_then :
    (w : SWorker) (x : Ended) (next : SWorker → Ended)
    → KeepsPrev w x
    → ((v : SWorker) → KeepsPrev v (next v))
    → KeepsPrev w (and_then x next)
KeepsPrev-and_then w (ended v) next e f = KeepsPrev-trans w v (next v) e (f v)
KeepsPrev-and_then w division_by_zero next e f = e
KeepsPrev-and_then w cut_short next e f = e

send_rounds-KeepsPrev : (w : SWorker) (rs : List Round) → KeepsPrev w (send_rounds w rs)
unfolding send_rounds
send_rounds-KeepsPrev w [] = refl
send_rounds-KeepsPrev w (r ∷ rs) =
    KeepsPrev-and_then w (send_round w r) (λ v. send_rounds v rs) (send_round-KeepsPrev w r)
      (λ v. send_rounds-KeepsPrev v rs)

-- A worker at work with the burst and the gap of `w`
abbrev pub Works : SWorker → SThread → Type 0
Works w t =
    (g : ℕ) × IsLedger g t.worker
    × Fits t.worker
    × (t.worker.npkts_burst ≡ w.npkts_burst)
    × (t.worker.ibg ≡ w.ibg)

-- The packets that the first workers had sent at the last report, and those that went out
abbrev pub before : ℕ → List SThread → ℕ
before zero ws = 0
before (suc n) [] = 0
before (suc n) (w ∷ ws) = w.worker.stats_prev.npkts_tx + before n ws

abbrev pub gone_out : ℕ → List SThread → ℕ
gone_out zero ws = 0
gone_out (suc n) [] = 0
gone_out (suc n) (w ∷ ws) = length w.worker.wire + gone_out n ws

-- One worker after its rounds
resume-Works :
    (w : SWorker) (t : SThread) (rs : List Round)
    → Works w t
    → All (Answered w) rs
    → (u : SThread) × (resume t (send_rounds t.worker rs) ≡ some u)
      × Works w u
      × (u.worker.stats_prev ≡ t.worker.stats_prev)
resume-Works w t rs (g, l, f, b, i) a =
    by_end (send_rounds t.worker rs)
      (send_rounds-Steady g t.worker rs l f (Answered-same w t.worker rs b i a))
      (send_rounds-KeepsPrev t.worker rs)
  where
    by_end :
        (x : Ended)
        → Steady g t.worker x
        → KeepsPrev t.worker x
        → (u : SThread) × (resume t x ≡ some u)
          × Works w u
          × (u.worker.stats_prev ≡ t.worker.stats_prev)
    by_end (ended v) (p, b', i', l', f') k =
        (record t { worker = v }, refl, (g, l', f', b' ∙ b, i' ∙ i), k)
    by_end division_by_zero h k = absurd (omega arith)
    by_end cut_short h k = absurd (omega arith)

before_step :
    (t u : SThread) (ts us : List SThread)
    → u.worker.stats_prev ≡ t.worker.stats_prev
    → ((n : ℕ) → before n us ≡ before n ts)
    → (n : ℕ) → before n (u ∷ us) ≡ before n (t ∷ ts)
before_step t u ts us e f zero = refl
before_step t u ts us e f (suc n) = omega (arith, ap (λ (x : SStats). x.npkts_tx) e, f n)

-- All workers end their rounds, and keep what the last report left.
pub advance-Works :
    (w : SWorker) (rounds : ℕ → List Round) (i : ℕ) (ts : List SThread)
    → ((j : ℕ) → All (Answered w) (rounds j))
    → All (Works w) ts
    → (us : List SThread) × (advance rounds i ts ≡ some us)
      × All (Works w) us
      × ((n : ℕ) → before n us ≡ before n ts)
unfolding advance
advance-Works w rounds i [] a h = ([], refl, tt, λ n. refl)
advance-Works w rounds i (t ∷ ts) a (h, hs) =
    let (u, e, k, p) = resume-Works w t (rounds i) h (a i) in
    let (us, es, ks, ps) = advance-Works w rounds (i + 1) ts a hs in
    (u ∷ us, rw (e, es) refl, (k, ks), before_step t u ts us p ps)
