-- ===== src/Ttest/Worker/Rate.antt =====
-- The worker of ttest/ttsnd.c keeps to the rate: what goes out against the clock.
use tcp_eyenet.Prelude.{
  ℕ, ◌+◌, ◌-◌, ◌*◌, ◌/◌, ◌%◌, ◌^◌, ◌≤◌, ◌<◌, ◌≡◌, ◌∙◌, leb, ◌==◌, some, List, [], ◌∷◌, OnSome,
  if_either, length, arith, refl, subst, sym, ap,
}
use native.Mathlib.Nat.{mul-le-mul_left, mul-le-mul_right, div-mul-le_self}
use tcp_eyenet.Ttest.Clock.{Timespec, get_time_usec}
use tcp_eyenet.Ttest.Worker.{
  SWorker, Round, Ended, ended, division_by_zero, cut_short, send_burst, count_burst, next_qouta,
  send_round,
}
use tcp_eyenet.Ttest.Worker.Ledger.{Within, send_burst-Within}
use tcp_eyenet.Ttest.Worker.Running.{IsLedger, Fits, Steady, burst_small, send_round-Steady}
use tcp_eyenet.Ttest.Worker.Chained.{OnTime, Chain, comes_back-after}
use tcp_eyenet.Ttest.Worker.Timed.{Timed, delta_of, comes_back, of_ended, timed_round, timed_rounds}

-- The worker is in its budget after `elapsed` microseconds: with the burst that it plans next, no more
-- packets than a burst for each gap, and one burst.
abbrev pub InBudget : ℕ → SWorker → Type 0
InBudget elapsed w = (length w.wire + w.qouta) * w.ibg ≤ w.npkts_burst * (w.ibg + elapsed)

-- A round sends at most the burst that was planned, and plans for the next one no more than what the
-- time it takes gives.
abbrev Costs : SWorker → ℕ → Ended → Type 0
Costs w elapsed (ended v) =
    (length v.wire ≤ length w.wire + w.qouta)
    × (v.qouta * w.ibg ≤ w.npkts_burst * elapsed)
    × (v.ibg ≡ w.ibg)
    × (v.npkts_burst ≡ w.npkts_burst)
Costs w elapsed division_by_zero = Unit
Costs w elapsed cut_short = Unit

next_qouta-Costs :
    (w u : SWorker) (delta elapsed : ℕ)
    → length u.wire ≤ length w.wire + w.qouta
    → u.ibg ≡ w.ibg
    → u.npkts_burst ≡ w.npkts_burst
    → w.ibg ≤ elapsed
    → delta ≤ elapsed
    → Costs w elapsed (next_qouta u delta)
unfolding next_qouta
next_qouta-Costs w u delta elapsed a ei eb h k =
    let short : u.npkts_burst * w.ibg ≤ w.npkts_burst * elapsed =
      rw eb (mul-le-mul_left w.npkts_burst h) in
    let long : u.npkts_burst * delta % 2 ^ 64 / u.ibg * w.ibg ≤ w.npkts_burst * elapsed =
      rw (eb, ei)
        (omega (
          arith,
          div-mul-le_self (w.npkts_burst * delta % 2 ^ 64) w.ibg,
          mul-le-mul_left w.npkts_burst k,
        )) in
    if_either (Costs w elapsed) (leb u.ibg delta)
      (if_either (Costs w elapsed) (u.ibg == 0) tt (a, long, ei, eb)) (a, short, ei, eb)

send_round-Costs :
    (w : SWorker) (r : Round) (elapsed : ℕ)
    → w.qouta < 2 ^ 32
    → w.ibg ≤ elapsed
    → r.delta ≤ elapsed
    → Costs w elapsed (send_round w r)
unfolding send_round count_burst Within
send_round-Costs w r elapsed small h k =
    let b = send_burst w.qouta 0 r.sent (w.seq, w.hdr_seq, w.wire) in
    let within = send_burst-Within w.qouta 0 r.sent (w.seq, w.hdr_seq, w.wire) small in
    if_either (Costs w elapsed) b.1
      (next_qouta-Costs w (count_burst w b.0) r.delta elapsed (omega (arith, within.1)) refl refl h
        k)
      tt

budget_step :
    (sent q sent' q' ibg burst a el a' : ℕ)
    → (sent + q) * ibg ≤ burst * (ibg + a)
    → sent' ≤ sent + q
    → q' * ibg ≤ burst * el
    → a + el ≤ a'
    → (sent' + q') * ibg ≤ burst * (ibg + a')
budget_step sent q sent' q' ibg burst a el a' h k l m = omega (
  arith,
  mul-le-mul_right {m = sent'} {n = sent + q} ibg k,
  mul-le-mul_left {m = a + el} {n = a'} burst m,
)

-- A round that ends, by what is known of it
ends :
    (g : ℕ) (w : SWorker) (elapsed : ℕ) (e : Ended)
    → Steady g w e
    → Costs w elapsed e
    → (v : SWorker) × (of_ended e ≡ some v)
      × IsLedger g v
      × Fits v
      × (length v.wire ≤ length w.wire + w.qouta)
      × (v.qouta * w.ibg ≤ w.npkts_burst * elapsed)
      × (v.ibg ≡ w.ibg)
      × (v.npkts_burst ≡ w.npkts_burst)
      × (v.psize ≡ w.psize)
ends g w elapsed (ended v) (ep, eb, ei, l, f) (a, b, _, _) = (v, refl, l, f, a, b, ei, eb, ep)
ends g w elapsed division_by_zero h c = absurd (omega (arith, h))
ends g w elapsed cut_short h c = absurd (omega (arith, h))

-- After a time that has come to `now`
pub record Keeps (g t0 : ℕ) (w v : SWorker) (now : Timespec) : Type 0 where
  pub ledger : IsLedger g v
  pub fits : Fits v
  pub since : t0 ≤ get_time_usec now
  pub budget : InBudget (get_time_usec now - t0) v
  pub same : (v.ibg ≡ w.ibg) × (v.npkts_burst ≡ w.npkts_burst) × (v.psize ≡ w.psize)

timed_round-Keeps :
    (g t0 : ℕ) (w u : SWorker) (now : Timespec) (r : Timed)
    → Keeps g t0 w u now
    → OnTime w.ibg w.npkts_burst now r
    → (v : SWorker) × (t : Timespec) × (timed_round u r ≡ some (v, t))
      × Keeps g t0 w v t
      × (comes_back w.ibg r ≡ some t)
unfolding timed_round
timed_round-Keeps g t0 w u now r k h =
    let (ei, eb, ep) = k.same in
    let (t, back, since, full, long, brief) =
      comes_back-after w.ibg w.npkts_burst now r (omega (arith, k.fits.ibg.1, ei)) h in
    let el = get_time_usec t - get_time_usec r.start in
    let burst : Round = record { sent = r.sent; delta = delta_of r } in
    let small : u.qouta < 2 ^ 32 = omega (arith, k.fits.most, burst_small u k.fits) in
    let (v, e, l, f, a, b, vi, vb, vp) =
      ends g u el (send_round u burst)
        (send_round-Steady g u burst k.ledger k.fits
          (omega (arith, brief, ei), omega (arith, h.answers, eb)))
        (send_round-Costs u burst el small (omega (arith, full, ei)) (omega arith)) in
    let came : comes_back u.ibg r ≡ some t = ap (λ n. comes_back n r) ei ∙ back in
    (
      v,
      t,
      rw (e, came) refl,
      record {
        ledger = l;
        fits = f;
        since = omega (arith, k.since);
        budget =
            subst
              (λ i. (length v.wire + v.qouta) * i ≤ v.npkts_burst * (i + (get_time_usec t - t0)))
              (sym vi)
              (subst (λ n. (length v.wire + v.qouta) * u.ibg ≤ n * (u.ibg + (get_time_usec t - t0)))
                (sym vb)
                (budget_step (length u.wire) u.qouta (length v.wire) v.qouta u.ibg u.npkts_burst
                  (get_time_usec now - t0) el (get_time_usec t - t0) k.budget a b
                  (omega (arith, k.since))));
        same = (vi ∙ ei, vb ∙ eb, vp ∙ ep);
      },
      back,
    )

-- From a worker in its budget the rounds of a chain all end, and leave it in its budget.
pub timed_rounds-Keeps :
    (g t0 : ℕ) (w u : SWorker) (now : Timespec) (rs : List Timed)
    → Keeps g t0 w u now
    → Chain w.ibg w.npkts_burst now rs
    → (v : SWorker) × (t : Timespec) × (timed_rounds u now rs ≡ some (v, t)) × Keeps g t0 w v t
unfolding timed_rounds
timed_rounds-Keeps g t0 w u now [] k h = (u, now, refl, k)
timed_rounds-Keeps g t0 w u now (r ∷ rs) k (h, more) =
    let (v, t, e, j, back) = timed_round-Keeps g t0 w u now r k h in
    let rest : Chain w.ibg w.npkts_burst t rs =
      subst (OnSome (λ s. Chain w.ibg w.npkts_burst s rs)) back more in
    let (x, s, f, i) = timed_rounds-Keeps g t0 w v t rs j rest in (x, s, rw e f, i)
