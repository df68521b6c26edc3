-- ===== src/Ttest/Worker/Client.antt =====
-- All the rounds of a worker of ttest/ttsnd.c, from what `parse_args` and `calc_pkts_rate` give it.
use tcp_eyenet.Prelude.{ℕ, suc, ◌*◌, ◌≤◌, ◌≡◌, List, [], ◌∷◌, All, arith, refl, ◌∙◌, subst, some}
use native.Mathlib.Nat.{mul-le-mul}
use tcp_eyenet.Ttest.Params.{ProgParam}
use tcp_eyenet.Ttest.Params.Range.{InRange}
use tcp_eyenet.Ttest.Pacing.{calc_pkts_rate}
use tcp_eyenet.Ttest.Pacing.Target.{Paced, calc_pkts_rate-Paced}
use tcp_eyenet.Ttest.Worker.{
  SWorker, Round, Ended, ended, division_by_zero, cut_short, start_worker, send_round, send_rounds,
  and_then,
}
use tcp_eyenet.Ttest.Worker.Running.{IsLedger, Fits, Answered, Steady, send_round-Steady}

-- The worker at the end: its counters agree with the packets that went out.
abbrev pub Follows : ℕ → ℕ → Ended → Type 0
Follows g psize (ended v) = (v.psize ≡ psize) × IsLedger g v × Fits v
Follows g psize division_by_zero = 1 ≤ 0
Follows g psize cut_short = 1 ≤ 0

pub Answered-same :
    (w v : SWorker) (rs : List Round)
    → v.npkts_burst ≡ w.npkts_burst
    → v.ibg ≡ w.ibg
    → All (Answered w) rs
    → All (Answered v) rs
Answered-same w v [] e f h = tt
Answered-same w v (r ∷ rs) e f (h, hs) =
    ((omega (arith, h.0, f), omega (arith, h.1, e)), Answered-same w v rs e f hs)

Steady-trans :
    (g : ℕ) (w v : SWorker) (x : Ended)
    → v.psize ≡ w.psize
    → v.npkts_burst ≡ w.npkts_burst
    → v.ibg ≡ w.ibg
    → Steady g v x
    → Steady g w x
Steady-trans g w v (ended u) ep eb ei (p, b, i, l, f) = (p ∙ ep, b ∙ eb, i ∙ ei, l, f)
Steady-trans g w v division_by_zero ep eb ei h = h
Steady-trans g w v cut_short ep eb ei h = h

-- The rounds leave the parameters of a worker, and what is said of it holds after them.
pub send_rounds-Steady :
    (g : ℕ) (w : SWorker) (rs : List Round)
    → IsLedger g w
    → Fits w
    → All (Answered w) rs
    → Steady g w (send_rounds w rs)
unfolding send_rounds
send_rounds-Steady g w [] h k a = (refl, refl, refl, h, k)
send_rounds-Steady g w (r ∷ rs) h k (a, more) =
    go_on (send_round w r) (send_round-Steady g w r h k a) (λ v. send_rounds-Steady g v rs)
  where
    go_on :
        (e : Ended)
        → Steady g w e
        → ((v : SWorker)
            → IsLedger g v
            → Fits v
            → All (Answered v) rs
            → Steady g v (send_rounds v rs))
        → Steady g w (and_then e (λ v. send_rounds v rs))
    go_on (ended v) (ep, eb, ei, l, f) next =
        Steady-trans g w v (send_rounds v rs) ep eb ei
          (next v l f (Answered-same w v rs eb ei more))
    go_on division_by_zero x next = x
    go_on cut_short x next = x

Steady-Follows : (g : ℕ) (w : SWorker) (x : Ended) → Steady g w x → Follows g w.psize x
Steady-Follows g w (ended v) (ep, _, _, l, f) = (ep, l, f)
Steady-Follows g w division_by_zero h = h
Steady-Follows g w cut_short h = h

start_worker-IsLedger : (g psize np ibg : ℕ) → IsLedger g (start_worker psize np ibg g)
unfolding start_worker
start_worker-IsLedger g psize np ibg = record {
  numbered = (refl, refl, omega arith);
  npkts = omega arith;
  nbytes = omega arith;
}

start_worker-Fits :
    (g psize np ibg rate : ℕ)
    → 1 ≤ psize
    → rate ≤ 1000000
    → (50 ≤ ibg) × (ibg ≤ 125)
    → np * (psize * 8) ≤ rate * suc ibg
    → Fits (start_worker psize np ibg g)
unfolding start_worker
start_worker-Fits g psize np ibg rate a b c d = record {
  psize = a;
  bytes =
      omega
        (arith, d, mul-le-mul {n₁ = rate} {m₁ = suc ibg} {n₂ = 1000000} {m₂ = 126} b (omega arith));
  ibg = (omega (arith, c), omega (arith, c));
  least = omega arith;
  most = omega arith;
}

-- The worker that `calc_pkts_rate` sets up, from parameters that `parse_args` lets through
pub started-Fits :
    (g : ℕ) (p : ProgParam) (ibg np : ℕ)
    → InRange p
    → calc_pkts_rate p.rate_kbps p.pktsize ≡ some (ibg, np)
    → IsLedger g (start_worker p.pktsize np ibg g) × Fits (start_worker p.pktsize np ibg g)
started-Fits g p ibg np h e =
    let paced = subst (Paced p.rate_kbps p.pktsize) e (calc_pkts_rate-Paced p h) in
    (
      start_worker-IsLedger g p.pktsize np ibg,
      start_worker-Fits g p.pktsize np ibg p.rate_kbps (omega (arith, h.pktsize.0)) h.rate_kbps.1
          (paced.1, paced.2) paced.3,
    )

-- The rounds of a worker of a client whose parameters `parse_args` lets through, with the burst and the
-- gap of `calc_pkts_rate`, where each round takes at most 250 gaps and sendto answers for each packet:
-- they all end, nothing divides by zero, and at the end `npkts_tx` and `nbytes_tx` are the packets that
-- went out and their bytes, numbered on from 1 after the first.
pub client-Follows :
    (garbage : ℕ) (p : ProgParam) (ibg np : ℕ) (rs : List Round)
    → InRange p
    → calc_pkts_rate p.rate_kbps p.pktsize ≡ some (ibg, np)
    → All (Answered (start_worker p.pktsize np ibg garbage)) rs
    → Follows garbage p.pktsize (send_rounds (start_worker p.pktsize np ibg garbage) rs)
unfolding start_worker
client-Follows g p ibg np rs h e a =
    let w = start_worker p.pktsize np ibg g in
    let (l, f) = started-Fits g p ibg np h e in
    Steady-Follows g w (send_rounds w rs) (send_rounds-Steady g w rs l f a)
