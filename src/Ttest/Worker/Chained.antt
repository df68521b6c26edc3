-- ===== src/Ttest/Worker/Chained.antt =====
-- Rounds of the worker of ttest/ttsnd.c that follow one another in time.
use tcp_eyenet.Prelude.{
  ℕ, ◌+◌, ◌*◌, ◌%◌, ◌^◌, ◌≤◌, ◌<◌, ◌≡◌, ◌∙◌, leb, leb→le, some, List, [], ◌∷◌, inl, inr, OnSome,
  length, Bool-cases, arith, refl, ap,
}
use tcp_eyenet.Ttest.Clock.{
  Timespec, get_time_usec, IsNormal, ◌⊑◌, get_time_usec_mono, GoesOn, wait_until,
  wait_until-reaches,
}
use tcp_eyenet.Ttest.Worker.Timed.{Timed, delta_of, comes_back}

-- A round under the clock: it starts after the last one came back, at a normal time, its burst takes at
-- most 250 gaps and sendto answers for each packet, and where it waits, the clock goes on.
pub record OnTime (ibg npkts_burst : ℕ) (now : Timespec) (r : Timed) : Type 0 where
  pub normal : IsNormal r.start × IsNormal r.burst_end
  pub started : now ⊑ r.start
  pub took : r.start ⊑ r.burst_end
  pub short : get_time_usec r.burst_end ≤ get_time_usec r.start + 250 * ibg
  pub answers : 250 * npkts_burst ≤ length r.sent
  pub waits :
      get_time_usec r.burst_end < get_time_usec r.start + ibg
      → GoesOn (get_time_usec r.start + ibg) r.wait

-- Each round of them starts where the one before came back.
abbrev pub Chain : ℕ → ℕ → Timespec → List Timed → Type 0
Chain ibg np now [] = Unit
Chain ibg np now (r ∷ rs) = OnTime ibg np now r × OnSome (λ t. Chain ibg np t rs) (comes_back ibg r)

usec_bound : (t : Timespec) → IsNormal t → get_time_usec t ≤ 2 ^ 63
unfolding get_time_usec
usec_bound t n = omega arith

delta_difference :
    (r : Timed)
    → get_time_usec r.start ≤ get_time_usec r.burst_end
    → get_time_usec r.burst_end ≤ 2 ^ 63
    → get_time_usec r.start + delta_of r ≡ get_time_usec r.burst_end
unfolding delta_of
delta_difference r h b = omega arith

pub comes_back-after :
    (ibg np : ℕ) (now : Timespec) (r : Timed)
    → ibg ≤ 125000
    → OnTime ibg np now r
    → (t : Timespec) × (comes_back ibg r ≡ some t)
      × (get_time_usec now ≤ get_time_usec r.start)
      × (get_time_usec r.start + ibg ≤ get_time_usec t)
      × (get_time_usec r.start + delta_of r ≤ get_time_usec t)
      × (delta_of r ≤ 250 * ibg)
unfolding comes_back
comes_back-after ibg np now r small h =
    let s = get_time_usec r.start in
    let bounds = usec_bound r.start h.normal.0 in
    let late = get_time_usec_mono r.start r.burst_end h.normal.1 h.took in
    let d = delta_difference r late (usec_bound r.burst_end h.normal.1) in
    let since = get_time_usec_mono now r.start h.normal.0 h.started in
    let brief : delta_of r ≤ 250 * ibg = omega (arith, h.short) in
    elim (Bool-cases (leb ibg (delta_of r))) [
      | inl e ↦
          let full = leb→le ibg (delta_of r) e in
          (r.burst_end, rw e refl, since, omega arith, omega arith, brief)
      | inr e ↦
          let quick : delta_of r < ibg = ground arith in
          let whole : (s + ibg) % 2 ^ 64 ≡ s + ibg = omega arith in
          let (t, f, g) = wait_until-reaches (s + ibg) r.wait (h.waits (omega arith)) in
          let waited : comes_back ibg r ≡ wait_until ((s + ibg) % 2 ^ 64) r.wait = rw e refl in
          (t, waited ∙ ap (λ n. wait_until n r.wait) whole ∙ f, since, g, omega arith, brief)
    ]
