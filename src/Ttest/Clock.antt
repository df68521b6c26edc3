-- ===== src/Ttest/Clock.antt =====
-- The clock of ttest: `get_time_usec` of ttest/ttest.h, and `wait_until` of ttest/ttsnd.c. What
-- clock_gettime gives is an input.
use tcp_eyenet.Prelude.{
  ℕ, ◌+◌, ◌-◌, ◌*◌, ◌/◌, ◌%◌, ◌^◌, ◌≤◌, ◌<◌, ◌≡◌, ltb, ltb→lt, true, Option, none, some, List, [],
  ◌∷◌, ◌⊎◌, inl, inr, if◌then◌else◌, Bool-cases, arith, refl,
}

pub record Timespec : Type 0 where
  pub tv_sec : ℕ
  pub tv_nsec : ℕ

unfoldable pub get_time_usec : Timespec → ℕ
get_time_usec tp = (tp.tv_sec * 1000000 % 2 ^ 64 + tp.tv_nsec / 1000) % 2 ^ 64

-- The time after some 278000 years is not reached, and `tv_nsec` is below a second.
abbrev pub IsNormal : Timespec → Type 0
IsNormal t = (t.tv_sec < 2 ^ 43) × (t.tv_nsec < 1000000000)

-- CLOCK_MONOTONIC does not go back.
infix 50 ◌⊑◌
abbrev pub ◌⊑◌ : Timespec → Timespec → Type 0
a ⊑ b = a.tv_sec * 1000000000 + a.tv_nsec ≤ b.tv_sec * 1000000000 + b.tv_nsec

-- Microseconds keep the order of the readings.
pub get_time_usec_mono : (a b : Timespec) → IsNormal b → a ⊑ b → get_time_usec a ≤ get_time_usec b
unfolding get_time_usec
get_time_usec_mono a b n h = omega arith

-- What `wait_until` reads: the clock at its start, in its loop, and when usleep comes back.
pub record Wait : Type 0 where
  pub entry : Timespec
  pub spins : List Timespec
  pub woken : Timespec

-- The loop; none while the readings that are given do not end it.
unfoldable pub spin : ℕ → List Timespec → Option Timespec
spin till [] = none
spin till (t ∷ ts) = let rest = spin till ts in if ltb (get_time_usec t) till then rest else some t

-- `wait_until`, with the time at its return
unfoldable pub wait_until : ℕ → Wait → Option Timespec
unfolding spin
wait_until till w =
    let n = get_time_usec w.entry in
    if ltb n till
    then if ltb (till - n) 100 then spin till w.spins else some w.woken
    else some w.entry

-- The readings come to `till`.
abbrev pub Comes : ℕ → List Timespec → Type 0
Comes till [] = ⊥
Comes till (t ∷ ts) = (till ≤ get_time_usec t) ⊎ Comes till ts

spin-reaches :
    (till : ℕ) (ts : List Timespec)
    → Comes till ts
    → (t : Timespec) × (spin till ts ≡ some t) × (till ≤ get_time_usec t)
unfolding spin
spin-reaches till [] h = absurd h
spin-reaches till (t ∷ ts) h =
    let late : ltb (get_time_usec t) till ≡ true → Comes till ts =
      λ e. elim h [ inl k ↦ absurd (ground arith) | inr k ↦ k ] in
    elim (Bool-cases (ltb (get_time_usec t) till)) [
      | inl e ↦ let (u, f, g) = spin-reaches till ts (late e) in (u, rw e f, g)
      | inr e ↦ (t, rw e refl, ground arith)
    ]

-- The clock goes on, and usleep sleeps at least as long as it is asked to.
abbrev pub GoesOn : ℕ → Wait → Type 0
GoesOn till w =
    ((till ≤ get_time_usec w.entry) ⊎ Comes till w.spins)
    × (get_time_usec w.entry < till → till ≤ get_time_usec w.woken)

-- It returns, and not before its time.
pub wait_until-reaches :
    (till : ℕ) (w : Wait)
    → GoesOn till w
    → (t : Timespec) × (wait_until till w ≡ some t) × (till ≤ get_time_usec t)
unfolding wait_until
wait_until-reaches till w (comes, sleeps) =
    let n = get_time_usec w.entry in
    let after : (ltb n till ≡ true) → Comes till w.spins =
      λ e. elim comes [ inl k ↦ absurd (ground arith) | inr k ↦ k ] in
    elim (Bool-cases (ltb n till)) [
      | inr e ↦ (w.entry, rw e refl, ground arith)
      | inl e ↦ elim (Bool-cases (ltb (till - n) 100)) [
        | inl f ↦ let (t, g, h) = spin-reaches till w.spins (after e) in (t, rw (e, f) g, h)
        | inr f ↦ (w.woken, rw (e, f) refl, sleeps (ltb→lt n till e))
      ]
    ]
