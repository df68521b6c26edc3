-- ===== src/Vns/Completion.antt =====
-- A flow over Eyenet whose size is in bytes, from the beginning of its loop to the end.
use tcp_eyenet.Prelude.{
  ℕ, ◌+◌, ◌*◌, ◌^◌, ◌≤◌, ◌<◌, ◌≡◌, refl, ap, subst, sym, arith, true, false, List, [], ◌∷◌, length,
  All, Bool-cases, inl, inr,
}
use tcp_eyenet.Prelude.Int.{pos, negsuc, abs, ◌+ℤ◌, ◌≤ℤ◌, +ℤ_parts}
use tcp_eyenet.Double.{Double, IsExact}
use tcp_eyenet.Vns.Eyenet.State.{Eyenet}
use tcp_eyenet.Vns.Transport.Interface.{eyenet_cong, payload}
use tcp_eyenet.Vns.Transport.State.{OnGo, OnGo-map, OnGo->>=}
use tcp_eyenet.Vns.Transport.Sender.{
  Flow, go, halt, Sender, Turn, Job, begin_flow, goes_on, check_timeout, burst, settle_pace,
  after_receive, turn, turns,
}
use tcp_eyenet.Vns.Transport.Numbers.{Below, Brings, IsNumbered, core}
use tcp_eyenet.Vns.Transport.Growing.{check_timeout-Grows, sends-Grown, receive-Grown}
use tcp_eyenet.Vns.Transport.Burst.{IsClosedAt}
use tcp_eyenet.Vns.Transport.Starved.{turn-Holds, check_timeout-Holds}
use tcp_eyenet.Vns.Transport.Frozen.{IsFrozen, IsFrozen-IsKept, begin-IsFrozen, eyenet-KeepsWindow}
use tcp_eyenet.Vns.Network.{IsStrange, begin-IsNumbered}
use tcp_eyenet.Vns.Ending.{gain, Comes, IsAt, check_timeout-IsAt, settle_pace-After, turn-returns}

OnGo-both {ℓ κ μ} :
    {A : Type ℓ} (P : A → Type κ) (Q : A → Type μ) (x : Flow A)
    → OnGo P x
    → OnGo Q x
    → OnGo (λ a. P a × Q a) x
OnGo-both P Q (go a) h k = (h, k)
OnGo-both P Q (halt x) h k = tt

-- The packets of the flow that the turns bring
abbrev pub gains {ℓ} : {W : Type ℓ} → Job W → List (Turn W) → ℕ
gains j [] = 0
gains j (i ∷ is) = gain j i.received + gains j is

module _ {ℓ} {W : Type ℓ} ⦃d : Double W⦄ where
  open d use {of_int, plus, lt, dec}

  -- No receive of the turns fails, and those of the flow's packets that come have numbers which were
  -- given by then.
  abbrev pub Arrives : ℕ → Job W → Sender (Eyenet W) W → List (Turn W) → Type ℓ
  Arrives fuel j s [] = Unit
  Arrives fuel j s (i ∷ is) =
      Comes i.received
      × OnGo (λ t. Brings (Below j t.seq_num) i.received)
          (burst fuel j (check_timeout s i.start_ts))
      × OnGo (λ t. Arrives fuel j t is) (turn fuel j s i)

  -- With a window of 10 packets the burst stops 11 trains on.
  window_closes :
      (n m : ℕ) (s : Sender (Eyenet W) W)
      → IsExact W
      → s.cong.cwnd ≡ of_int (pos 10)
      → negsuc 0 ≤ℤ s.largest_ack
      → s.largest_ack ≤ℤ pos n
      → 0 < m
      → n + 11 * m ≤ 2 ^ 31
      → IsClosedAt (n + 11 * m) s
  window_closes n m s exact ten low high pos_m small =
      let la = s.largest_ack in
      let a = +ℤ_parts la (pos 10) in
      let b = +ℤ_parts (la +ℤ pos 10) (pos 1) in
      let size : abs la ≤ 2 ^ 31 = ground arith in
      let size' : abs (la +ℤ pos 10) ≤ 2 ^ 32 = ground (arith, a) in
      let size'' : abs ((la +ℤ pos 10) +ℤ pos 1) ≤ 2 ^ 32 = ground (arith, a, b) in
      let sum = exact.of_int_plus la (pos 10) (omega arith) (omega arith) in
      let sum' = exact.of_int_plus (la +ℤ pos 10) (pos 1) size' (omega arith) in
      rw
        (
          ten,
          sum,
          exact.one,
          sum',
          exact.of_int_lt (pos (n + 11 * m)) ((la +ℤ pos 10) +ℤ pos 1) (omega arith) size'',
        )
        (ground (arith, a, b))

  start_closes :
      (j : Job W) (n m p : ℕ) (s : Sender (Eyenet W) W) (now : W)
      → IsExact W
      → IsAt m n p s
      → IsNumbered j (core s)
      → IsFrozen s.cong
      → 0 < m
      → n + 11 * m ≤ 2 ^ 31
      → IsClosedAt (n + 11 * m) (check_timeout s now)
  start_closes j n m p s now exact at num frozen pos_m small =
      let h = check_timeout-IsAt m n p s now at in
      let kept = check_timeout-Holds IsFrozen IsFrozen-IsKept s now frozen in
      let grown = check_timeout-Grows j s.seq_num s.sent s now (num, omega arith, λ x k. k) in
      let t = check_timeout s now in
      window_closes n m t exact kept.cwnd h.low
        (subst (λ z. t.largest_ack ≤ℤ z) h.next grown.0.bound) pos_m small

  reached_ends :
      (j : Job W) (s : Sender (Eyenet W) W) (p : ℕ)
      → j.byte_switcher ≡ true
      → s.npkts ≡ p
      → lt (of_int (pos (p * payload))) j.fsz ≡ false
      → goes_on j s ≡ false
  unfolding goes_on
  reached_ends j s p mode e full = rw (mode, e) full

  turn-IsNumbered :
      (fuel : ℕ) (j : Job W) (s : Sender (Eyenet W) W) (i : Turn W)
      → OnGo
          (λ t. Brings (Below j t.seq_num) i.received)
          (burst fuel j (check_timeout s i.start_ts))
      → IsNumbered j (core s)
      → OnGo (λ t. IsNumbered j (core t)) (turn fuel j s i)
  unfolding turn
  turn-IsNumbered fuel j s i b n =
      OnGo->>= _ _ (burst fuel j (check_timeout s i.start_ts)) _
        (OnGo-both _ _ (burst fuel j (check_timeout s i.start_ts))
          (sends-Grown fuel j s i.start_ts i.wait_ts n) b)
        (λ t k.
          let v = record (settle_pace t) { curr_ts = i.wait_ts } in
          let same : v.seq_num ≡ t.seq_num = ap (λ x. x.1) (settle_pace-After t i.wait_ts).0 in
          OnGo-map _ _ (after_receive j v i.received i.wake_ts) (λ u g. g.0)
            (receive-Grown j v i.received i.wake_ts
              (subst (λ z. Brings (Below j z) i.received) (sym same) k.1) k.0.0))

  module _ (exact : IsExact W) (fuel m : ℕ) (j : Job W) (pos_m : 0 < m) (enough : 11 * m < fuel)
      (mode : j.byte_switcher ≡ true) where
    turns-end :
        (is : List (Turn W)) (n p : ℕ) (s : Sender (Eyenet W) W)
        → IsAt m n p s
        → IsNumbered j (core s)
        → IsFrozen s.cong
        → n + length is * (11 * m) ≤ 2 ^ 31
        → Arrives fuel j s is
        → lt (of_int (pos ((p + gains j is) * payload))) j.fsz ≡ false
        → (u : Sender (Eyenet W) W) × (turns fuel j s is ≡ go (u, true)) × (goes_on j u ≡ false)
    unfolding turns
    turns-end [] n p s at num frozen small arr full =
        let off = reached_ends j s (p + 0) mode (omega (arith, at.count)) full in
        (s, rw off refl, off)
    turns-end (i ∷ is) n p s at num frozen small (came, below, rest) full =
        elim (Bool-cases (goes_on j s)) [
          | inr off ↦ (s, rw off refl, off)
          | inl on ↦
              let closed =
                start_closes j n m p s i.start_ts exact at num frozen pos_m (omega arith) in
              let (u, q, e, at', le) =
                turn-returns fuel 11 n m p j s i eyenet-KeepsWindow pos_m at closed enough came in
              let (v, f, g) =
                turns-end is q (p + gain j i.received) u at'
                  (subst (OnGo (λ t. IsNumbered j (core t))) e
                    (turn-IsNumbered fuel j s i below num))
                  (subst (OnGo (λ (t : Sender (Eyenet W) W). IsFrozen t.cong)) e
                    (turn-Holds IsFrozen IsFrozen-IsKept fuel j s i frozen))
                  (omega arith) (subst (OnGo (λ t. Arrives fuel j t is)) e rest)
                  (subst (λ x. lt (of_int (pos (x * payload))) j.fsz ≡ false) (omega arith) full) in
              (v, rw (on, e) f, g)
        ]

  begin-IsAt :
      (m : ℕ) (s : Sender (Eyenet W) W) (first_ts second_ts : W)
      → s.bn_train ≡ pos m
      → IsAt m 0 s.npkts (begin_flow s first_ts second_ts)
  unfolding begin_flow
  begin-IsAt m s first_ts second_ts e = record {
    train = e;
    next = refl;
    whole = omega arith;
    count = refl;
    low = omega arith;
  }

  -- A flow in bytes over Eyenet that begins with none of its packets under way, with trains of at least
  -- one packet, fuel for more than 11 trains in a burst, and so few turns that the numbers stay below
  -- 2^31, under exact sums of integers: if no receive fails, those of its packets that come have numbers
  -- which were given by then, and with them the count of packets reaches the flow's size, then its loop
  -- halts nowhere and ends by its test.
  pub flow-ends :
      (fuel m : ℕ) (j : Job W) (s : Sender (Eyenet W) W) (first_ts second_ts : W)
      (is : List (Turn W))
      → IsExact W
      → s.cong.nprobe ≡ 10
      → s.bn_train ≡ pos m
      → 0 < m
      → 11 * m < fuel
      → length is * (11 * m) ≤ 2 ^ 31
      → j.byte_switcher ≡ true
      → All (IsStrange j) s.sent
      → IsStrange j s.buf
      → Arrives fuel j (begin_flow s first_ts second_ts) is
      → lt (of_int (pos ((s.npkts + gains j is) * payload))) j.fsz ≡ false
      → (u : Sender (Eyenet W) W) × (turns fuel j (begin_flow s first_ts second_ts) is
          ≡ go (u, true))
        × (goes_on j u ≡ false)
  flow-ends fuel m j s first_ts second_ts is exact fresh train pos_m enough small mode sent buf arr
        full =
      turns-end exact fuel m j pos_m enough mode is 0 s.npkts (begin_flow s first_ts second_ts)
        (begin-IsAt m s first_ts second_ts train) (begin-IsNumbered j s first_ts second_ts sent buf)
        (begin-IsFrozen s first_ts second_ts fresh) (omega (arith, small)) arr full
