-- ===== src/Vns/Ending.antt =====
-- The turns of a flow of `send_data` end, and count what comes.
use tcp_eyenet.Prelude.{
  ℕ, zero, suc, ◌+◌, ◌*◌, ◌%◌, ◌≤◌, ◌<◌, ◌≡◌, ◌∙◌, refl, ap, subst, sym, arith, false, not, ◌||◌,
  if_either, Bool-cases, inl, inr, if◌then◌else◌,
}
use tcp_eyenet.Prelude.Int.{ℤ, pos, negsuc, ◌+ℤ◌, ◌≤ℤ◌, -ℤ_parts, eqb_ℤ}
use native.Mathlib.Nat.{add-mul-mod_self_right}
use tcp_eyenet.Double.{Double}
use tcp_eyenet.Vns.Transport.Interface.{Cong, PacketHeader, Received, nothing, failed, packet}
use tcp_eyenet.Vns.Transport.State.{OnGo}
use tcp_eyenet.Vns.Transport.Sender.{
  ◌>>=◌, max_ℤ, go, Flow, Sender, Turn, Job, check_timeout, send_one, burst, settle_pace, idle,
  estimate, account, take_ack, dispatch, after_receive, turn,
}
use tcp_eyenet.Vns.Transport.Burst.{burst-cases, KeepsWindow, IsClosedAt, burst-returns}
use tcp_eyenet.Vns.Network.{halves-turn}
use tcp_eyenet.Vns.Receiver.Echo.{le_max_left, tell_cong_go}

-- The packets of the flow among what a receive brings
abbrev pub gain {ℓ} : {W : Type ℓ} → Job W → Received W → ℕ
gain j nothing = 0
gain j failed = 0
gain j (packet h) = if not (eqb_ℤ h.sid j.sid) || not (eqb_ℤ h.fid j.fid) then 0 else 1

-- The receive does not fail.
abbrev pub Comes {ℓ} : {W : Type ℓ} → Received W → Type 0
Comes nothing = Unit
Comes failed = ⊥
Comes (packet h) = Unit

nonzero_train : (z : ℤ) (m : ℕ) → z ≡ pos m → 0 < m → eqb_ℤ z (pos 0) ≡ false
nonzero_train z m e h = rw e (ground arith)

module _ {ℓ κ} {W : Type ℓ} {C : Type κ} where
  -- The train, the number of the next packet, and the count of packets
  abbrev frame : Sender C W → ℤ × ℤ × ℕ
  frame s = (s.bn_train, s.seq_num, s.npkts)

  -- A train of `m` packets, the next number at the end of one, and `npkts`
  pub record IsAt (m n npkts : ℕ) (s : Sender C W) : Type 0 where
    pub train : s.bn_train ≡ pos m
    pub next : s.seq_num ≡ pos n
    pub whole : n % m ≡ 0
    pub count : s.npkts ≡ npkts
    pub low : negsuc 0 ≤ℤ s.largest_ack

  -- What a receive leaves: the frame but for the count, and an acknowledgment that is no smaller
  abbrev After : ℕ → Sender C W → Sender C W → Type 0
  After g s u = (frame u ≡ (s.bn_train, s.seq_num, s.npkts + g)) × (s.largest_ack ≤ℤ u.largest_ack)

module _ {ℓ κ} {W : Type ℓ} {C : Type κ} ⦃d : Double W⦄ ⦃c : Cong C W⦄ where
  After-IsAt : (m n p g : ℕ) (s u : Sender C W) → IsAt m n p s → After g s u → IsAt m n (p + g) u
  After-IsAt m n p g s u h (e, le) = record {
    train = ap (λ x. x.0) e ∙ h.train;
    next = ap (λ x. x.1) e ∙ h.next;
    whole = h.whole;
    count = ap (λ x. x.2) e ∙ ap (λ x. x + g) h.count;
    low = let l = h.low in omega arith;
  }

  burst-frame :
      (fuel : ℕ) (j : Job W) (s : Sender C W)
      → OnGo (λ t. (t.bn_train ≡ s.bn_train) × (t.npkts ≡ s.npkts)) (burst fuel j s)
  unfolding burst send_one
  burst-frame zero j s = tt
  burst-frame (suc fuel) j s =
      let P : Flow (Sender C W) → Type 0 =
        OnGo (λ t. (t.bn_train ≡ s.bn_train) × (t.npkts ≡ s.npkts)) in
      burst-cases P fuel j s tt (burst-frame fuel j (send_one j s)) (refl, refl)

  pub check_timeout-IsAt :
      (m n p : ℕ) (s : Sender C W) (now : W) → IsAt m n p s → IsAt m n p (check_timeout s now)
  unfolding check_timeout
  check_timeout-IsAt m n p s now h =
      if_either {A = Sender C W} (IsAt m n p) (d.lt (d.dec 2000 0) (d.minus now s.last_ack_ts))
        (record {
          train = h.train;
          next = h.next;
          whole = h.whole;
          count = h.count;
          low = rw h.next (omega (arith, -ℤ_parts (pos n) (pos 1)));
        })
        (record { train = h.train; next = h.next; whole = h.whole; count = h.count; low = h.low })

  pub settle_pace-After :
      (s : Sender C W) (w : W) → After 0 s (record (settle_pace s) { curr_ts = w })
  unfolding settle_pace
  settle_pace-After s w =
      if_either {A = Sender C W} (λ t. After 0 s (record t { curr_ts = w })) _
        (ap (λ x. (s.bn_train, s.seq_num, x)) (omega arith), omega arith)
        (ap (λ x. (s.bn_train, s.seq_num, x)) (omega arith), omega arith)

  idle-After : (s : Sender C W) (now : W) → After 0 s (idle s now)
  unfolding idle
  idle-After s now =
      if_either {A = Sender C W} (After 0 s) _
        (ap (λ x. (s.bn_train, s.seq_num, x)) (omega arith), omega arith)
        (ap (λ x. (s.bn_train, s.seq_num, x)) (omega arith), omega arith)

  estimate-frame :
      (s : Sender C W) (ack : ℤ) (now : W)
      → (frame (estimate s ack now) ≡ frame s) × ((estimate s ack now).largest_ack ≡ s.largest_ack)
  unfolding estimate
  estimate-frame s ack now =
      if_either {A = Sender C W} (λ t. (frame t ≡ frame s) × (t.largest_ack ≡ s.largest_ack)) _
        (refl, refl) (refl, refl)

  take_ack-After :
      (s : Sender C W) (h : PacketHeader W) (now : W)
      → eqb_ℤ s.bn_train (pos 0) ≡ false
      → (u : Sender C W) × (take_ack s h now ≡ go u) × After 1 s u
  unfolding take_ack account
  take_ack-After s h now b =
      let ack = h.seq_num +ℤ pos 1 in
      let t = estimate (record s { curr_ts = now; last_ack_ts = now }) ack now in
      let (same, la) = estimate-frame (record s { curr_ts = now; last_ack_ts = now }) ack now in
      let v = account t h now in
      (
        record v { largest_ack = max_ℤ v.largest_ack ack },
        ap
            (λ (f : Flow (Sender C W)).
              f >>= λ u. go (record u { largest_ack = max_ℤ u.largest_ack ack }))
            (tell_cong_go v ack h now (ap (λ x. eqb_ℤ x.0 (pos 0)) same ∙ b)),
        (
          ap (λ x. (x.0, x.1, x.2 + 1)) same,
          subst (λ z. z ≤ℤ max_ℤ v.largest_ack ack) la (le_max_left v.largest_ack ack),
        ),
      )

  -- With a train that is not 0, what follows the receive halts in no branch.
  receive-After :
      (j : Job W) (s : Sender C W) (r : Received W) (now : W)
      → eqb_ℤ s.bn_train (pos 0) ≡ false
      → Comes r
      → (u : Sender C W) × (after_receive j s r now ≡ go u) × After (gain j r) s u
  unfolding after_receive dispatch
  receive-After j s nothing now b k = (idle s now, refl, idle-After s now)
  receive-After j s failed now b k = absurd k
  receive-After j s (packet h) now b k =
      elim (Bool-cases (not (eqb_ℤ h.sid j.sid) || not (eqb_ℤ h.fid j.fid))) [
        | inl other ↦ (
          record s { buf = h },
          rw other refl,
          rw other (ap (λ x. (s.bn_train, s.seq_num, x)) (omega arith), omega arith),
        )
        | inr mine ↦
            let (u, e, a) = take_ack-After (record s { buf = h }) h now b in
            (u, rw mine e, rw mine a)
      ]

  -- A turn whose window closes at most `k` trains on: with fuel for them it halts nowhere, ends at the
  -- end of a train, and counts the packet that came.
  pub turn-returns :
      (fuel k n m p : ℕ) (j : Job W) (s : Sender C W) (i : Turn W)
      → KeepsWindow W C
      → 0 < m
      → IsAt m n p s
      → IsClosedAt (n + k * m) (check_timeout s i.start_ts)
      → k * m < fuel
      → Comes i.received
      → (u : Sender C W) × (q : ℕ) × (turn fuel j s i ≡ go u)
        × IsAt m q (p + gain j i.received) u
        × (q ≤ n + k * m)
  unfolding turn
  turn-returns fuel k n m p j s i keep pos_m at closed enough came =
      let start = check_timeout s i.start_ts in
      let h = check_timeout-IsAt m n p s i.start_ts at in
      let (t, q, e, next, fin, up, down, la) =
        burst-returns fuel n (n + k * m) m j start keep h.train pos_m h.next (omega arith)
          (add-mul-mod_self_right n k m ∙ h.whole) closed (omega arith) in
      let (train, count) =
        subst (OnGo (λ x. (x.bn_train ≡ start.bn_train) × (x.npkts ≡ start.npkts))) e
          (burst-frame fuel j start) in
      let sent : IsAt m q p t = record {
        train = train ∙ h.train;
        next = next;
        whole = fin;
        count = count ∙ h.count;
        low = subst (λ z. negsuc 0 ≤ℤ z) (sym la) h.low;
      } in
      let v = record (settle_pace t) { curr_ts = i.wait_ts } in
      let settled = After-IsAt m q p 0 t v sent (settle_pace-After t i.wait_ts) in
      let nonzero : eqb_ℤ v.bn_train (pos 0) ≡ false =
        nonzero_train v.bn_train m settled.train pos_m in
      let (u, f, a) = receive-After j v i.received i.wake_ts nonzero came in
      (
        u,
        q,
        halves-turn j fuel s t u i e f,
        subst (λ x. IsAt m q (x + gain j i.received) u) (omega arith)
            (After-IsAt m q (p + 0) (gain j i.received) v u settled a),
        down,
      )
