-- ===== src/Vns/Transport/Growing.antt =====
-- A turn of the sender keeps the numbers of its packets in order: the sends, then the receive.
use tcp_eyenet.Prelude.{
  ℕ, zero, suc, ◌≡◌, ◌∙◌, ap, subst, sym, arith, List, if_either, Bool-cases, inl, inr,
}
use mathlib.Core.List.{Memᴰ}
use tcp_eyenet.Prelude.Int.{ℤ, pos, ◌+ℤ◌, ◌≤ℤ◌, ◌<ℤ◌, +ℤ_parts, -ℤ_parts, eqb_ℤ, eqb_ℤ→eq}
use tcp_eyenet.Double.{Double}
use tcp_eyenet.Vns.Transport.Interface.{
  Cong, PacketHeader, Received, nothing, failed, packet, create_header,
}
use tcp_eyenet.Vns.Transport.State.{OnGo, OnGo-map, OnGo->>=}
use tcp_eyenet.Vns.Transport.Sender.{
  max_ℤ, Sender, Job, check_timeout, send_one, burst, settle_pace, idle, estimate, account,
  tell_cong, take_ack, dispatch, after_receive,
}
use tcp_eyenet.Vns.Transport.Burst.{burst-cases}
use tcp_eyenet.Vns.Transport.Numbers.{
  Below, Core, IsNumbered, All-Below_mono, Grown, core, estimate-core, account-core, tell_cong-core,
  Brings,
}

module _ {ℓ κ} {W : Type ℓ} {C : Type κ} ⦃d : Double W⦄ ⦃c : Cong C W⦄ (j : Job W) (top : ℤ)
    (past : List (PacketHeader W)) where
  abbrev Grows : Sender C W → Type ℓ
  Grows s = Grown j top past (core s)

  same-Grows : (s t : Sender C W) → core t ≡ core s → Grows s → Grows t
  same-Grows s t e g = subst (Grown j top past) (sym e) g

  pub check_timeout-Grows : (s : Sender C W) (now : W) → Grows s → Grows (check_timeout s now)
  unfolding check_timeout
  check_timeout-Grows s now (n, t, g) =
      if_either {A = Sender C W} Grows (d.lt (d.dec 2000 0) (d.minus now s.last_ack_ts))
        (
          record {
            numbers = n.numbers;
            buffer = n.buffer;
            bound = omega (arith, -ℤ_parts s.seq_num (pos 1));
          },
          t,
          g,
        )
        (n, t, g)

  send_one-Grows : (s : Sender C W) → Grows s → Grows (send_one j s)
  unfolding send_one create_header
  send_one-Grows s (n, t, g) =
      let next = +ℤ_parts s.seq_num (pos 1) in
      let rises : s.seq_num ≤ℤ (s.seq_num +ℤ pos 1) = omega arith in
      let fresh : s.seq_num <ℤ (s.seq_num +ℤ pos 1) = omega arith in
      (
        record {
          numbers = (λ m. fresh, All-Below_mono j _ _ s.sent rises n.numbers);
          buffer = λ m. fresh;
          bound = let b = n.bound in omega arith;
        },
        omega arith,
        λ h m. Memᴰ.tail (g h m),
      )

  burst-Grows : (fuel : ℕ) (s : Sender C W) → Grows s → OnGo Grows (burst fuel j s)
  unfolding burst
  burst-Grows zero s h = tt
  burst-Grows (suc fuel) s h =
      burst-cases (OnGo Grows) fuel j s tt (burst-Grows fuel (send_one j s) (send_one-Grows s h)) h

  settle_pace-Grows : (s : Sender C W) → Grows s → Grows (settle_pace s)
  unfolding settle_pace
  settle_pace-Grows s h = if_either {A = Sender C W} Grows _ h h

  idle-Grows : (s : Sender C W) (now : W) → Grows s → Grows (idle s now)
  unfolding idle
  idle-Grows s now h = if_either {A = Sender C W} Grows _ h h

  -- The state before the header in the buffer is taken for an acknowledgment
  took-Grows :
      (u : Sender C W) (ack : ℤ)
      → Grows u
      → ack ≤ℤ u.seq_num
      → Grows (record u { largest_ack = max_ℤ u.largest_ack ack })
  took-Grows u ack (n, t, g) le = (
    record { numbers = n.numbers; buffer = n.buffer; bound = let b = n.bound in ground arith },
    t,
    g,
  )

  take_ack-Grows :
      (s : Sender C W) (h : PacketHeader W) (now : W)
      → h.seq_num <ℤ s.seq_num
      → Grows s
      → OnGo Grows (take_ack s h now)
  unfolding take_ack
  take_ack-Grows s h now low g =
      let ack = h.seq_num +ℤ pos 1 in
      let v = account (estimate (record s { curr_ts = now; last_ack_ts = now }) ack now) h now in
      let same : core v ≡ core s = account-core _ h now ∙ estimate-core _ ack now in
      OnGo->>= (λ u. core u ≡ core v) Grows (tell_cong v ack h now) _ (tell_cong-core v ack h now)
        (λ u e.
          let all = e ∙ same in
          took-Grows u ack (same-Grows s u all g) (
            subst (λ n. ack ≤ℤ n) (sym (ap (λ (k : Core W). k.0) all))
              (omega (arith, +ℤ_parts h.seq_num (pos 1)))))

  dispatch-Grows :
      (s : Sender C W) (h : PacketHeader W) (now : W)
      → Below j s.seq_num h
      → Grows s
      → OnGo Grows (dispatch j s h now)
  unfolding dispatch
  dispatch-Grows s h now low (n, t, g) =
      let read : Grows (record s { buf = h }) =
        (record { numbers = n.numbers; buffer = low; bound = n.bound }, t, g) in
      elim (Bool-cases (eqb_ℤ h.sid j.sid)) [
        | inr other ↦ rw other read
        | inl sid ↦ elim (Bool-cases (eqb_ℤ h.fid j.fid)) [
          | inr other ↦ rw (sid, other) read
          | inl fid ↦
              rw (sid, fid)
                (take_ack-Grows (record s { buf = h }) h now
                  (low (eqb_ℤ→eq h.sid j.sid sid, eqb_ℤ→eq h.fid j.fid fid)) read)
        ]
      ]

module _ {ℓ κ} {W : Type ℓ} {C : Type κ} ⦃d : Double W⦄ ⦃c : Cong C W⦄ where
  -- The sends of a turn keep the numbers in order, and give new ones.
  pub sends-Grown :
      (fuel : ℕ) (j : Job W) (s : Sender C W) (now wait_ts : W)
      → IsNumbered j (core s)
      → OnGo
          (λ t. Grown j s.seq_num s.sent (core (record (settle_pace t) { curr_ts = wait_ts })))
          (burst fuel j (check_timeout s now))
  sends-Grown fuel j s now wait_ts n =
      let top = s.seq_num in
      let past = s.sent in
      OnGo-map _ _ (burst fuel j (check_timeout s now)) (λ t g. settle_pace-Grows j top past t g)
        (burst-Grows j top past fuel _
          (check_timeout-Grows j top past s now (n, omega arith, λ h m. m)))

  -- So does the receive, if it brings of the flow's packets only such as were sent.
  pub receive-Grown :
      (j : Job W) (s : Sender C W) (r : Received W) (now : W)
      → Brings (Below j s.seq_num) r
      → IsNumbered j (core s)
      → OnGo (λ t. Grown j s.seq_num s.sent (core t)) (after_receive j s r now)
  unfolding after_receive
  receive-Grown j s nothing now b n = idle-Grows j s.seq_num s.sent s now (n, omega arith, λ h m. m)
  receive-Grown j s failed now b n =
      dispatch-Grows j s.seq_num s.sent s s.buf now n.buffer (n, omega arith, λ h m. m)
  receive-Grown j s (packet h) now b n =
      dispatch-Grows j s.seq_num s.sent s h now b (n, omega arith, λ h m. m)
