-- ===== src/Vns/Transport/Faults.antt =====
-- What the transport makes of a receive that fails, and of a second flow.
use tcp_eyenet.Prelude.{
  ℕ, ◌*◌, ◌≡◌, ◌&&◌, ap, subst, refl, inl, inr, arith, Bool, true, false, List, [], ◌∷◌, some,
  if◌then◌else◌, Bool-cases,
}
use mathlib.Core.Option.{some-injective}
use tcp_eyenet.Prelude.Int.{ℤ, pos, eqb_ℤ, eqb_ℤ→eq}
use tcp_eyenet.Double.{Double}
use tcp_eyenet.Vns.Transport.Interface.{
  Cong, PacketHeader, Received, nothing, failed, packet, neg, payload, create_header,
}
use tcp_eyenet.Vns.Transport.Handshake.{Shake, is_reply, send_probe, shake_round, handshake}
use tcp_eyenet.Vns.Transport.Sender.{
  go, Sender, Turn, Job, begin_flow, goes_on, send_one, dispatch, take_ack, after_receive, turns,
}

eqb_ℤ_self : (a : ℤ) → eqb_ℤ a a ≡ true
eqb_ℤ_self a = ground arith

-- It is a packet that came in these rounds, or a receive failed in them.
pub data Heard {ℓ} {W : Type ℓ} (h : PacketHeader W) : List (W × Received W) → Type ℓ where
  came : {now : W} {rounds : List (W × Received W)} → Heard h ((now, packet h) ∷ rounds)
  erred : {now : W} {rounds : List (W × Received W)} → Heard h ((now, failed) ∷ rounds)
  past :
      {round : W × Received W} {rounds : List (W × Received W)}
      → Heard h rounds
      → Heard h (round ∷ rounds)

module _ {ℓ} {W : Type ℓ} ⦃d : Double W⦄ where
  open d use {dec, of_int, minus, lt, eq}

  shake_round-reply :
      (s t : Shake W) (now : W) (r : Received W)
      → shake_round s now r ≡ (t, true)
      → is_reply t.buf ≡ true
  unfolding shake_round
  shake_round-reply s t now nothing e = cc
  shake_round-reply s t now failed e = ground arith
  shake_round-reply s t now (packet p) e = ground arith

  handshake_step :
      (s : Shake W) (now : W) (r : Received W) (rounds : List (W × Received W)) (u : Shake W × Bool)
      → shake_round s now r ≡ u
      → handshake s ((now, r) ∷ rounds) ≡ (if u.1 then some u.0 else handshake u.0 rounds)
  unfolding handshake
  handshake_step s now r rounds u e =
      subst
        (λ (v : Shake W × Bool).
          handshake s ((now, r) ∷ rounds) ≡ (if v.1 then some v.0 else handshake v.0 rounds))
        e refl

  -- The fields that the handshake tests are -1.
  abbrev pub IsAnswer : PacketHeader W → Type 0
  IsAnswer h =
      (h.seq_num ≡ neg) × (h.fid ≡ neg) × (h.sid ≡ neg) × (eq h.send_ts (of_int neg) ≡ true)

  is_reply-IsAnswer : (h : PacketHeader W) → is_reply h ≡ true → IsAnswer h
  unfolding is_reply
  is_reply-IsAnswer h e =
      let (a, b, c, x) = four _ _ _ _ e in
      (eqb_ℤ→eq h.seq_num neg a, eqb_ℤ→eq h.fid neg b, eqb_ℤ→eq h.sid neg x, c)
    where
      four :
          (a b c x : Bool)
          → (a && b && c && x) ≡ true
          → (a ≡ true) × (b ≡ true) × (c ≡ true) × (x ≡ true)
      four a b c x e = ground arith

  shake_round-ends :
      (s t : Shake W) (now : W) (r : Received W) (rounds : List (W × Received W))
      → shake_round s now r ≡ (t, true)
      → IsAnswer t.buf × Heard t.buf ((now, r) ∷ rounds)
  unfolding shake_round
  shake_round-ends s t now nothing rounds e = cc
  shake_round-ends s t now failed rounds e =
      (is_reply-IsAnswer t.buf (shake_round-reply s t now failed e), erred)
  shake_round-ends s t now (packet p) rounds e = (
    is_reply-IsAnswer t.buf (shake_round-reply s t now (packet p) e),
    subst (λ h. Heard h ((now, packet p) ∷ rounds)) (ap (λ (x : Shake W × Bool). x.0.buf) e) came,
  )

  -- The handshake ends with a reply in the buffer: its number and its two ids are -1, and so is its
  -- time, as doubles compare; and it is a packet that came, unless a receive
  -- failed.
  pub handshake-reply :
      (s : Shake W) (rounds : List (W × Received W)) {t : Shake W}
      → handshake s rounds ≡ some t
      → IsAnswer t.buf × Heard t.buf rounds
  unfolding handshake
  handshake-reply s [] e = cc
  handshake-reply s ((now, r) ∷ rounds) {t} e =
      let u = shake_round s now r in
      elim (Bool-cases u.1) [
        | inl done ↦
            let stop : some u.0 ≡ some t = rw done at e in
            subst (λ (v : Shake W). IsAnswer v.buf × Heard v.buf ((now, r) ∷ rounds))
              (some-injective _ _ stop) (shake_round-ends s u.0 now r rounds (λ i. (u.0, done i)))
        | inr more ↦
            let rest : handshake u.0 rounds ≡ some t = rw more at e in
            let (a, h) = handshake-reply u.0 rounds rest in (a, past h)
      ]

  -- If the probe is due and the receive then fails, the handshake is over: the code takes the probe in
  -- its own buffer for the reply. (-1 as a double equals itself.)
  pub failed_receive_connects :
      (s : Shake W) (now : W) (rounds : List (W × Received W))
      → lt s.last_s_ts (minus now (dec 200 0)) ≡ true
      → eq (of_int neg) (of_int neg) ≡ true
      → handshake s ((now, failed) ∷ rounds) ≡ some (send_probe s now)
  unfolding handshake send_probe is_reply
  failed_receive_connects s now rounds due same = rw (due, same)

module _ {ℓ κ} {W : Type ℓ} {C : Type κ} ⦃d : Double W⦄ ⦃c : Cong C W⦄ where
  -- A receive that fails after a packet was sent is taken for the acknowledgment of that packet.
  pub failed_receive_taken :
      (j : Job W) (s : Sender C W) (now : W)
      → after_receive j (send_one j s) failed now
        ≡ take_ack (send_one j s) (create_header s.seq_num j.fid j.sid s.curr_ts) now
  unfolding after_receive dispatch send_one create_header
  failed_receive_taken j s now = rw (eqb_ℤ_self j.sid, eqb_ℤ_self j.fid)

  -- A flow measured in bytes whose size the packets of the earlier flows reach ends at once: nothing
  -- is sent, since the count of packets is not reset.
  pub byte_flow_skipped :
      (fuel : ℕ) (j : Job W) (s : Sender C W) (first_ts second_ts : W) (is : List (Turn W))
      → j.byte_switcher ≡ true
      → d.lt (d.of_int (pos (s.npkts * payload))) j.fsz ≡ false
      → turns fuel j (begin_flow s first_ts second_ts) is
        ≡ go (begin_flow s first_ts second_ts, true)
  unfolding turns goes_on begin_flow
  byte_flow_skipped fuel j s first_ts second_ts [] mode full = rw (mode, full)
  byte_flow_skipped fuel j s first_ts second_ts (i ∷ is) mode full = rw (mode, full)
