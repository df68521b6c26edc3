-- ===== src/Vns/Receiver/Echo.antt =====
-- The receiver of vns/vns_receiver.cc and the sender of vns/vns_transport.hh together.
use tcp_eyenet.Prelude.{
  Bool-cases, inl, inr, if_either, subst, ◌+◌, ◌≡◌, refl, ap, sym, ◌∙◌, true, false, not, List, [],
  ◌∷◌, ◌++◌, append-nil, append_assoc, All, some, arith,
}
use tcp_eyenet.Prelude.Int.{ℤ, pos, ◌+ℤ◌, ◌-ℤ◌, ◌≤ℤ◌, eqb_ℤ}
use tcp_eyenet.Double.{Double}
use tcp_eyenet.Vns.Socket.{SockaddrIn}
use tcp_eyenet.Vns.Transport.Interface.{
  Cong, PacketHeader, Received, nothing, failed, packet, neg, create_header,
}
use tcp_eyenet.Vns.Transport.Handshake.{Shake, probe, is_reply, send_probe, handshake}
use tcp_eyenet.Vns.Transport.Sender.{
  ◌>>=◌, Sender, Job, Flow, go, send_one, after_receive, dispatch, take_ack, tell_cong, account,
  estimate, max_ℤ,
}
use tcp_eyenet.Vns.Transport.Faults.{failed_receive_taken}
use tcp_eyenet.Vns.Receiver.{Arrival, Server, echo, on_result, ack_packets}

-- What goes back for the packets that come, in their order
abbrev pub answers {ℓ} :
    {W : Type ℓ} → List (PacketHeader W × SockaddrIn × W) → List (PacketHeader W × SockaddrIn)
answers [] = []
answers ((h, addr, now) ∷ packets) = (echo now h, addr) ∷ answers packets

abbrev pub with_packet {ℓ} :
    {W : Type ℓ}
    → Received W
    → SockaddrIn
    → W
    → List (PacketHeader W × SockaddrIn × W)
    → List (PacketHeader W × SockaddrIn × W)
with_packet (packet h) addr now rest = (h, addr, now) ∷ rest
with_packet r addr now rest = rest

-- The packets among the results; one of 0 is not among them.
abbrev pub packets_of {ℓ} : {W : Type ℓ} → List (Arrival W) → List (PacketHeader W × SockaddrIn × W)
packets_of [] = []
packets_of (a ∷ arrivals) = with_packet a.received a.addr a.now (packets_of arrivals)

-- A datagram of no bytes does not come.
abbrev pub HasBytes {ℓ} : {W : Type ℓ} → Received W → Type 0
HasBytes nothing = ⊥
HasBytes failed = Unit
HasBytes (packet h) = Unit

one_answer {ℓ} :
    {W : Type ℓ} (s : Server W) (r : Received W) (addr : SockaddrIn) (now : W)
    (rest : List (PacketHeader W × SockaddrIn × W))
    → HasBytes r
    → (on_result s r addr now).acks ++ answers rest
      ≡ s.acks ++ answers (with_packet r addr now rest)
unfolding on_result
one_answer s nothing addr now rest h = absurd h
one_answer s failed addr now rest h = refl
one_answer s (packet h) addr now rest b =
    append_assoc s.acks ((echo now h, addr) ∷ []) (answers rest)

-- Where no datagram is empty, the loop sends back exactly the packets that came, in their order, each to
-- its sender and with only the time of its receipt changed; results of -1 send nothing.
pub ack_packets-answers {ℓ} :
    {W : Type ℓ} (s : Server W) (arrivals : List (Arrival W))
    → All (λ (a : Arrival W). HasBytes a.received) arrivals
    → (ack_packets s arrivals).acks ≡ s.acks ++ answers (packets_of arrivals)
unfolding ack_packets
ack_packets-answers s [] h = sym (append-nil s.acks)
ack_packets-answers s (a ∷ arrivals) (b, more) =
    ack_packets-answers (on_result s a.received a.addr a.now) arrivals more
    ∙ one_answer s a.received a.addr a.now (packets_of arrivals) b

pub le_max_left : (a b : ℤ) → a ≤ℤ max_ℤ a b
le_max_left a b = ground arith

le_max_right : (a b : ℤ) → b ≤ℤ max_ℤ a b
le_max_right a b = ground arith

same_id : {a b : ℤ} → a ≡ b → eqb_ℤ a b ≡ true
same_id {a} {b} e = ground arith

module _ {ℓ} {W : Type ℓ} ⦃d : Double W⦄ where
  open d use {of_int, eq, minus, plus}

  -- The receiver's answer to a probe is a reply: it ends the handshake, whatever the probe's way took.
  -- (-1 as a double equals itself.)
  pub echo-connects :
      (s : Shake W) (now t : W) (rounds : List (W × Received W))
      → eq (of_int neg) (of_int neg) ≡ true
      → handshake s ((now, packet (echo t probe)) ∷ rounds)
        ≡ some (record (send_probe s now) { buf = echo t probe })
  unfolding handshake is_reply probe
  echo-connects s now t rounds same = rw same refl

module _ {ℓ κ} {W : Type ℓ} {C : Type κ} ⦃d : Double W⦄ ⦃c : Cong C W⦄ where
  open d use {minus, plus}

  -- The sender's state after the answer to a packet of its flow
  pub record Acked (s u : Sender C W) (h : PacketHeader W) (now : W) : Type (ℓ ⊔ κ) where
    pub acked : (h.seq_num +ℤ pos 1) ≤ℤ u.largest_ack
    pub kept : s.largest_ack ≤ℤ u.largest_ack
    pub counted : u.npkts ≡ s.npkts + 1
    pub times : (u.last_ack_ts ≡ now) × (u.last_r_ts ≡ now)
    pub delay : u.delay_aggr ≡ plus s.delay_aggr (minus now h.send_ts)

  pub tell_cong_go :
      (s : Sender C W) (ack : ℤ) (h : PacketHeader W) (now : W)
      → eqb_ℤ s.bn_train (pos 0) ≡ false
      → tell_cong s ack h now ≡ go s
  unfolding tell_cong
  tell_cong_go s ack h now e = elim (Bool-cases (not (eqb_ℤ (ack -ℤ pos 1) (pos 0)))) [
    | inl p ↦ rw (p, e) refl
    | inr p ↦ rw p refl
  ]

  -- What the estimate of the rate leaves as it was
  abbrev Same : Sender C W → Sender C W → Type ℓ
  Same s u =
      (u.bn_train ≡ s.bn_train)
      × (u.largest_ack ≡ s.largest_ack)
      × (u.npkts ≡ s.npkts)
      × (u.delay_aggr ≡ s.delay_aggr)
      × (u.last_ack_ts ≡ s.last_ack_ts)

  estimate-Same : (s : Sender C W) (ack : ℤ) (now : W) → Same s (estimate s ack now)
  unfolding estimate
  estimate-Same s ack now =
      if_either (Same s) _ (refl, refl, refl, refl, refl) (refl, refl, refl, refl, refl)

  take_ack-Acked :
      (s : Sender C W) (h : PacketHeader W) (now : W)
      → eqb_ℤ s.bn_train (pos 0) ≡ false
      → (u : Sender C W) × (take_ack s h now ≡ go u) × Acked s u h now
  unfolding take_ack account
  take_ack-Acked s h now b =
      let ack = h.seq_num +ℤ pos 1 in
      let t = estimate (record s { curr_ts = now; last_ack_ts = now }) ack now in
      let same = estimate-Same (record s { curr_ts = now; last_ack_ts = now }) ack now in
      let v = account t h now in
      (
        record v { largest_ack = max_ℤ v.largest_ack ack },
        ap
            (λ (f : Flow (Sender C W)).
              f >>= λ u. go (record u { largest_ack = max_ℤ u.largest_ack ack }))
            (tell_cong_go v ack h now (ap (λ n. eqb_ℤ n (pos 0)) same.0 ∙ b)),
        record {
          acked = le_max_right v.largest_ack ack;
          kept = subst (λ n. n ≤ℤ max_ℤ v.largest_ack ack) same.1 (le_max_left v.largest_ack ack);
          counted = ap (λ n. n + 1) same.2;
          times = (same.4, refl);
          delay = ap (λ w. plus w (minus now h.send_ts)) same.3;
        },
      )

  -- With a train that is not 0: the answer that the receiver gives to a packet of the flow, when it comes
  -- back, acknowledges that packet, is counted once, and adds the time since the packet was sent.
  pub echo-acks :
      (j : Job W) (s : Sender C W) (h : PacketHeader W) (t now : W)
      → eqb_ℤ s.bn_train (pos 0) ≡ false
      → h.fid ≡ j.fid
      → h.sid ≡ j.sid
      → (u : Sender C W) × (after_receive j s (packet (echo t h)) now ≡ go u) × Acked s u h now
  unfolding after_receive dispatch take_ack
  echo-acks j s h t now b f g =
      let (u, e, a) = take_ack-Acked (record s { buf = echo t h }) (echo t h) now b in
      (
        u,
        rw (same_id g, same_id f) e,
        record {
          acked = a.acked;
          kept = a.kept;
          counted = a.counted;
          times = a.times;
          delay = a.delay;
        },
      )

  -- With a train that is not 0: a receive that fails after a packet was sent acknowledges that packet,
  -- which is counted once, and the time since it was sent is added.
  pub failed_receive_acks :
      (j : Job W) (s : Sender C W) (now : W)
      → eqb_ℤ s.bn_train (pos 0) ≡ false
      → (u : Sender C W) × (after_receive j (send_one j s) failed now ≡ go u)
        × Acked (send_one j s) u (create_header s.seq_num j.fid j.sid s.curr_ts) now
  unfolding send_one create_header
  failed_receive_acks j s now b =
      let (u, e, a) =
        take_ack-Acked (send_one j s) (create_header s.seq_num j.fid j.sid s.curr_ts) now b in
      (u, failed_receive_taken j s now ∙ e, a)
