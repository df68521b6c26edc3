-- ===== src/Vns/Network.antt =====
-- A flow on the network: the sender of vns/vns_transport.hh, the receiver of vns/vns_receiver.cc, and
-- between them datagrams that come late, twice, out of order or not at all, among those of others.
use tcp_eyenet.Prelude.{
  ℕ, ◌≡◌, refl, ap, subst, sym, Bool, true, false, List, All, All-append, All_at, All_map, arith,
}
use tcp_eyenet.Prelude.Int.{ℤ, pos}
use mathlib.Core.List.{Memᴰ}
use tcp_eyenet.Double.{Double}
use tcp_eyenet.Vns.Socket.{SockaddrIn}
use tcp_eyenet.Vns.Transport.Interface.{Cong, PacketHeader, Received, nothing, failed, packet}
use tcp_eyenet.Vns.Transport.State.{OnGo}
use tcp_eyenet.Vns.Transport.Sender.{
  Sender, Turn, Job, go, begin_flow, goes_on, turn, burst, check_timeout, settle_pace,
  after_receive,
}
use tcp_eyenet.Vns.Transport.Numbers.{Mine, Below, Brings, IsNumbered, Grown, core}
use tcp_eyenet.Vns.Transport.Growing.{sends-Grown, receive-Grown}
use tcp_eyenet.Vns.Receiver.{Arrival, Server, echo, on_result}

-- The sender, whether it waits in its receive, and the receiver
pub record Net {ℓ κ} (C : Type κ) (W : Type ℓ) : Type (ℓ ⊔ κ) where
  pub sender : Sender C W
  pub waits : Bool
  pub server : Server W

module _ {ℓ} {W : Type ℓ} where
  -- The answer to a packet that was sent
  abbrev pub IsEcho : List (PacketHeader W) → PacketHeader W → Type ℓ
  IsEcho sent h = (p : PacketHeader W) × (now : W) × Memᴰ p sent × (h ≡ echo now p)

  -- If it is of the flow, it answers a packet that was sent.
  abbrev pub Honest : Job W → List (PacketHeader W) → PacketHeader W → Type ℓ
  Honest j sent h = Mine j h → IsEcho sent h

  -- It is among the answers.
  abbrev pub IsAnswer : Job W → List (PacketHeader W × SockaddrIn) → PacketHeader W → Type ℓ
  IsAnswer j acks h = Mine j h → (a : SockaddrIn) × Memᴰ (h, a) acks

  -- It is none of the flow.
  abbrev pub IsStrange : Job W → PacketHeader W → Type 0
  IsStrange j h = Mine j h → ⊥

  Honest-mono :
      (j : Job W) (l m : List (PacketHeader W)) (h : PacketHeader W)
      → ((p : PacketHeader W) → Memᴰ p l → Memᴰ p m)
      → Honest j l h
      → Honest j m h
  Honest-mono j l m h f k mine = let (p, now, s, e) = k mine in (p, now, f p s, e)

  Honest-Below :
      (j : Job W) (top : ℤ) (l : List (PacketHeader W)) (h : PacketHeader W)
      → All (Below j top) l
      → Honest j l h
      → Below j top h
  Honest-Below j top l h b k mine =
      let (p, now, s, e) = k mine in subst (Below j top) (sym e) (All_at (Below j top) p l b s) mine

  Brings-map {μ ν} :
      (P : PacketHeader W → Type μ) (Q : PacketHeader W → Type ν) (r : Received W)
      → ((h : PacketHeader W) → P h → Q h)
      → Brings P r
      → Brings Q r
  Brings-map P Q nothing f b = tt
  Brings-map P Q failed f b = tt
  Brings-map P Q (packet h) f b = f h b

  -- The answers and the buffer of the receiver
  abbrev AreHonest : Job W → List (PacketHeader W) → Server W → Type ℓ
  AreHonest j sent v = All (λ a. Honest j sent a.0) v.acks × Honest j sent v.buf

  on_result-AreHonest :
      (j : Job W) (sent : List (PacketHeader W)) (v : Server W) (r : Received W) (addr : SockaddrIn)
      (now : W)
      → Brings (λ h. Mine j h → Memᴰ h sent) r
      → AreHonest j sent v
      → AreHonest j sent (on_result v r addr now)
  unfolding on_result
  on_result-AreHonest j sent v failed addr now b h = h
  on_result-AreHonest j sent v nothing addr now b (acks, buf) =
      let again : Honest j sent (echo now v.buf) =
        λ m. let (p, t, s, e) = buf m in (p, now, s, ap (echo now) e) in
      (All-append _ v.acks _ acks (again, tt), again)
  on_result-AreHonest j sent v (packet h) addr now b (acks, buf) =
      let fresh : Honest j sent (echo now h) = λ m. (h, now, b m, refl) in
      (All-append _ v.acks _ acks (fresh, tt), fresh)

module _ {ℓ κ} {W : Type ℓ} {C : Type κ} ⦃d : Double W⦄ ⦃c : Cong C W⦄ (j : Job W) where
  -- The sender begins a turn of its loop with its burst; it ends the turn with its receive, which brings
  -- of the flow's packets only answers; or the receiver gets a packet, of the flow's only one that was
  -- sent, and answers.
  pub data Step : Net C W → Net C W → Type (ℓ ⊔ κ) where
    sends :
        {n : Net C W} (fuel : ℕ) (start_ts wait_ts : W) (s : Sender C W)
        → n.waits ≡ false
        → goes_on j n.sender ≡ true
        → burst fuel j (check_timeout n.sender start_ts) ≡ go s
        → Step n (record {
          sender = record (settle_pace s) { curr_ts = wait_ts };
          waits = true;
          server = n.server;
        })
    receives :
        {n : Net C W} (r : Received W) (wake_ts : W) (s : Sender C W)
        → n.waits ≡ true
        → Brings (IsAnswer j n.server.acks) r
        → after_receive j n.sender r wake_ts ≡ go s
        → Step n (record { sender = s; waits = false; server = n.server })
    answered :
        {n : Net C W} (a : Arrival W)
        → Brings (λ h. Mine j h → Memᴰ h n.sender.sent) a.received
        → Step n (record {
          sender = n.sender;
          waits = n.waits;
          server = on_result n.server a.received a.addr a.now;
        })

  -- A flow begins with nothing of its own under way.
  pub data Reach : Net C W → Type (ℓ ⊔ κ) where
    begun :
        (s : Sender C W) (first_ts second_ts : W) (v : Server W)
        → All (IsStrange j) s.sent
        → IsStrange j s.buf
        → All (λ a. IsStrange j a.0) v.acks
        → IsStrange j v.buf
        → Reach (record { sender = begin_flow s first_ts second_ts; waits = false; server = v })
    later : {n m : Net C W} → Reach n → Step n m → Reach m

  -- The largest acknowledgment is no more than the number of the next packet; the numbers of the packets
  -- sent are below it; and each answer of the flow answers a packet that was sent, with its number and
  -- its time of sending.
  pub record IsSound (n : Net C W) : Type ℓ where
    pub numbered : IsNumbered j (core n.sender)
    pub honest : All (λ a. Honest j n.sender.sent a.0) n.server.acks
    pub kept : Honest j n.sender.sent n.server.buf

  -- A sender that has grown is sound with the same receiver.
  Grown-IsSound :
      {n : Net C W} (s : Sender C W) (w : Bool)
      → IsSound n
      → Grown j n.sender.seq_num n.sender.sent (core s)
      → IsSound (record { sender = s; waits = w; server = n.server })
  Grown-IsSound {n} s w h (numbered, rises, more) = record {
    numbered = numbered;
    honest = All_map _ _ n.server.acks (λ x. Honest-mono j n.sender.sent s.sent x.0 more) h.honest;
    kept = Honest-mono j n.sender.sent s.sent n.server.buf more h.kept;
  }

  Step-IsSound : {n m : Net C W} → IsSound n → Step n m → IsSound m
  Step-IsSound {n} h (sends fuel start_ts wait_ts s free on e) =
      Grown-IsSound (record (settle_pace s) { curr_ts = wait_ts }) true h
        (subst
          (OnGo (λ t.
            Grown j n.sender.seq_num n.sender.sent
              (core (record (settle_pace t) { curr_ts = wait_ts }))))
          e (sends-Grown fuel j n.sender start_ts wait_ts h.numbered))
  Step-IsSound {n} h (receives r wake_ts s waiting b e) =
      let top = n.sender.seq_num in
      let low : Brings (Below j top) r =
        Brings-map (IsAnswer j n.server.acks) (Below j top) r
          (λ p ans mine.
            let (a, m) = ans mine in
            Honest-Below j top n.sender.sent p h.numbered.numbers
              (All_at (λ x. Honest j n.sender.sent x.0) (p, a) n.server.acks h.honest m) mine)
          b in
      Grown-IsSound s false h (
        subst (OnGo (λ t. Grown j top n.sender.sent (core t))) e
          (receive-Grown j n.sender r wake_ts low h.numbered))
  Step-IsSound {n} h (answered a b) =
      let (acks, buf) =
        on_result-AreHonest j n.sender.sent n.server a.received a.addr a.now b (h.honest, h.kept) in
      record { numbered = h.numbered; honest = acks; kept = buf }

  -- The sends and the receive, one after the other, are a turn of the loop.
  pub halves-turn :
      (fuel : ℕ) (s t u : Sender C W) (i : Turn W)
      → burst fuel j (check_timeout s i.start_ts) ≡ go t
      → after_receive j (record (settle_pace t) { curr_ts = i.wait_ts }) i.received i.wake_ts ≡ go u
      → turn fuel j s i ≡ go u
  unfolding turn
  halves-turn fuel s t u i e f = rw e f

  pub begin-IsNumbered :
      (s : Sender C W) (first_ts second_ts : W)
      → All (IsStrange j) s.sent
      → IsStrange j s.buf
      → IsNumbered j (core (begin_flow s first_ts second_ts))
  unfolding begin_flow
  begin-IsNumbered s first_ts second_ts sent buf = record {
    numbers = All_map (IsStrange j) (Below j (pos 0)) s.sent (λ h k m. absurd (k m)) sent;
    buffer = λ m. absurd (buf m);
    bound = omega arith;
  }

  begun-IsSound :
      (s : Sender C W) (first_ts second_ts : W) (v : Server W)
      → All (IsStrange j) s.sent
      → IsStrange j s.buf
      → All (λ (a : PacketHeader W × SockaddrIn). IsStrange j a.0) v.acks
      → IsStrange j v.buf
      → IsSound (record { sender = begin_flow s first_ts second_ts; waits = false; server = v })
  unfolding begin_flow
  begun-IsSound s first_ts second_ts v sent buf acks kept = record {
    numbered = begin-IsNumbered s first_ts second_ts sent buf;
    honest = All_map _ _ v.acks (λ x k m. absurd (k m)) acks;
    kept = λ m. absurd (kept m);
  }

  -- In every state that a flow reaches which begins with none of its packets under way, whatever of its
  -- packets and answers the network loses, repeats or brings in another order, and whatever comes of other
  -- flows: the largest acknowledgment is at most the number of the next packet, all packets of the flow
  -- that were sent have smaller numbers, and each answer of the flow is that of a packet that was sent.
  pub network-IsSound : {n : Net C W} → Reach n → IsSound n
  network-IsSound (begun s first_ts second_ts v sent buf acks kept) =
      begun-IsSound s first_ts second_ts v sent buf acks kept
  network-IsSound (later r t) = Step-IsSound (network-IsSound r) t
