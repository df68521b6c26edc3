-- ===== src/Vns/Eyenet/Runs.antt =====
-- Whole runs of the congestion control, from its constructor on, by calls that come in order.
use tcp_eyenet.Prelude.{
  ℕ, ◌+◌, ◌≤◌, ◌≡◌, ◌∙◌, refl, ap, subst, sym, arith, List, [], ◌∷◌, length, if_either, Bool-cases,
  inl, inr,
}
use tcp_eyenet.Prelude.Int.{ℤ, pos, negsuc, ◌-ℤ◌, ◌<ℤ◌, ltb_ℤ}
use tcp_eyenet.Double.{Double, IsIeee, ◌≼◌, ◌≺◌}
use tcp_eyenet.Double.Laws.{not_lt_of_le}
use tcp_eyenet.Vns.RttWin.Order.{
  IsTracking, rtt_win-IsTracking, clear-IsTracking, later-IsTracking, add-IsTracking,
}
use tcp_eyenet.Vns.Eyenet.State.{Eyenet, Unacked, eyenet, set_ts, initialize}
use tcp_eyenet.Vns.Eyenet.Packets.{count, insert}
use tcp_eyenet.Vns.Eyenet.Handlers.{
  ok, take_sample, age_oldest, packet_info, remember, count_sent, on_ack, on_pkt_sent,
}
use tcp_eyenet.Vns.Eyenet.Ledger.{Ascending, above, below, Held, books, held, insert-Ascending}
use tcp_eyenet.Vns.Eyenet.Losses.{after_ack, on_ack-held}
use tcp_eyenet.Vns.Eyenet.Progress.{sampled_order}
use tcp_eyenet.Vns.Eyenet.Steady.{Call, sets_ts, initializes, acks, sends, step, run}

module _ {ℓ} {P : Type ℓ} where
  insert-length : (k : ℤ) (p : P) (m : List (ℤ × P)) → length (insert k p m) ≤ length m + 1
  unfolding insert
  insert-length k p [] = omega arith
  insert-length k p (e ∷ m) = ground (arith, insert-length k p m)

  above-below-length : (k : ℤ) (m : List (ℤ × P)) → length (above k m) + below k m ≤ length m
  unfolding above below
  above-below-length k [] = omega arith
  above-below-length k (e ∷ m) = ground (arith, above-below-length k m)

  Ascending-lower : (lo hi : ℤ) (m : List (ℤ × P)) → lo <ℤ hi → Ascending hi m → Ascending lo m
  Ascending-lower lo hi [] h a = tt
  Ascending-lower lo hi (e ∷ m) h a = ground arith

  above-Ascending : (k lo : ℤ) (m : List (ℤ × P)) → Ascending lo m → Ascending lo (above k m)
  unfolding above
  above-Ascending k lo [] h = tt
  above-Ascending k lo (e ∷ m) h =
      let rest = above-Ascending k e.0 m h.1 in
      elim (Bool-cases (ltb_ℤ k e.0)) [
        | inl far ↦ rw far (h.0, rest)
        | inr near ↦ rw near (Ascending-lower lo e.0 (above k m) h.0 rest)
      ]

module _ {ℓ} {W : Type ℓ} ⦃d : Double W⦄ where
  open d use {dec, minus, double_max}

  -- Calls that come in order after `now`: the clock does not go back but at a restart, a packet that is
  -- acknowledged was not sent after now, its round-trip time is below DOUBLE_MAX, and the numbers of the
  -- packets sent are not negative.
  pub data Orderly : W → List (Call W) → Type ℓ where
    done : {now : W} → Orderly now []
    ticks :
        {now : W} (ts : W) {cs : List (Call W)}
        → now ≼ ts
        → Orderly ts cs
        → Orderly now (sets_ts ts ∷ cs)
    restarts :
        {now : W} (ts : W) {cs : List (Call W)}
        → Orderly ts cs
        → Orderly now (sets_ts ts ∷ initializes ∷ cs)
    arrives :
        {now : W} (ack : ℤ) (recv_ts send_ts : W) {cs : List (Call W)}
        → send_ts ≼ now
        → minus now send_ts ≺ double_max
        → Orderly now cs
        → Orderly now (acks ack recv_ts send_ts ∷ cs)
    leaves :
        {now : W} (seq_no : ℤ) {cs : List (Call W)}
        → negsuc 0 <ℤ seq_no
        → Orderly now cs
        → Orderly now (sends seq_no ∷ cs)

  -- The windows of the round-trip times track the samples up to `now`, the map of packets in flight is
  -- in order, and the packets lost and in flight are among those sent.
  pub record IsSound (s : Eyenet W) : Type ℓ where
    pub track : IsTracking s.rtt_sample s.curr_ts
    pub order : Ascending (negsuc 0) s.unacked_pkts
    pub accounts : s.nlost + length s.unacked_pkts ≤ s.nsent

  acked-Ascending :
      (q lo : ℤ) (b : Unacked W × ℕ × ℕ × ℕ) → Ascending lo b.0 → Ascending lo (after_ack q b).0
  acked-Ascending q lo b h =
      if_either {A = Unacked W × ℕ × ℕ × ℕ} (λ c. Ascending lo c.0) (count q b.0)
        (above-Ascending q lo b.0 h) h

  acked_accounts :
      (q : ℤ) (b : Unacked W × ℕ × ℕ × ℕ)
      → b.1 + length b.0 ≤ b.2
      → (after_ack q b).1 + length (after_ack q b).0 ≤ (after_ack q b).2
  acked_accounts q b h =
      if_either {A = Unacked W × ℕ × ℕ × ℕ} (λ c. c.1 + length c.0 ≤ c.2) (count q b.0)
        (omega (arith, above-below-length q b.0)) h

  -- Soundness is a property of the books, the samples and the clock.
  held-IsSound :
      (s : Eyenet W) (h : Held W)
      → held s ≡ h
      → IsTracking h.1 h.2
      → Ascending (negsuc 0) h.0.0
      → h.0.1 + length h.0.0 ≤ h.0.2
      → IsSound s
  held-IsSound s h e track order accounts = record {
    track = subst (λ (c : Held W). IsTracking c.1 c.2) (sym e) track;
    order = subst (λ (c : Held W). Ascending (negsuc 0) c.0.0) (sym e) order;
    accounts = subst (λ (c : Held W). c.0.1 + length c.0.0 ≤ c.0.2) (sym e) accounts;
  }

  -- What sending a packet does to the books.
  age-held : (m : Unacked W) (s : Eyenet W) → held (age_oldest m s) ≡ held s
  unfolding age_oldest
  age-held [] s = refl
  age-held ((k, p) ∷ r) s = ground arith

  sent-IsSound : (s : Eyenet W) (q : ℤ) → negsuc 0 <ℤ q → IsSound s → IsSound (on_pkt_sent s q)
  unfolding on_pkt_sent remember count_sent
  sent-IsSound s q h i =
      let t = remember s q in
      held-IsSound (on_pkt_sent s q) _
        (ap (λ (c : Held W). ((c.0.0, c.0.1, c.0.2 + 1, c.0.3), c.1, c.2))
          (age-held t.unacked_pkts t))
        i.track (insert-Ascending (negsuc 0) q (packet_info s) s.unacked_pkts h i.order)
        (omega (arith, insert-length q (packet_info s) s.unacked_pkts, i.accounts))

  sent_clock : (s : Eyenet W) (q : ℤ) → (on_pkt_sent s q).curr_ts ≡ s.curr_ts
  unfolding on_pkt_sent remember count_sent
  sent_clock s q = let t = remember s q in ap (λ (c : Held W). c.2) (age-held t.unacked_pkts t)

  restart-IsSound : (s : Eyenet W) (ts : W) → IsSound s → IsSound (initialize (set_ts s ts))
  unfolding initialize set_ts
  restart-IsSound s ts i = record {
    track = clear-IsTracking ts s.curr_ts i.track;
    order = tt;
    accounts = omega arith;
  }

  module _ (laws : IsIeee W) where
    tick-IsSound : (s : Eyenet W) (ts : W) → s.curr_ts ≼ ts → IsSound s → IsSound (set_ts s ts)
    unfolding set_ts
    tick-IsSound s ts h i = record {
      track = later-IsTracking s.curr_ts ts laws h i.track;
      order = i.order;
      accounts = i.accounts;
    }

    ack-IsSound :
        (s : Eyenet W) (ack : ℤ) (recv_ts send_ts : W)
        → send_ts ≼ s.curr_ts
        → minus s.curr_ts send_ts ≺ double_max
        → IsSound s
        → (t : Eyenet W) × (on_ack s ack recv_ts send_ts ≡ ok t)
          × IsSound t
          × (t.curr_ts ≡ s.curr_ts)
    unfolding take_sample
    ack-IsSound s ack recv_ts send_ts past small i =
        let rtt = minus s.curr_ts send_ts in
        let num = (laws.le_num send_ts s.curr_ts past).1 in
        let q = ack -ℤ pos 1 in
        let (t, e, h) =
          on_ack-held s ack recv_ts send_ts i.order (not_lt_of_le laws s.curr_ts send_ts past)
            (sampled_order laws s rtt s.curr_ts i.track num small) in
        (
          t,
          e,
          held-IsSound t _ h
              (add-IsTracking laws s.rtt_sample rtt s.curr_ts s.curr_ts i.track small num)
              (acked-Ascending q (negsuc 0) (books s) i.order)
              (acked_accounts q (books s) i.accounts),
          ap (λ (c : Held W). c.2) h,
        )

    eyenet-IsSound : IsSound (eyenet (dec 1 0))
    unfolding eyenet
    eyenet-IsSound = record {
      track = rtt_win-IsTracking (dec 0 0);
      order = tt;
      accounts = omega arith;
    }

    run-returns :
        (s : Eyenet W) (now : W) (cs : List (Call W))
        → s.curr_ts ≡ now
        → IsSound s
        → Orderly now cs
        → (t : Eyenet W) × (run s cs ≡ ok t) × IsSound t
    unfolding run step set_ts initialize
    run-returns s now [] e i done = (s, refl, i)
    run-returns s now (c ∷ cs) e i (ticks ts later rest) =
        run-returns (set_ts s ts) ts cs refl (tick-IsSound s ts (rw e later) i) rest
    run-returns s now (c ∷ e ∷ cs) e' i (restarts ts rest) =
        run-returns (initialize (set_ts s ts)) ts cs refl (restart-IsSound s ts i) rest
    run-returns s now (c ∷ cs) e i (arrives ack recv_ts send_ts past small rest) =
        let (t, f, k, same) = ack-IsSound s ack recv_ts send_ts (rw e past) (rw e small) i in
        let (u, g, l) = run-returns t now cs (same ∙ e) k rest in (u, rw f g, l)
    run-returns s now (c ∷ cs) e i (leaves seq_no h rest) =
        run-returns (on_pkt_sent s seq_no) now cs (sent_clock s seq_no ∙ e)
          (sent-IsSound s seq_no h i) rest

    -- From its constructor on the congestion control returns from every call, none of the exits of `on_ack`
    -- is ever taken, if the clock goes back at a restart only, what is acknowledged was not sent after now
    -- and took less than DOUBLE_MAX, and what is sent has no negative number. At the end its windows track
    -- their samples, the map is in order, and the packets lost and in flight are among those sent.
    pub run-eyenet-returns :
        (cs : List (Call W))
        → Orderly (dec 0 0) cs
        → (t : Eyenet W) × (run (eyenet (dec 1 0)) cs ≡ ok t) × IsSound t
    unfolding eyenet
    run-eyenet-returns cs h = run-returns (eyenet (dec 1 0)) (dec 0 0) cs refl eyenet-IsSound h
