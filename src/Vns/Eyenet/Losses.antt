-- ===== src/Vns/Eyenet/Losses.antt =====
-- What an acknowledgment does to the packets in flight: those up to it leave, and those below it are
-- counted as lost.
use tcp_eyenet.Prelude.{
  ℕ, ◌+◌, ◌≡◌, ◌∙◌, ap, refl, subst, sym, false, arith, if◌then◌else◌, Bool-cases, [], ◌∷◌, inl,
  inr,
}
use tcp_eyenet.Prelude.Int.{ℤ, pos, negsuc, ltb_ℤ, ◌-ℤ◌}
use tcp_eyenet.Double.{Double}
use tcp_eyenet.Vns.Eyenet.State.{Eyenet, Unacked, PacketInfo}
use tcp_eyenet.Vns.Eyenet.Packets.{count, erase}
use tcp_eyenet.Vns.Eyenet.Handlers.{
  Outcome, ok, exit_failure, send_in_future, rtt_below_min, malformed_unacked, ◌>>=◌, Sweep,
  take_sample, sweep_entry, sweep, sweep_acked, finish_ack, react, on_ack,
}
use tcp_eyenet.Vns.Eyenet.Ledger.{
  Ascending, above, below, above_all, below_none, erase_first, books, Held, held, counted,
  held-take_sample, held-react, held-finish_ack,
}

-- The empty type, at every level.
pub data Never {ℓ} : Type ℓ where

module _ {ℓ} {W : Type ℓ} ⦃d : Double W⦄ where
  -- What is left after the entries `m`, all that there are, have been swept.
  abbrev Swept : ℤ → Unacked W → Sweep W → Sweep W → Type ℓ
  Swept seq m w v = held v.state ≡ (
    (above seq m, w.state.nlost + below seq m, w.state.nsent, w.state.nack),
    w.state.rtt_sample,
    w.state.curr_ts,
  )

  sweep_entry-held :
      (seq k : ℤ) (p : PacketInfo W) (r : Unacked W) (w : Sweep W)
      → w.state.unacked_pkts ≡ (k, p) ∷ r
      → held (sweep_entry seq k p w).state ≡ (
        (r, w.state.nlost + (if ltb_ℤ k seq then 1 else 0), w.state.nsent, w.state.nack),
        w.state.rtt_sample,
        w.state.curr_ts,
      )
  unfolding sweep_entry
  sweep_entry-held seq k p r w e = ground (arith, erase_first k p r, ap (erase k) e)

  sweep-Swept :
      (seq tmp : ℤ) (m : Unacked W) (w : Sweep W)
      → Ascending tmp m
      → w.state.unacked_pkts ≡ m
      → (v : Sweep W) × (sweep seq tmp m w ≡ ok v) × Swept seq m w v
  unfolding sweep above below
  sweep-Swept seq tmp [] w a e = (w, refl, ground arith)
  sweep-Swept seq tmp ((k, p) ∷ r) w a e = elim (Bool-cases (ltb_ℤ seq k)) [
    | inl far ↦
        (w, ground arith, ground (arith, above_all seq k r a.1 far, below_none seq k r a.1 far))
    | inr near ↦
        let b = sweep_entry-held seq k p r w e in
        let (v, run, swept) =
          sweep-Swept seq k r (sweep_entry seq k p w) a.1 (ap (λ (c : Held W). c.0.0) b) in
        (v, ground (arith, run), ground (arith, swept, b))
  ]

  -- The books after an acknowledgment of `seq_no`: without an entry for it the map stays.
  abbrev pub acked_books : ℤ → Unacked W × ℕ × ℕ × ℕ → Unacked W × ℕ × ℕ × ℕ
  acked_books seq_no b =
      if count seq_no b.0 then (above seq_no b.0, b.1 + below seq_no b.0, b.2, b.3) else b

  sweep_acked-held :
      (seq : ℤ) (s : Eyenet W)
      → Ascending (negsuc 0) s.unacked_pkts
      → (v : Sweep W) × (sweep_acked seq s ≡ ok v)
        × (held v.state ≡ (acked_books seq (books s), s.rtt_sample, s.curr_ts))
  unfolding sweep_acked
  sweep_acked-held seq s a = elim (Bool-cases (count seq s.unacked_pkts)) [
    | inl e ↦
        let (v, run, swept) =
          sweep-Swept seq (negsuc 0) s.unacked_pkts
            (record { state = s; lost = false; reduce = false }) a refl in
        (v, rw e run, rw e swept)
    | inr e ↦ (record { state = s; lost = false; reduce = false }, rw e, rw e)
  ]

  abbrev pub after_ack : ℤ → Unacked W × ℕ × ℕ × ℕ → Unacked W × ℕ × ℕ × ℕ
  after_ack seq_no b = let c = acked_books seq_no b in (c.0, c.1, c.2, c.3 + 1)

  -- A result has the property, and an exit is not for a malformed map.
  abbrev pub Expect : (Eyenet W → Type ℓ) → Outcome (Eyenet W) → Type ℓ
  Expect P (ok t) = P t
  Expect P (exit_failure send_in_future) = Unit
  Expect P (exit_failure rtt_below_min) = Unit
  Expect P (exit_failure malformed_unacked) = Never

  -- `on_ack` from the loop on.
  abbrev settle : ℤ → Eyenet W → Outcome (Eyenet W)
  settle seq s = sweep_acked seq s >>= λ w. ok (finish_ack w)

  abbrev acked : ℤ → Held W → Held W
  acked seq_no h = (after_ack seq_no h.0, h.1, h.2)

  settle-held :
      (seq : ℤ) (s : Eyenet W)
      → Ascending (negsuc 0) s.unacked_pkts
      → (t : Eyenet W) × (settle seq s ≡ ok t) × (held t ≡ acked seq (held s))
  settle-held seq s a =
      let (v, run, b) = sweep_acked-held seq s a in
      (finish_ack v, rw run, held-finish_ack v ∙ ap counted b)

  -- Past its two checks `on_ack` returns, with the sample among the samples and the clock as it was.
  pub on_ack-held :
      (s : Eyenet W) (ack : ℤ) (recv_ts send_ts : W)
      → Ascending (negsuc 0) s.unacked_pkts
      → let sampled = take_sample s (d.minus s.curr_ts send_ts) in
        d.lt s.curr_ts send_ts ≡ false
        → d.lt sampled.rtt_sample.virgin_rtt.tail sampled.rtt_min ≡ false
        → (t : Eyenet W) × (on_ack s ack recv_ts send_ts ≡ ok t)
          × (held t ≡ (after_ack (ack -ℤ pos 1) (books s), sampled.rtt_sample, s.curr_ts))
  unfolding on_ack
  on_ack-held s ack recv_ts send_ts a past order =
      let rtt = d.minus s.curr_ts send_ts in
      let sampled = take_sample s rtt in
      let same = held-react sampled rtt ∙ held-take_sample s rtt in
      let reacted : Ascending (negsuc 0) (react sampled rtt).unacked_pkts =
        subst (Ascending (negsuc 0)) (sym (ap (λ (c : Held W). c.0.0) same)) a in
      let (t, run, h) = settle-held (ack -ℤ pos 1) (react sampled rtt) reacted in
      (t, rw (past, order) run, h ∙ ap (acked (ack -ℤ pos 1)) same)

  -- With the entries of the map in order and none below 0, the loop never stops the program; of the
  -- packets in flight those up to the acknowledged one leave, those below it are counted as lost, and
  -- all others stay. An acknowledgment of a packet that is not in flight only counts itself.
  pub on_ack-books :
      (s : Eyenet W) (ack : ℤ) (recv_ts send_ts : W)
      → Ascending (negsuc 0) s.unacked_pkts
      → Expect (λ t. books t ≡ after_ack (ack -ℤ pos 1) (books s)) (on_ack s ack recv_ts send_ts)
  unfolding on_ack
  on_ack-books s ack recv_ts send_ts a =
      let P : Eyenet W → Type ℓ = λ t. books t ≡ after_ack (ack -ℤ pos 1) (books s) in
      let sampled = take_sample s (d.minus s.curr_ts send_ts) in
      elim (Bool-cases (d.lt s.curr_ts send_ts)) [
        | inl early ↦ rw early tt
        | inr past ↦ elim (Bool-cases (d.lt sampled.rtt_sample.virgin_rtt.tail sampled.rtt_min)) [
          | inl e ↦ rw (past, e) tt
          | inr order ↦
              let (t, run, h) = on_ack-held s ack recv_ts send_ts a past order in
              subst (Expect P) (sym run) (ap (λ (c : Held W). c.0) h)
        ]
      ]
