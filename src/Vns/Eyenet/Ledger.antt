-- ===== src/Vns/Eyenet/Ledger.antt =====
-- The books of the congestion control: the map of packets in flight and the three counters; and the
-- parts of the handlers that leave alone the books, the samples of the round-trip time and the clock.
use tcp_eyenet.Prelude.{
  ℕ, ◌+◌, ◌-◌, ◌*◌, ◌≡◌, ◌∙◌, ap, refl, Bool, true, false, arith, if_either, ltb, if◌then◌else◌,
  List, [], ◌∷◌, ◌||◌,
}
use tcp_eyenet.Prelude.Int.{ℤ, ◌<ℤ◌, ltb_ℤ, eqb_ℤ→eq}
use tcp_eyenet.Double.{Double}
use tcp_eyenet.Vns.RttWin.{RttWin}
use tcp_eyenet.Vns.Eyenet.State.{
  Eyenet, Unacked, Utility, constant, auto, coop, Operations, default, tcp, loss,
}
use tcp_eyenet.Vns.Eyenet.Control.{
  update_intersend, update_delta, slow_start, velocity, limit_amt, move_cwnd, set_pace,
  delta_default, delta_on_loss, by_operation,
}
use tcp_eyenet.Vns.Eyenet.Packets.{erase, insert}
use tcp_eyenet.Vns.Eyenet.Handlers.{
  Sweep, take_sample, note_arrival, punish, tally_arrival, reduce_cwnd, count_ack, finish_ack,
  react,
}

-- The entries of the map are in strict order, above `lo`.
abbrev pub Ascending {ℓ} : {P : Type ℓ} → ℤ → List (ℤ × P) → Type 0
Ascending lo [] = Unit
Ascending lo (e ∷ m) = (lo <ℤ e.0) × Ascending e.0 m

-- The entries above a sequence number, and the number of those below it.
unfoldable pub above {ℓ} : {P : Type ℓ} → ℤ → List (ℤ × P) → List (ℤ × P)
above k [] = []
above k (e ∷ m) = if ltb_ℤ k e.0 then e ∷ above k m else above k m

unfoldable pub below {ℓ} : {P : Type ℓ} → ℤ → List (ℤ × P) → ℕ
below k [] = 0
below k (e ∷ m) = (if ltb_ℤ e.0 k then 1 else 0) + below k m

module _ {ℓ} {P : Type ℓ} where
  pub above_all : (k lo : ℤ) (m : List (ℤ × P)) → Ascending lo m → ltb_ℤ k lo ≡ true → above k m ≡ m
  unfolding above
  above_all k lo [] h g = refl
  above_all k lo (e ∷ m) h g = ground (arith, above_all k e.0 m)

  pub below_none :
      (k lo : ℤ) (m : List (ℤ × P)) → Ascending lo m → ltb_ℤ k lo ≡ true → below k m ≡ 0
  unfolding below
  below_none k lo [] h g = refl
  below_none k lo (e ∷ m) h g = ground (arith, below_none k e.0 m)

  pub insert-Ascending :
      (lo k : ℤ) (p : P) (m : List (ℤ × P)) → lo <ℤ k → Ascending lo m → Ascending lo (insert k p m)
  unfolding insert
  insert-Ascending lo k p [] h g = (h, tt)
  insert-Ascending lo k p (e ∷ m) h g = ground (arith, eqb_ℤ→eq e.0 k, insert-Ascending e.0 k p m)

  pub erase_first : (k : ℤ) (p : P) (m : List (ℤ × P)) → erase k ((k, p) ∷ m) ≡ m
  unfolding erase
  erase_first k p m = ground arith

-- The books, the samples and the clock.
abbrev pub Held {ℓ} : Type ℓ → Type ℓ
Held W = (Unacked W × ℕ × ℕ × ℕ) × RttWin W × W

module _ {ℓ} {W : Type ℓ} ⦃d : Double W⦄ where
  -- In flight, lost, sent, acknowledged.
  abbrev pub books : Eyenet W → Unacked W × ℕ × ℕ × ℕ
  books s = (s.unacked_pkts, s.nlost, s.nsent, s.nack)

  abbrev pub held : Eyenet W → Held W
  held s = (books s, s.rtt_sample, s.curr_ts)

  -- One more acknowledgment.
  abbrev pub counted : Held W → Held W
  counted h = ((h.0.0, h.0.1, h.0.2, h.0.3 + 1), h.1, h.2)

  held-set_pace : (s : Eyenet W) → held (set_pace s) ≡ held s
  unfolding set_pace
  held-set_pace s = refl

  held-limit : (s : Eyenet W) → held (limit_amt s) ≡ held s
  unfolding limit_amt
  held-limit s = refl

  held-velocity : (s : Eyenet W) → held (velocity s) ≡ held s
  unfolding velocity
  held-velocity s = refl

  held-slow_start : (s : Eyenet W) (t : W) → held (slow_start s t) ≡ held s
  unfolding slow_start
  held-slow_start s t = ground arith

  held-move_cwnd : (s : Eyenet W) (t : W) → held (move_cwnd s t) ≡ held s
  unfolding move_cwnd
  held-move_cwnd s t = ground arith

  held-update_intersend : (s : Eyenet W) → held (update_intersend s) ≡ held s
  unfolding update_intersend
  held-update_intersend s =
      if_either {A = Eyenet W} (λ t. held t ≡ held s) (ltb s.nack (2 * s.nprobe - 1)) refl
        (held-set_pace _
          ∙ held-move_cwnd _ _
          ∙ held-limit _
          ∙ if_either {A = Eyenet W} (λ t. held t ≡ held s) s.ss (held-slow_start s _)
              (held-velocity s))

  held-delta_default : (s : Eyenet W) (rtt : W) → held (delta_default s rtt) ≡ held s
  unfolding delta_default
  held-delta_default s rtt = ground arith

  held-delta_on_loss : (s : Eyenet W) (l : Bool) (rtt : W) → held (delta_on_loss s l rtt) ≡ held s
  unfolding delta_on_loss
  held-delta_on_loss s l rtt = ground arith

  held-by_operation :
      (op : Operations) (u : Utility) (s : Eyenet W) (l : Bool) (rtt : W)
      → held (by_operation op u s l rtt) ≡ held s
  unfolding by_operation
  held-by_operation default constant s l rtt = held-delta_default s rtt
  held-by_operation default auto s l rtt = held-delta_default s rtt
  held-by_operation default coop s l rtt = held-delta_on_loss s l rtt
  held-by_operation loss constant s l rtt = held-delta_on_loss s l rtt
  held-by_operation loss auto s l rtt = held-delta_on_loss s l rtt
  held-by_operation loss coop s l rtt = held-delta_on_loss s l rtt
  held-by_operation tcp constant s l rtt = refl
  held-by_operation tcp auto s l rtt = refl
  held-by_operation tcp coop s l rtt = held-delta_on_loss s l rtt

  held-update_delta : (s : Eyenet W) (l : Bool) (rtt : W) → held (update_delta s l rtt) ≡ held s
  unfolding update_delta
  held-update_delta s l rtt = held-by_operation _ s.utility_type _ l rtt

  held-note_arrival : (s : Eyenet W) → held (note_arrival s) ≡ held s
  unfolding note_arrival
  held-note_arrival s = refl

  -- The sample of an acknowledgment changes neither the books nor the clock.
  pub held-take_sample :
      (s : Eyenet W) (rtt : W)
      → held (take_sample s rtt) ≡ (books s, (take_sample s rtt).rtt_sample, s.curr_ts)
  unfolding take_sample
  held-take_sample s rtt = refl

  -- Before the loop an acknowledgment changes nothing in the books.
  pub held-react : (s : Eyenet W) (rtt : W) → held (react s rtt) ≡ held s
  unfolding react
  held-react s rtt = held-update_intersend _ ∙ held-update_delta _ false rtt ∙ held-note_arrival s

  held-punish : (w : Sweep W) → held (punish w) ≡ held w.state
  unfolding punish
  held-punish w =
      if_either {A = Eyenet W} (λ t. held t ≡ held w.state) w.lost
        (held-update_delta w.state true _) refl

  held-tally : (s : Eyenet W) → held (tally_arrival s).0 ≡ held s
  unfolding tally_arrival
  held-tally s = refl

  held-reduce : (s : Eyenet W) → held (reduce_cwnd s) ≡ held s
  unfolding reduce_cwnd
  held-reduce s = held-set_pace _

  -- After it, it counts one acknowledgment.
  pub held-finish_ack : (w : Sweep W) → held (finish_ack w) ≡ counted (held w.state)
  unfolding finish_ack count_ack
  held-finish_ack w =
      let p = tally_arrival (punish w) in
      let q : held p.0 ≡ held w.state = held-tally (punish w) ∙ held-punish w in
      ap counted (
        if_either {A = Eyenet W} (λ t. held t ≡ held w.state) (w.reduce || p.1)
          (held-reduce p.0 ∙ q) q)
