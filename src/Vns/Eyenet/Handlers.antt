-- ===== src/Vns/Eyenet/Handlers.antt =====
-- `on_ack` and `on_pkt_sent` of vns/vns_eyenet.cc. `exit_failure` is `exit(EXIT_FAILURE)` with its
-- cause. The loop of `on_ack` erases the entry at which its iterator stands; the model goes on with
-- the next entry, as the code means to.
use tcp_eyenet.Prelude.{◌+◌, Bool, true, false, ◌||◌, List, [], ◌∷◌, if◌then◌else◌, length}
use tcp_eyenet.Prelude.Int.{ℤ, pos, negsuc, ◌-ℤ◌, ltb_ℤ}
use tcp_eyenet.Double.{Double}
use tcp_eyenet.Vns.Ewma
use tcp_eyenet.Vns.RttWin
use tcp_eyenet.Vns.DataRank
use tcp_eyenet.Vns.LossReduce
use tcp_eyenet.Vns.Eyenet.State.{Eyenet, PacketInfo, Unacked}
use tcp_eyenet.Vns.Eyenet.Packets.{count, erase, insert}
use tcp_eyenet.Vns.Eyenet.Control.{update_intersend, update_delta, set_pace}

pub data Fault : Type 0 where
  send_in_future rtt_below_min malformed_unacked : Fault

pub data Outcome {ℓ} (A : Type ℓ) : Type ℓ where
  ok : A → Outcome A
  exit_failure : Fault → Outcome A

infixl 5 ◌>>=◌
abbrev pub ◌>>=◌ {ℓ κ} : {A : Type ℓ} {B : Type κ} → Outcome A → (A → Outcome B) → Outcome B
ok a >>= f = f a
exit_failure c >>= f = exit_failure c

-- What holds of the result, if there is one.
abbrev pub OnOk {ℓ κ} : {A : Type ℓ} → (A → Type κ) → Outcome A → Type κ
OnOk P (ok a) = P a
OnOk P (exit_failure c) = Unit

-- The variables of the loop of `on_ack`.
pub record Sweep {ℓ} (W : Type ℓ) : Type ℓ where
  pub state : Eyenet W
  pub lost : Bool
  pub reduce : Bool

module _ {ℓ} {W : Type ℓ} ⦃d : Double W⦄ where
  open d use {dec, minus, times, over, of_int, lt, eq}

  -- The sample of an acknowledgment, and `rtt_min`
  unfoldable pub take_sample : Eyenet W → W → Eyenet W
  take_sample s curr_rtt =
      let sample = RttWin.add s.rtt_sample curr_rtt s.curr_ts in
      record s { rtt_sample = sample; rtt_min = sample.min_rtt.tail }

  -- The time since the last acknowledgment, if there was one
  unfoldable pub note_arrival : Eyenet W → Eyenet W
  note_arrival s =
      let gap = minus s.curr_ts s.last_ack_ts in
      let first = eq s.last_ack_ts (dec 0 0) in
      record s {
        interarrival = if first then s.interarrival else Ewma.update s.interarrival gap;
        interarrival_rank =
            if first then s.interarrival_rank else DataRank.add s.interarrival_rank gap;
        last_ack_ts = s.curr_ts;
      }

  -- The fields that the loop takes from an entry before it erases the entry.
  unfoldable pub note_entry : Eyenet W → ℤ → PacketInfo W → Eyenet W
  note_entry s k p = record s {
    last_intersend = p.intersend;
    last_intersend_rate = p.intersend_rate;
    last_rtt = p.rtt;
    last_rtt_update_ts = p.sent_ts;
    last_avg_send_rate = p.last_avg_send_rate;
    unacked_pkts = erase k s.unacked_pkts;
  }

  -- One round of the loop: an entry below the acknowledged one counts as lost.
  unfoldable pub sweep_entry : ℤ → ℤ → PacketInfo W → Sweep W → Sweep W
  unfolding note_entry
  sweep_entry seq_no k p w =
      let s = note_entry w.state k p in
      let (counted, asks) =
        LossReduce.update s.reduce_on_loss true s.curr_ts s.rtt_sample.curr_rtt in
      if ltb_ℤ k seq_no
      then record {
        state = record s { nlost = s.nlost + 1; reduce_on_loss = counted };
        lost = true;
        reduce = w.reduce || asks;
      }
      else record w { state = s }

  -- The loop over the entries, with `tmp_seq`
  unfoldable pub sweep : ℤ → ℤ → List (ℤ × PacketInfo W) → Sweep W → Outcome (Sweep W)
  unfolding sweep_entry
  sweep seq_no tmp_seq [] w = ok w
  sweep seq_no tmp_seq ((k, p) ∷ rest) w =
      if ltb_ℤ k tmp_seq
      then exit_failure malformed_unacked
      else if ltb_ℤ seq_no k
      then ok w
      else sweep seq_no k rest (sweep_entry seq_no k p w)

  -- `if (unacked_pkts.count(seq_no)) …`
  unfoldable pub sweep_acked : ℤ → Eyenet W → Outcome (Sweep W)
  unfolding sweep
  sweep_acked seq_no s =
      let w : Sweep W = record { state = s; lost = false; reduce = false } in
      if count seq_no s.unacked_pkts then sweep seq_no (negsuc 0) s.unacked_pkts w else ok w

  -- `if (loss) update_delta(true, 0)`
  unfoldable pub punish : Sweep W → Eyenet W
  punish w = if w.lost then update_delta w.state true (dec 0 0) else w.state

  -- The event of `reduce_on_loss` for the arrival, with its answer
  unfoldable pub tally_arrival : Eyenet W → Eyenet W × Bool
  tally_arrival s =
      let (counted, asks) =
        LossReduce.update s.reduce_on_loss false s.curr_ts s.rtt_sample.curr_rtt in
      (record s { reduce_on_loss = counted }, asks)

  -- `cwnd *= 0.8` and the pacing from it
  unfoldable pub reduce_cwnd : Eyenet W → Eyenet W
  reduce_cwnd s = set_pace (record s { cwnd = times s.cwnd (dec 8 1) })

  unfoldable pub count_ack : Eyenet W → Eyenet W
  count_ack s = record s { nack = s.nack + 1 }

  -- What follows the loop
  unfoldable pub finish_ack : Sweep W → Eyenet W
  finish_ack w =
      let (s, asks) = tally_arrival (punish w) in
      count_ack (if w.reduce || asks then reduce_cwnd s else s)

  -- `on_ack` between its second check and the loop
  unfoldable pub react : Eyenet W → W → Eyenet W
  react s curr_rtt = update_intersend (update_delta (note_arrival s) false curr_rtt)

  -- `eyenet::on_ack`; `recv_ts` is not used.
  unfoldable pub on_ack : Eyenet W → ℤ → W → W → Outcome (Eyenet W)
  on_ack s ack recv_ts send_ts =
      let curr_rtt = minus s.curr_ts send_ts in
      let sampled = take_sample s curr_rtt in
      let swept = sweep_acked (ack -ℤ pos 1) (react sampled curr_rtt) in
      if lt s.curr_ts send_ts
      then exit_failure send_in_future
      else if lt sampled.rtt_sample.virgin_rtt.tail sampled.rtt_min
      then exit_failure rtt_below_min
      else (swept >>= λ w. ok (finish_ack w))

  -- The loop of `on_pkt_sent`, which stops after the first entry
  unfoldable pub age_oldest : Unacked W → Eyenet W → Eyenet W
  age_oldest [] s = s
  age_oldest ((k, p) ∷ rest) s =
      let age = minus s.curr_ts p.sent_ts in
      if lt s.unacked_rtt.e age
      then record s {
        unacked_rtt = Ewma.update s.unacked_rtt age;
        last_intersend = p.intersend;
        last_intersend_rate = p.intersend_rate;
      }
      else s

  -- The entry of a packet; the size of the map is taken before the insertion.
  unfoldable pub packet_info : Eyenet W → PacketInfo W
  packet_info s = record {
    intersend = s.curr_intersend;
    intersend_rate = s.intersend_rate;
    last_avg_send_rate =
        over (of_int (pos (length s.unacked_pkts))) (minus s.curr_ts s.last_rtt_update_ts);
    rtt = s.rtt_sample.virgin_rtt.tail;
    sent_ts = s.curr_ts;
  }

  unfoldable pub remember : Eyenet W → ℤ → Eyenet W
  unfolding packet_info
  remember s seq_no = record s {
    unacked_pkts = insert seq_no (packet_info s) s.unacked_pkts;
    unacked_rtt = Ewma.set s.unacked_rtt s.rtt_sample.virgin_rtt.tail;
  }

  unfoldable pub count_sent : Eyenet W → Eyenet W
  count_sent s = record s { nsent = s.nsent + 1; intersend = s.curr_intersend }

  -- `eyenet::on_pkt_sent`
  unfoldable pub on_pkt_sent : Eyenet W → ℤ → Eyenet W
  on_pkt_sent s seq_no = let t = remember s seq_no in count_sent (age_oldest t.unacked_pkts t)
