-- ===== src/Vns/Transport/Sender.antt =====
-- `tcp_transport::send_data`, after the handshake. A turn of its loop takes the readings of the clock
-- and the result of the receive from outside. `nbytes` is an int32_t that gcc wraps; it is kept as its
-- pattern below 2^32. A division of an integer by zero, and an exit of the congestion control, halt.
use tcp_eyenet.Prelude.{
  ℕ, zero, suc, ◌+◌, ◌*◌, ◌%◌, ◌^◌, Bool, true, not, ◌&&◌, ◌||◌, List, [], ◌∷◌, if◌then◌else◌,
}
use tcp_eyenet.Prelude.Int.{ℤ, pos, ◌+ℤ◌, ◌-ℤ◌, ◌*ℤ◌, quot, rem, eqb_ℤ, ltb_ℤ}
use tcp_eyenet.Double.{Double, fmin}
use tcp_eyenet.Vns.Transport.Interface.{
  Cong, PacketHeader, Received, nothing, buffer_after, neg, payload, create_header,
}
pub use tcp_eyenet.Vns.Transport.State.{
  Halt, exited, division_by_zero, out_of_fuel, Flow, go, halt, ◌>>=◌, of_outcome, max_ℤ, Sender,
  Turn, Job,
}

module _ {ℓ κ} {W : Type ℓ} {C : Type κ} ⦃d : Double W⦄ ⦃c : Cong C W⦄ where
  open d use {dec, of_int, plus, minus, times, over, lt, le, eq}

  -- What stands between the handshake and the loop.
  unfoldable pub begin_flow : Sender C W → W → W → Sender C W
  begin_flow s first_ts second_ts = record s {
    largest_ack = neg;
    seq_num = pos 0;
    rate_est = dec 0 0;
    last_s_ts = first_ts;
    last_ack_ts = first_ts;
    curr_ts = second_ts;
    cong = c.initialize (c.set_ts s.cong second_ts);
  }

  -- The test of the loop: `_switch_sz < fsz`
  unfoldable pub goes_on : Job W → Sender C W → Bool
  goes_on j s = lt (if j.byte_switcher then of_int (pos (s.npkts * payload)) else s.curr_ts) j.fsz

  -- The reset when no acknowledgment has come for 2000 ms
  unfoldable pub check_timeout : Sender C W → W → Sender C W
  unfolding ◌-ℤ◌
  check_timeout s now =
      let t = record s { curr_ts = now } in
      if lt (dec 2000 0) (minus now s.last_ack_ts)
      then record t {
        cong = c.initialize (c.set_ts s.cong now);
        largest_ack = s.seq_num -ℤ pos 1;
        last_s_ts = now;
        last_ack_ts = now;
      }
      else t

  -- `intersend * bn_train`
  abbrev pub train_gap : Sender C W → W
  train_gap s = times (c.intersend s.cong) (of_int s.bn_train)

  -- The first half of the test of the burst: the window and the pace let a train start.
  unfoldable pub may_start : Sender C W → Bool
  may_start s =
      lt (of_int s.seq_num) (plus (plus (of_int s.largest_ack) (c.cwnd s.cong)) (dec 1 0))
      && le (plus s.last_s_ts (train_gap s)) s.curr_ts

  -- The body of the burst
  unfoldable pub send_one : Job W → Sender C W → Sender C W
  unfolding rem quot ◌+ℤ◌
  send_one j s =
      let hdr = create_header s.seq_num j.fid j.sid s.curr_ts in
      let first = eqb_ℤ (rem s.seq_num s.bn_train) (pos 0) in
      record s {
        buf = hdr;
        sent = hdr ∷ s.sent;
        last_s_ts = plus s.last_s_ts (c.intersend s.cong);
        cong =
            if first
            then c.on_pkt_sent (c.set_ts s.cong s.curr_ts) (quot s.seq_num s.bn_train)
            else s.cong;
        seq_num = s.seq_num +ℤ pos 1;
      }

  -- The burst. Where the first half of its test holds, the second one is not evaluated, and the
  -- remainder by `bn_train` is taken in the body, behind the packet; else it is taken in the test.
  unfoldable pub burst : ℕ → Job W → Sender C W → Flow (Sender C W)
  unfolding rem
  burst zero j s = halt out_of_fuel
  burst (suc fuel) j s =
      let rest = burst fuel j (send_one j s) in
      let body = if eqb_ℤ s.bn_train (pos 0) then halt division_by_zero else rest in
      if may_start s
      then body
      else if eqb_ℤ s.bn_train (pos 0)
      then halt division_by_zero
      else if eqb_ℤ (rem s.seq_num s.bn_train) (pos 0)
      then go s
      else body

  -- After the burst
  unfoldable pub settle_pace : Sender C W → Sender C W
  settle_pace s =
      if le (train_gap s) (minus s.curr_ts s.last_s_ts)
        || le (plus (of_int s.largest_ack) (c.cwnd s.cong)) (of_int s.seq_num)
      then record s { last_s_ts = s.curr_ts }
      else s

  -- `timeout`, which goes to the receive
  unfoldable pub poll_timeout : Sender C W → W → W
  poll_timeout s now =
      if lt (dec 0 0) (c.cwnd s.cong)
      then fmin (dec 1000 0) (minus (plus s.last_s_ts (train_gap s)) now)
      else plus s.last_s_ts (dec 1000 0)

  -- Nothing came in time.
  unfoldable pub idle : Sender C W → W → Sender C W
  idle s now =
      let t = record s { curr_ts = now } in
      if lt (plus s.last_s_ts (c.rto s.cong)) now then record t { cong = c.on_to s.cong } else t

  -- `rate_est`, with `gap` since the last packet that came
  unfoldable pub new_rate : Sender C W → W → W
  new_rate s gap =
      let alpha = over (dec 1 0) (dec 16 0) in
      if eq s.rate_est (dec 0 0)
      then times (dec 1 0) gap
      else plus (times (minus (dec 1 0) alpha) s.rate_est) (times alpha gap)

  -- The estimate of the rate, from a packet whose number plus one is `ack`
  unfoldable pub estimate : Sender C W → ℤ → W → Sender C W
  unfolding ◌-ℤ◌ ◌*ℤ◌
  estimate s ack now =
      let rate = new_rate s (minus now s.last_r_ts) in
      if not (eqb_ℤ ((ack -ℤ pos 1) *ℤ s.bn_train) (pos 0)) && not (eq s.last_r_ts (dec 0 0))
      then record s {
        rate_est = rate;
        cong =
            if ltb_ℤ (pos 2 *ℤ s.bn_train) ack
            then c.on_rate_est s.cong (over (dec 1000 0) rate)
            else s.cong;
      }
      else s

  -- The counters of the statistics
  unfoldable pub account : Sender C W → PacketHeader W → W → Sender C W
  account s hdr now = record s {
    last_r_ts = now;
    delay_aggr = plus s.delay_aggr (minus now hdr.send_ts);
    nbytes = (s.nbytes + payload) % 2 ^ 32;
    npkts = s.npkts + 1;
  }

  -- `if ((ack_hdr.seq_num - 1) && bn_train == 0) …`, with the division by `bn_train` in its body
  unfoldable pub tell_cong : Sender C W → ℤ → PacketHeader W → W → Flow (Sender C W)
  unfolding ◌-ℤ◌
  tell_cong s ack hdr now =
      let acked = c.on_ack (c.set_ts s.cong now) (quot ack s.bn_train) hdr.recv_ts hdr.send_ts in
      if not (eqb_ℤ (ack -ℤ pos 1) (pos 0)) && eqb_ℤ s.bn_train (pos 0)
      then if eqb_ℤ s.bn_train (pos 0)
        then halt division_by_zero
        else (of_outcome acked >>= λ k. go (record s { cong = k }))
      else go s

  -- A packet of this flow
  unfoldable pub take_ack : Sender C W → PacketHeader W → W → Flow (Sender C W)
  unfolding ◌+ℤ◌
  take_ack s hdr now =
      let ack = hdr.seq_num +ℤ pos 1 in
      let t = estimate (record s { curr_ts = now; last_ack_ts = now }) ack now in
      tell_cong (account t hdr now) ack hdr now >>= λ u.
      go (record u { largest_ack = max_ℤ u.largest_ack ack })

  -- A packet in `buf`; that of another flow is passed over.
  unfoldable pub dispatch : Job W → Sender C W → PacketHeader W → W → Flow (Sender C W)
  dispatch j s h now =
      let t = record s { buf = h } in
      if not (eqb_ℤ h.sid j.sid) || not (eqb_ℤ h.fid j.fid) then go t else take_ack t h now

  -- What follows the receive; a failed one is taken for the packet whose header is in `buf`.
  unfoldable pub after_receive : Job W → Sender C W → Received W → W → Flow (Sender C W)
  after_receive j s nothing now = go (idle s now)
  after_receive j s r now = dispatch j s (buffer_after s.buf r) now

  -- One turn of the loop
  unfoldable pub turn : ℕ → Job W → Sender C W → Turn W → Flow (Sender C W)
  turn fuel j s i = burst fuel j (check_timeout s i.start_ts) >>= λ t.
      after_receive j (record (settle_pace t) { curr_ts = i.wait_ts }) i.received i.wake_ts

  -- The loop over the turns that are given; the flag says that it ended by its test.
  unfoldable pub turns : ℕ → Job W → Sender C W → List (Turn W) → Flow (Sender C W × Bool)
  turns fuel j s [] = go (s, not (goes_on j s))
  turns fuel j s (i ∷ is) =
      let rest = turn fuel j s i >>= λ t. turns fuel j t is in
      if goes_on j s then rest else go (s, true)

  -- What follows the loop, but for the report
  unfoldable pub end_flow : Sender C W → W → Sender C W
  end_flow s now = record s {
    curr_ts = now;
    cong = c.close (c.set_ts s.cong now);
    trans_time_aggr = plus s.trans_time_aggr now;
  }
