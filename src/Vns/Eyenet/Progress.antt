-- ===== src/Vns/Eyenet/Progress.antt =====
-- An acknowledgment never ends the program, as long as the clock does not go back.
use tcp_eyenet.Prelude.{◌≡◌, false}
use tcp_eyenet.Prelude.Int.{ℤ, negsuc}
use tcp_eyenet.Double.{Double, IsIeee, ◌≼◌, ◌≺◌}
use tcp_eyenet.Double.Laws.{not_lt_of_le}
use tcp_eyenet.Vns.RttWin.Order.{IsTracking, min-le-virgin}
use tcp_eyenet.Vns.Eyenet.State.{Eyenet}
use tcp_eyenet.Vns.Eyenet.Handlers.{ok, take_sample, on_ack}
use tcp_eyenet.Vns.Eyenet.Ledger.{Ascending}
use tcp_eyenet.Vns.Eyenet.Losses.{on_ack-held}

module _ {ℓ} {W : Type ℓ} ⦃d : Double W⦄ (laws : IsIeee W) where
  pub sampled_order :
      (s : Eyenet W) (rtt now : W)
      → IsTracking s.rtt_sample now
      → now ≼ s.curr_ts
      → rtt ≺ d.double_max
      → let t = take_sample s rtt in d.lt t.rtt_sample.virgin_rtt.tail t.rtt_min ≡ false
  unfolding take_sample
  sampled_order s rtt now t later small =
      not_lt_of_le laws _ _ (min-le-virgin laws s.rtt_sample rtt s.curr_ts now t small later)

  -- If the packet was not sent after now, the last sample not taken after now, the round-trip time is
  -- below DOUBLE_MAX and the map in order, then `on_ack` returns: none of its three exits is taken.
  pub on_ack-returns :
      (s : Eyenet W) (ack : ℤ) (recv_ts send_ts now : W)
      → IsTracking s.rtt_sample now
      → now ≼ s.curr_ts
      → send_ts ≼ s.curr_ts
      → d.minus s.curr_ts send_ts ≺ d.double_max
      → Ascending (negsuc 0) s.unacked_pkts
      → (t : Eyenet W) × (on_ack s ack recv_ts send_ts ≡ ok t)
  on_ack-returns s ack recv_ts send_ts now track later sent small a =
      let (t, run, h) =
        on_ack-held s ack recv_ts send_ts a (not_lt_of_le laws s.curr_ts send_ts sent)
          (sampled_order s (d.minus s.curr_ts send_ts) now track later small) in
      (t, run)
