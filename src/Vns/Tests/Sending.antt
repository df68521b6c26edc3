-- ===== src/Vns/Tests/Sending.antt =====
-- The transport over Eyenet at work.
use tcp_eyenet.Prelude.{◌≡◌, refl, Bool, false, List, [], ◌∷◌, ℕ, some}
use tcp_eyenet.Prelude.Int.{ℤ, pos, negsuc, ◌-ℤ◌, ◌*ℤ◌}
use tcp_eyenet.Double.Fixed.{fixed_double, fixed_dec, fixed_of_int}
use tcp_eyenet.Vns.Eyenet.State.{Eyenet, eyenet}
use tcp_eyenet.Vns.Transport.Interface.{eyenet_cong, PacketHeader, failed, packet, create_header}
use tcp_eyenet.Vns.Transport.Handshake.{Shake, probe, is_reply, send_probe, shake_round, handshake}
use tcp_eyenet.Vns.Transport.Sender.{
  go, Sender, Turn, Job, begin_flow, send_one, after_receive, turns,
}
use tcp_eyenet.Vns.Transport.State.{OnGo}
use tcp_eyenet.Vns.Transport.Frozen.{IsFrozen, flow-IsFrozen}
use tcp_eyenet.Vns.Receiver.Echo.{Acked, failed_receive_acks}
use tcp_eyenet.Vns.Transport.Faults.{IsAnswer, Heard, handshake-reply, failed_receive_connects}

abbrev pub ms : ℕ → ℤ
ms n = fixed_dec n 0

abbrev pub fresh : Sender (Eyenet ℤ) ℤ
fresh = record {
  cong = eyenet (ms 1);
  bn_train = pos 1;
  last_s_ts = ms 0;
  last_r_ts = ms 0;
  last_ack_ts = ms 0;
  delay_aggr = ms 0;
  trans_time_aggr = ms 0;
  largest_ack = negsuc 0;
  npkts = 0;
  nbytes = 0;
  seq_num = pos 0;
  curr_ts = ms 0;
  rate_est = ms 0;
  buf = probe;
  sent = [];
}

abbrev pub job : Job ℤ
job = record { fsz = ms 5000; byte_switcher = false; fid = pos 1; sid = pos 7 }

abbrev reply : PacketHeader ℤ
reply = record { seq_num = pos 0; fid = pos 1; sid = pos 7; send_ts = ms 1; recv_ts = ms 2 }

abbrev heard : List (Turn ℤ)
heard = record { start_ts = ms 1; wait_ts = ms 2; received = packet reply; wake_ts = ms 3 } ∷ []

abbrev shake : Shake ℤ
shake = record { last_s_ts = negsuc 1000000000; buf = reply; sent = [] }

flow-IsFrozen_example :
    OnGo
      (λ (r : Sender (Eyenet ℤ) ℤ × Bool). IsFrozen r.0.cong)
      (turns 20 job (begin_flow fresh (ms 0) (ms 1)) heard)
unfolding eyenet
flow-IsFrozen_example = flow-IsFrozen 20 job fresh (ms 0) (ms 1) heard refl

-- The receive fails, and what stands in the buffer is the probe.
handshake-reply_example :
    IsAnswer (send_probe shake (ms 0)).buf
    × Heard (send_probe shake (ms 0)).buf ((ms 0, failed) ∷ [])
unfolding handshake shake_round send_probe fixed_dec fixed_of_int ◌-ℤ◌ ◌*ℤ◌ is_reply
handshake-reply_example = handshake-reply shake ((ms 0, failed) ∷ []) refl

failed_receive_connects_example :
    handshake shake ((ms 0, failed) ∷ []) ≡ some (send_probe shake (ms 0))
unfolding fixed_dec fixed_of_int ◌-ℤ◌ ◌*ℤ◌
failed_receive_connects_example = failed_receive_connects shake (ms 0) [] refl refl

failed_receive_acks_example :
    (u : Sender (Eyenet ℤ) ℤ) × (after_receive job (send_one job fresh) failed (ms 4) ≡ go u)
    × Acked (send_one job fresh) u (create_header (pos 0) (pos 1) (pos 7) (ms 0)) (ms 4)
failed_receive_acks_example = failed_receive_acks job fresh (ms 4) refl
