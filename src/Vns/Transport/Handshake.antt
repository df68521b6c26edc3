-- ===== src/Vns/Transport/Handshake.antt =====
-- `tcp_transport::handshake`: a probe every 200 ms, until a packet comes back whose header is all -1.
-- A round has the clock's reading and the result of the receive; the loop runs over the rounds.
use tcp_eyenet.Prelude.{Bool, false, ◌&&◌, List, [], ◌∷◌, Option, none, some, if◌then◌else◌}
use tcp_eyenet.Prelude.Int.{eqb_ℤ}
use tcp_eyenet.Double.{Double}
use tcp_eyenet.Vns.Transport.Interface.{PacketHeader, Received, nothing, buffer_after, neg}

-- `_last_s_ts`, the header in `buf`, and the probes that were sent, the last one first
pub record Shake {ℓ} (W : Type ℓ) : Type ℓ where
  pub last_s_ts : W
  pub buf : PacketHeader W
  pub sent : List (PacketHeader W)

module _ {ℓ} {W : Type ℓ} ⦃d : Double W⦄ where
  open d use {dec, of_int, minus, lt, eq}

  -- The header of the probe
  unfoldable pub probe : PacketHeader W
  probe = record { seq_num = neg; fid = neg; sid = neg; send_ts = of_int neg; recv_ts = of_int neg }

  -- The negation of the test by which the loop goes on
  unfoldable pub is_reply : PacketHeader W → Bool
  is_reply h =
      eqb_ℤ h.seq_num neg && eqb_ℤ h.fid neg && eq h.send_ts (of_int neg) && eqb_ℤ h.sid neg

  unfoldable pub send_probe : Shake W → W → Shake W
  unfolding probe
  send_probe s curr_ts =
      if lt s.last_s_ts (minus curr_ts (dec 200 0))
      then record { last_s_ts = curr_ts; buf = probe; sent = probe ∷ s.sent }
      else s

  -- One round; the flag says that the loop ends.
  unfoldable pub shake_round : Shake W → W → Received W → Shake W × Bool
  shake_round s curr_ts nothing = (send_probe s curr_ts, false)
  shake_round s curr_ts r =
      let t = send_probe s curr_ts in
      let h = buffer_after t.buf r in (record t { buf = h }, is_reply h)

  -- `none` while the rounds that are given do not end the loop.
  unfoldable pub handshake : Shake W → List (W × Received W) → Option (Shake W)
  unfolding shake_round
  handshake s [] = none
  handshake s ((now, r) ∷ rounds) =
      let (t, done) = shake_round s now r in
      let rest = handshake t rounds in if done then some t else rest
