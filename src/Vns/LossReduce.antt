-- ===== src/Vns/LossReduce.antt =====
-- `class loss_reduce` of vns/vns_utils.cc: counts losses and says when to reduce the window. The two
-- counters are int32_t that only grow from 0; past 2^31 the program is undefined.
pub mod Rate
use tcp_eyenet.Prelude.{ℕ, ◌+◌, ◌/◌, Bool, true, false, ◌&&◌, ltb, if◌then◌else◌}
use tcp_eyenet.Prelude.Int.{pos}
use tcp_eyenet.Double.{Double}

pub record LossReduce {ℓ} (W : Type ℓ) : Type ℓ where
  pub nloss : ℕ
  pub npkts : ℕ
  pub last_win_ts : W

module _ {ℓ} {W : Type ℓ} ⦃d : Double W⦄ where
  open d use {dec, of_int, plus, times, lt}

  -- `loss_reduce::loss_reduce`
  unfoldable pub loss_reduce : LossReduce W
  loss_reduce = record { nloss = 0; npkts = 0; last_win_ts = dec 0 0 }

  -- `++nloss` if there was a loss, and `++npkts`.
  unfoldable pub tally : LossReduce W → Bool → LossReduce W
  tally l loss = record l { nloss = if loss then l.nloss + 1 else l.nloss; npkts = l.npkts + 1 }

  -- The test of `update` on the counters after the event.
  unfoldable pub is_over : LossReduce W → W → W → Bool
  is_over l curr_ts rtt = lt (plus l.last_win_ts (times (dec 2 0) rtt)) curr_ts && ltb 20 l.npkts

  -- `1.0 * (nloss / npkts)`, an integer division.
  unfoldable pub loss_rate : LossReduce W → W
  loss_rate l = times (dec 1 0) (of_int (pos (l.nloss / l.npkts)))

  -- `loss_reduce::update`
  unfoldable pub update : LossReduce W → Bool → W → W → LossReduce W × Bool
  update l loss curr_ts rtt =
      let t = tally l loss in
      if is_over t curr_ts rtt
      then (record { nloss = 0; npkts = 0; last_win_ts = curr_ts }, lt (dec 3 1) (loss_rate t))
      else (t, false)

  -- `loss_reduce::clear`
  unfoldable pub clear : LossReduce W → LossReduce W
  clear l = record { nloss = 0; npkts = 0; last_win_ts = dec 0 0 }
