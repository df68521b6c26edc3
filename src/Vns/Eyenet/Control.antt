-- ===== src/Vns/Eyenet/Control.antt =====
-- `update_intersend` and `update_delta` of vns/vns_eyenet.cc.
use tcp_eyenet.Prelude.{◌+◌, ◌-◌, ◌*◌, Bool, false, ◌&&◌, ◌||◌, ltb, if◌then◌else◌}
use tcp_eyenet.Prelude.Int.{pos, negsuc, ◌+ℤ◌, ◌-ℤ◌, ◌*ℤ◌, ltb_ℤ}
use tcp_eyenet.Double.{Double, fmax, fmin}
use tcp_eyenet.Vns.RttWin
use tcp_eyenet.Vns.Eyenet.State.{
  Eyenet, Operations, default, tcp, loss, Utility, constant, auto, coop,
}

-- `operation_type` at the start of `update_delta`
unfoldable pub choose_operation : Utility → Bool → Operations → Operations
choose_operation auto mode op = if mode then default else loss
choose_operation constant mode op = op
choose_operation coop mode op = op

module _ {ℓ} {W : Type ℓ} ⦃d : Double W⦄ where
  open d use {dec, of_int, to_int, double_max, plus, minus, times, over, lt, le, eq}

  -- `t_cwnd`, for a round-trip time with the queuing delay `qd`
  unfoldable pub target_cwnd : Eyenet W → W → W → W
  target_cwnd s rtt qd = if eq qd (dec 0 0) then double_max else over rtt (times qd s.delta)

  -- The branch `if (ss)`
  unfoldable pub slow_start : Eyenet W → W → Eyenet W
  slow_start s t_cwnd =
      let cwnd = plus s.cwnd (dec 1 0) in
      if s.do_ss || eq t_cwnd double_max
      then record s { cwnd = cwnd; ss = if le t_cwnd cwnd then false else s.ss }
      else s

  -- `update_amt` when a round-trip time has passed since the last update
  unfoldable pub faster : Eyenet W → W
  unfolding ◌*ℤ◌
  faster s =
      if ltb_ℤ (pos 0) (s.last_update_dir *ℤ s.update_dir)
      then if lt s.update_amt (dec 6 3)
        then plus s.update_amt (dec 5 3)
        else of_int (to_int s.update_amt *ℤ pos 2)
      else s.update_amt

  -- The branch `else` of `if (ss)`
  unfoldable pub velocity : Eyenet W → Eyenet W
  unfolding faster ◌*ℤ◌
  velocity s =
      let due = lt (plus s.last_update_ts s.rtt_sample.curr_rtt) s.curr_ts in
      record s {
        update_amt = if due then faster s else dec 1 0;
        last_update_dir = if due then s.last_update_dir else s.last_update_dir *ℤ negsuc 0;
        last_update_ts = s.curr_ts;
        pkts_rtt = 0;
        update_dir = pos 0;
      }

  -- The amount is halved if it is more than `cwnd * delta`, and is at least 1.
  unfoldable pub limit_amt : Eyenet W → Eyenet W
  limit_amt s =
      let amt =
        if lt (times s.cwnd s.delta) s.update_amt
        then over s.update_amt (dec 2 0)
        else s.update_amt in
      record s { update_amt = fmax amt (dec 1 0); pkts_rtt = s.pkts_rtt + 1 }

  -- One step of `cwnd` towards the target
  unfoldable pub move_cwnd : Eyenet W → W → Eyenet W
  unfolding ◌+ℤ◌ ◌-ℤ◌
  move_cwnd s t_cwnd =
      let step = over s.update_amt (times s.delta s.cwnd) in
      if lt s.cwnd t_cwnd
      then record s { update_dir = s.update_dir +ℤ pos 1; cwnd = plus s.cwnd step }
      else record s { update_dir = s.update_dir -ℤ pos 1; cwnd = minus s.cwnd step }

  -- `cwnd = max(2.0, cwnd)`, and the pacing from it; so also in `on_ack`.
  unfoldable pub set_pace : Eyenet W → Eyenet W
  set_pace s =
      let cwnd = fmax (dec 2 0) s.cwnd in
      let pace = over (times (dec 5 1) s.rtt_sample.virgin_rtt.tail) cwnd in
      record s { cwnd = cwnd; curr_intersend = pace; intersend = pace }

  -- `eyenet::update_intersend`
  unfoldable pub update_intersend : Eyenet W → Eyenet W
  update_intersend s =
      let rtt = s.rtt_sample.virgin_rtt.tail in
      let t_cwnd = target_cwnd s rtt (minus rtt s.rtt_min) in
      if ltb s.nack (2 * s.nprobe - 1)
      then s
      else set_pace
          (move_cwnd (limit_amt (if s.ss then slow_start s t_cwnd else velocity s)) t_cwnd)

  -- The branch of `update_delta` for the operation `DEFAULT`
  unfoldable pub delta_default : Eyenet W → W → Eyenet W
  delta_default s curr_rtt =
      if eq s.last_delta_update_ts (dec 0 0)
        || lt (plus s.last_delta_loss_update_ts curr_rtt) s.curr_ts
      then record s {
        delta =
            fmin (if lt s.delta s.default_delta then s.default_delta else s.delta) s.default_delta;
        last_delta_update_ts = s.curr_ts;
      }
      else s

  -- Its branch for `LOSS` or the utility `COOP`
  unfoldable pub delta_on_loss : Eyenet W → Bool → W → Eyenet W
  delta_on_loss s lost curr_rtt =
      let delta = if eq s.last_delta_update_ts (dec 0 0) then s.default_delta else s.delta in
      let slower = over (dec 1 0) (plus (over (dec 1 0) delta) (dec 1 0)) in
      if lost && lt (plus s.last_delta_loss_update_ts curr_rtt) s.curr_ts
      then record s {
        delta = fmin (times delta (dec 2 0)) s.default_delta;
        last_delta_loss_update_ts = s.curr_ts;
      }
      else if lt (plus s.last_delta_update_ts curr_rtt) s.curr_ts
      then record s { delta = fmin slower s.default_delta; last_delta_update_ts = s.curr_ts }
      else record s { delta = fmin delta s.default_delta }

  -- The choice between the branches; with `TCP` neither is taken.
  unfoldable pub by_operation : Operations → Utility → Eyenet W → Bool → W → Eyenet W
  by_operation op coop s lost curr_rtt = delta_on_loss s lost curr_rtt
  by_operation default constant s lost curr_rtt = delta_default s curr_rtt
  by_operation default auto s lost curr_rtt = delta_default s curr_rtt
  by_operation loss constant s lost curr_rtt = delta_on_loss s lost curr_rtt
  by_operation loss auto s lost curr_rtt = delta_on_loss s lost curr_rtt
  by_operation tcp constant s lost curr_rtt = s
  by_operation tcp auto s lost curr_rtt = s

  -- `eyenet::update_delta`
  unfoldable pub update_delta : Eyenet W → Bool → W → Eyenet W
  unfolding choose_operation by_operation
  update_delta s lost curr_rtt =
      let op = choose_operation s.utility_type (RttWin.mode_eyenet s.rtt_sample) s.operation_type in
      by_operation op s.utility_type (record s { operation_type = op }) lost curr_rtt
