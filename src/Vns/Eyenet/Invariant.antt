-- ===== src/Vns/Eyenet/Invariant.antt =====
-- What every operation of the congestion control keeps: the window is at least two packets, the
-- control stays in its constant mode, and its `delta` is 1 or the default.
use tcp_eyenet.Prelude.{◌-◌, ◌*◌, ◌≤◌, ◌≡◌, ◌⊎◌, Bool, arith, if_either, ltb, if◌then◌else◌}
use tcp_eyenet.Double.{Double, IsIeee, ◌≼◌, fmin}
use tcp_eyenet.Double.Laws.{le-fmax_left, not_lt_of_le}
use tcp_eyenet.Vns.LossReduce
use tcp_eyenet.Vns.Eyenet.State.{Eyenet, default, constant, eyenet, initialize}
use tcp_eyenet.Vns.Eyenet.Control.{
  update_intersend, update_delta, slow_start, velocity, limit_amt, move_cwnd, set_pace,
  delta_default,
}

module _ {ℓ} {W : Type ℓ} ⦃d : Double W⦄ where
  open d use {dec}

  pub record IsConstant (s : Eyenet W) : Type ℓ where
    pub probes : s.nprobe ≡ 10
    pub utility : s.utility_type ≡ constant
    pub operation : s.operation_type ≡ default
    pub default_is : s.default_delta ≡ dec 5 1
    pub delta_is : (s.delta ≡ dec 1 0) ⊎ (s.delta ≡ dec 5 1)
    pub counted : s.reduce_on_loss.nloss ≤ s.reduce_on_loss.npkts

  pub record IsSteady (s : Eyenet W) : Type ℓ where
    pub window : dec 2 0 ≼ s.cwnd
    pub mode : IsConstant s

  module _ (laws : IsIeee W) where
    two_num : dec 2 0 ≼ dec 2 0
    two_num = laws.dec_mono 2 0 2 0 (omega arith)

    pub set_pace-window : (s : Eyenet W) → dec 2 0 ≼ (set_pace s).cwnd
    unfolding set_pace
    set_pace-window s = le-fmax_left laws (dec 2 0) s.cwnd two_num

    pub set_pace-IsConstant : (s : Eyenet W) → IsConstant s → IsConstant (set_pace s)
    unfolding set_pace
    set_pace-IsConstant s h = record {
      probes = h.probes;
      utility = h.utility;
      operation = h.operation;
      default_is = h.default_is;
      delta_is = h.delta_is;
      counted = h.counted;
    }

    move-IsConstant : (s : Eyenet W) (t : W) → IsConstant s → IsConstant (move_cwnd s t)
    unfolding move_cwnd
    move-IsConstant s t h = ground arith

    slow-IsConstant : (s : Eyenet W) (t : W) → IsConstant s → IsConstant (slow_start s t)
    unfolding slow_start
    slow-IsConstant s t h = ground arith

    velocity-IsConstant : (s : Eyenet W) → IsConstant s → IsConstant (velocity s)
    unfolding velocity
    velocity-IsConstant s h = ground arith

    limit-IsConstant : (s : Eyenet W) → IsConstant s → IsConstant (limit_amt s)
    unfolding limit_amt
    limit-IsConstant s h = ground arith

    update_intersend-IsConstant : (s : Eyenet W) → IsConstant s → IsConstant (update_intersend s)
    unfolding update_intersend
    update_intersend-IsConstant s h =
        let adapted = if_either IsConstant s.ss (slow-IsConstant s _ h) (velocity-IsConstant s h) in
        if_either IsConstant (ltb s.nack (2 * s.nprobe - 1)) h
          (set_pace-IsConstant _ (move-IsConstant _ _ (limit-IsConstant _ adapted)))

    update_intersend-window :
        (s : Eyenet W) → dec 2 0 ≼ s.cwnd → dec 2 0 ≼ (update_intersend s).cwnd
    unfolding update_intersend
    update_intersend-window s h =
        if_either {A = Eyenet W} (λ t. dec 2 0 ≼ t.cwnd) (ltb s.nack (2 * s.nprobe - 1)) h
          (set_pace-window _)

    pub update_intersend-IsSteady : (s : Eyenet W) → IsSteady s → IsSteady (update_intersend s)
    update_intersend-IsSteady s h = record {
      window = update_intersend-window s h.window;
      mode = update_intersend-IsConstant s h.mode;
    }

    -- `delta` after the branch that the constant mode takes.
    half_of :
        (x : W)
        → (x ≡ dec 1 0) ⊎ (x ≡ dec 5 1)
        → fmin (if d.lt x (dec 5 1) then dec 5 1 else x) (dec 5 1) ≡ dec 5 1
    half_of x h = ground (
      arith,
      laws.half_lt_one,
      not_lt_of_le laws (dec 1 0) (dec 5 1) (laws.dec_mono 5 1 1 0 (omega arith)),
    )

    delta_default-IsConstant :
        (s : Eyenet W) (rtt : W) → IsConstant s → IsConstant (delta_default s rtt)
    unfolding delta_default
    delta_default-IsConstant s rtt h = ground (arith, half_of s.delta h.delta_is)

    update_delta-constant :
        (s : Eyenet W) (lost : Bool) (rtt : W)
        → IsConstant s
        → update_delta s lost rtt ≡ delta_default s rtt
    unfolding update_delta
    update_delta-constant s lost rtt h = rw (h.utility, h.operation)

    delta_default-window :
        (s : Eyenet W) (rtt : W) → dec 2 0 ≼ s.cwnd → dec 2 0 ≼ (delta_default s rtt).cwnd
    unfolding delta_default
    delta_default-window s rtt h = ground arith

    -- In the constant mode `update_delta` takes its first branch only, whatever it is told of losses.
    pub update_delta-IsSteady :
        (s : Eyenet W) (lost : Bool) (rtt : W) → IsSteady s → IsSteady (update_delta s lost rtt)
    update_delta-IsSteady s lost rtt h = rw (update_delta-constant s lost rtt h.mode) (record {
      window = delta_default-window s rtt h.window;
      mode = delta_default-IsConstant s rtt h.mode;
    })

    pub initialize-IsSteady : (s : Eyenet W) → IsConstant s → IsSteady (initialize s)
    unfolding initialize LossReduce.clear
    initialize-IsSteady s h = record {
      window =
          rw (h.probes, laws.of_int_dec 10 (omega arith)) (laws.dec_mono 2 0 10 0 (omega arith));
      mode = ground arith;
    }

    pub eyenet-IsSteady : IsSteady (eyenet (dec 1 0))
    unfolding eyenet LossReduce.loss_reduce
    eyenet-IsSteady = record { window = two_num; mode = ground arith }
