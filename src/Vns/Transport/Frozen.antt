-- ===== src/Vns/Transport/Frozen.antt =====
-- The transport over Eyenet: with no acknowledgment told, the window and the pacing never change.
use tcp_eyenet.Prelude.{ℕ, ◌≡◌, refl, arith, Bool, List, [], ◌∷◌}
use tcp_eyenet.Prelude.Int.{ℤ, pos}
use tcp_eyenet.Double.{Double}
use tcp_eyenet.Vns.Eyenet.State
use tcp_eyenet.Vns.Eyenet.State.{Eyenet, Unacked}
use tcp_eyenet.Vns.Eyenet.Handlers
use tcp_eyenet.Vns.Transport.Interface.{eyenet_cong}
use tcp_eyenet.Vns.Transport.Sender.{Sender, Turn, Job, begin_flow, turns}
use tcp_eyenet.Vns.Transport.Burst.{KeepsWindow}
use tcp_eyenet.Vns.Transport.State.{OnGo}
use tcp_eyenet.Vns.Transport.Starved.{IsKept, turns-Holds}

module _ {ℓ} {W : Type ℓ} ⦃d : Double W⦄ where
  open d use {dec, of_int}

  -- The state of a control that has been told of no acknowledgment since `initialize`.
  pub record IsFrozen (s : Eyenet W) : Type ℓ where
    pub probes : s.nprobe ≡ 10
    pub cwnd : s.cwnd ≡ of_int (pos 10)
    pub curr_intersend : s.curr_intersend ≡ dec 0 0
    pub intersend : s.intersend ≡ dec 0 0
    pub nack : s.nack ≡ 0
    pub nlost : s.nlost ≡ 0

  age-IsFrozen : (m : Unacked W) (s : Eyenet W) → IsFrozen s → IsFrozen (Handlers.age_oldest m s)
  unfolding Handlers.age_oldest
  age-IsFrozen [] s h = h
  age-IsFrozen ((k, p) ∷ r) s h = ground arith

  remember-IsFrozen : (s : Eyenet W) (seq : ℤ) → IsFrozen s → IsFrozen (Handlers.remember s seq)
  unfolding Handlers.remember
  remember-IsFrozen s seq h = ground arith

  count_sent-IsFrozen : (s : Eyenet W) → IsFrozen s → IsFrozen (Handlers.count_sent s)
  unfolding Handlers.count_sent
  count_sent-IsFrozen s h = ground arith

  sent-IsFrozen : (s : Eyenet W) (seq : ℤ) → IsFrozen s → IsFrozen (Handlers.on_pkt_sent s seq)
  unfolding Handlers.on_pkt_sent
  sent-IsFrozen s seq h =
      count_sent-IsFrozen _ (age-IsFrozen _ (Handlers.remember s seq) (remember-IsFrozen s seq h))

  initialize-IsFrozen : (s : Eyenet W) → s.nprobe ≡ 10 → IsFrozen (State.initialize s)
  unfolding State.initialize
  initialize-IsFrozen s h = ground arith

  pub set_ts-IsFrozen : (s : Eyenet W) (ts : W) → IsFrozen s → IsFrozen (State.set_ts s ts)
  unfolding State.set_ts
  set_ts-IsFrozen s ts h = ground arith

  pub IsFrozen-IsKept : IsKept W IsFrozen
  unfolding State.on_rate_est State.on_to
  IsFrozen-IsKept = record {
    set_ts = set_ts-IsFrozen;
    initialize = λ s h. initialize-IsFrozen s h.probes;
    on_pkt_sent = sent-IsFrozen;
    on_rate_est = λ s r h. h;
    on_to = λ s h. h;
  }

  pub begin-IsFrozen :
      (s : Sender (Eyenet W) W) (t u : W) → s.cong.nprobe ≡ 10 → IsFrozen (begin_flow s t u).cong
  unfolding begin_flow State.set_ts
  begin-IsFrozen s t u h = initialize-IsFrozen (record s.cong { curr_ts = u }) h

  -- However many acknowledgments come, and whenever, a flow over Eyenet keeps the window of 10 packets
  -- and the pacing of 0 with which it began, and counts no acknowledgment and no loss: in every
  -- state of its loop that is reached without a halt.
  pub flow-IsFrozen :
      (fuel : ℕ) (j : Job W) (s : Sender (Eyenet W) W) (first_ts second_ts : W) (is : List (Turn W))
      → s.cong.nprobe ≡ 10
      → OnGo
          (λ (r : Sender (Eyenet W) W × Bool). IsFrozen r.0.cong)
          (turns fuel j (begin_flow s first_ts second_ts) is)
  flow-IsFrozen fuel j s first_ts second_ts is h =
      turns-Holds IsFrozen IsFrozen-IsKept fuel j (begin_flow s first_ts second_ts) is
        (begin-IsFrozen s first_ts second_ts h)

  age-cwnd : (m : Unacked W) (s : Eyenet W) → (Handlers.age_oldest m s).cwnd ≡ s.cwnd
  unfolding Handlers.age_oldest
  age-cwnd [] s = refl
  age-cwnd ((k, p) ∷ r) s = ground arith

  -- Sending leaves the window of Eyenet.
  pub eyenet-KeepsWindow : KeepsWindow W (Eyenet W)
  unfolding Handlers.on_pkt_sent Handlers.remember Handlers.count_sent State.set_ts
  eyenet-KeepsWindow s ts q =
      let t = Handlers.remember (State.set_ts s ts) q in age-cwnd t.unacked_pkts t
