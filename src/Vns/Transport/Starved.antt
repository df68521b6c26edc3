-- ===== src/Vns/Transport/Starved.antt =====
-- The transport never hands an acknowledgment to its congestion control.
use tcp_eyenet.Prelude.{
  ℕ, zero, suc, Bool, true, false, not, ◌&&◌, ◌||◌, List, [], ◌∷◌, if_either, if◌then◌else◌,
}
use tcp_eyenet.Prelude.Int.{ℤ, pos, ◌-ℤ◌, ◌*ℤ◌, rem, eqb_ℤ, ltb_ℤ}
use tcp_eyenet.Double.{Double}
use tcp_eyenet.Vns.Transport.Interface.{Cong, PacketHeader, Received, nothing, failed, packet}
use tcp_eyenet.Vns.Transport.State.{OnGo, OnGo->>=}
use tcp_eyenet.Vns.Transport.Sender.{
  go, Sender, Turn, Job, goes_on, check_timeout, send_one, burst, settle_pace, idle, estimate,
  account, tell_cong, take_ack, dispatch, after_receive, turn, turns,
}
use tcp_eyenet.Vns.Transport.Burst.{burst-cases}

-- A branch that asks again for a test which leads to it.
both_either {ℓ κ} :
    {A : Type ℓ} (P : A → Type κ) (a b : Bool) (x : A) {y z : A}
    → P y
    → P z
    → P (if a && b then (if b then y else x) else z)
both_either P true true x h k = h
both_either P true false x h k = k
both_either P false true x h k = k
both_either P false false x h k = k

-- A property of the congestion control that every operation but `on_ack` and `close` keeps.
pub record IsKept {ℓ κ μ} {C : Type κ} (W : Type ℓ) ⦃c : Cong C W⦄ (P : C → Type μ)
    : Type (ℓ ⊔ κ ⊔ μ) where
  pub set_ts : (k : C) (ts : W) → P k → P (c.set_ts k ts)
  pub initialize : (k : C) → P k → P (c.initialize k)
  pub on_pkt_sent : (k : C) (seq : ℤ) → P k → P (c.on_pkt_sent k seq)
  pub on_rate_est : (k : C) (rate : W) → P k → P (c.on_rate_est k rate)
  pub on_to : (k : C) → P k → P (c.on_to k)

module _ {ℓ κ μ} {W : Type ℓ} {C : Type κ} ⦃d : Double W⦄ ⦃c : Cong C W⦄ (P : C → Type μ)
    (kept : IsKept W P) where
  abbrev Holds : Sender C W → Type μ
  Holds s = P s.cong

  pub check_timeout-Holds : (s : Sender C W) (now : W) → Holds s → Holds (check_timeout s now)
  unfolding check_timeout
  check_timeout-Holds s now h =
      if_either {A = Sender C W} Holds (d.lt (d.dec 2000 0) (d.minus now s.last_ack_ts))
        (kept.initialize _ (kept.set_ts s.cong now h)) h

  send_one-Holds : (j : Job W) (s : Sender C W) → Holds s → Holds (send_one j s)
  unfolding send_one
  send_one-Holds j s h =
      if_either P (eqb_ℤ (rem s.seq_num s.bn_train) (pos 0))
        (kept.on_pkt_sent _ _ (kept.set_ts s.cong s.curr_ts h)) h

  burst-Holds : (fuel : ℕ) (j : Job W) (s : Sender C W) → Holds s → OnGo Holds (burst fuel j s)
  unfolding burst
  burst-Holds zero j s h = tt
  burst-Holds (suc fuel) j s h =
      burst-cases (OnGo Holds) fuel j s tt
        (burst-Holds fuel j (send_one j s) (send_one-Holds j s h)) h

  settle_pace-Holds : (s : Sender C W) → Holds s → Holds (settle_pace s)
  unfolding settle_pace
  settle_pace-Holds s h = if_either {A = Sender C W} Holds _ h h

  idle-Holds : (s : Sender C W) (now : W) → Holds s → Holds (idle s now)
  unfolding idle
  idle-Holds s now h = if_either {A = Sender C W} Holds _ (kept.on_to s.cong h) h

  estimate-Holds : (s : Sender C W) (ack : ℤ) (now : W) → Holds s → Holds (estimate s ack now)
  unfolding estimate
  estimate-Holds s ack now h =
      if_either {A = Sender C W} Holds _
        (if_either P (ltb_ℤ (pos 2 *ℤ s.bn_train) ack) (kept.on_rate_est s.cong _ h) h) h

  account-Holds :
      (s : Sender C W) (hdr : PacketHeader W) (now : W) → Holds s → Holds (account s hdr now)
  unfolding account
  account-Holds s hdr now h = h

  -- Where the code would call `on_ack` it has already divided by zero.
  tell_cong-Holds :
      (s : Sender C W) (ack : ℤ) (hdr : PacketHeader W) (now : W)
      → Holds s
      → OnGo Holds (tell_cong s ack hdr now)
  unfolding tell_cong
  tell_cong-Holds s ack hdr now h =
      both_either (OnGo Holds) (not (eqb_ℤ (ack -ℤ pos 1) (pos 0))) (eqb_ℤ s.bn_train (pos 0)) _ tt
        h

  take_ack-Holds :
      (s : Sender C W) (hdr : PacketHeader W) (now : W) → Holds s → OnGo Holds (take_ack s hdr now)
  unfolding take_ack
  take_ack-Holds s hdr now h =
      OnGo->>= Holds Holds (tell_cong _ _ hdr now) _
        (tell_cong-Holds _ _ hdr now (account-Holds _ hdr now (estimate-Holds _ _ now h)))
        (λ u k. k)

  dispatch-Holds :
      (j : Job W) (s : Sender C W) (p : PacketHeader W) (now : W)
      → Holds s
      → OnGo Holds (dispatch j s p now)
  unfolding dispatch
  dispatch-Holds j s p now h =
      if_either (OnGo Holds) (not (eqb_ℤ p.sid j.sid) || not (eqb_ℤ p.fid j.fid))
        {x = go (record s { buf = p })} h (take_ack-Holds (record s { buf = p }) p now h)

  after_receive-Holds :
      (j : Job W) (s : Sender C W) (r : Received W) (now : W)
      → Holds s
      → OnGo Holds (after_receive j s r now)
  unfolding after_receive
  after_receive-Holds j s nothing now h = idle-Holds s now h
  after_receive-Holds j s failed now h = dispatch-Holds j s s.buf now h
  after_receive-Holds j s (packet p) now h = dispatch-Holds j s p now h

  pub turn-Holds :
      (fuel : ℕ) (j : Job W) (s : Sender C W) (i : Turn W) → Holds s → OnGo Holds (turn fuel j s i)
  unfolding turn
  turn-Holds fuel j s i h =
      OnGo->>= Holds Holds (burst fuel j (check_timeout s i.start_ts)) _
        (burst-Holds fuel j _ (check_timeout-Holds s i.start_ts h))
        (λ t k. after_receive-Holds j _ i.received i.wake_ts (settle_pace-Holds t k))

  -- Whatever the network and the clock do, the loop keeps each property of the congestion control
  -- that all its operations but `on_ack` keep.
  pub turns-Holds :
      (fuel : ℕ) (j : Job W) (s : Sender C W) (is : List (Turn W))
      → P s.cong
      → OnGo (λ (r : Sender C W × Bool). P r.0.cong) (turns fuel j s is)
  unfolding turns
  turns-Holds fuel j s [] h = h
  turns-Holds fuel j s (i ∷ is) h =
      if_either (OnGo (λ (r : Sender C W × Bool). P r.0.cong)) (goes_on j s)
        (OnGo->>= Holds (λ (r : Sender C W × Bool). P r.0.cong) (turn fuel j s i) _
          (turn-Holds fuel j s i h) (λ t k. turns-Holds fuel j t is k))
        h
