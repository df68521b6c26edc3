-- ===== src/Vns/Transport/Numbers.antt =====
-- The numbers of the packets of a flow, and what the sender takes for acknowledged.
use tcp_eyenet.Prelude.{◌≡◌, refl, arith, not, ◌&&◌, List, [], ◌∷◌, if_either, All}
use mathlib.Core.List.{Memᴰ}
use tcp_eyenet.Prelude.Int.{ℤ, pos, ◌-ℤ◌, ◌≤ℤ◌, ◌<ℤ◌, quot, eqb_ℤ}
use tcp_eyenet.Double.{Double}
use tcp_eyenet.Vns.Eyenet.Handlers.{Outcome, ok, exit_failure}
use tcp_eyenet.Vns.Transport.Interface.{Cong, PacketHeader, Received, nothing, failed, packet}
use tcp_eyenet.Vns.Transport.State.{OnGo}
use tcp_eyenet.Vns.Transport.Sender.{
  ◌>>=◌, of_outcome, go, halt, division_by_zero, Flow, Sender, Job, estimate, account, tell_cong,
}

-- The packets of the flow, by their ids
abbrev pub Mine {ℓ} : {W : Type ℓ} → Job W → PacketHeader W → Type 0
Mine j h = (h.sid ≡ j.sid) × (h.fid ≡ j.fid)

-- A packet of the flow has a number below `top`.
abbrev pub Below {ℓ} : {W : Type ℓ} → Job W → ℤ → PacketHeader W → Type 0
Below j top h = Mine j h → h.seq_num <ℤ top

-- The number of the next packet, the packets sent, the largest acknowledgment and the buffer.
abbrev pub Core {ℓ} : Type ℓ → Type ℓ
Core W = ℤ × List (PacketHeader W) × ℤ × PacketHeader W

pub record IsNumbered {ℓ} {W : Type ℓ} (j : Job W) (k : Core W) : Type ℓ where
  pub numbers : All (Below j k.0) k.1
  pub buffer : Below j k.0 k.3
  pub bound : k.2 ≤ℤ k.0

module _ {ℓ} {W : Type ℓ} (j : Job W) where
  pub Below_mono : (a b : ℤ) (h : PacketHeader W) → a ≤ℤ b → Below j a h → Below j b h
  Below_mono a b h le p m = let q = p m in omega arith

  pub All-Below_mono :
      (a b : ℤ) (l : List (PacketHeader W)) → a ≤ℤ b → All (Below j a) l → All (Below j b) l
  All-Below_mono a b [] le p = tt
  All-Below_mono a b (h ∷ l) le p = (Below_mono a b h le p.0, All-Below_mono a b l le p.1)

  -- The numbers are in order, and have grown from `top`, as the packets sent have from `past`.
  abbrev pub Grown : ℤ → List (PacketHeader W) → Core W → Type ℓ
  Grown top past k =
      IsNumbered j k × (top ≤ℤ k.0) × ((h : PacketHeader W) → Memᴰ h past → Memᴰ h k.1)

module _ {ℓ κ} {W : Type ℓ} {C : Type κ} where
  abbrev pub core : Sender C W → Core W
  core s = (s.seq_num, s.sent, s.largest_ack, s.buf)

module _ {ℓ κ} {W : Type ℓ} {C : Type κ} ⦃d : Double W⦄ ⦃c : Cong C W⦄ where
  pub estimate-core : (s : Sender C W) (ack : ℤ) (now : W) → core (estimate s ack now) ≡ core s
  unfolding estimate
  estimate-core s ack now = if_either {A = Sender C W} (λ t. core t ≡ core s) _ refl refl

  pub account-core :
      (s : Sender C W) (h : PacketHeader W) (now : W) → core (account s h now) ≡ core s
  unfolding account
  account-core s h now = refl

  told-core :
      (s : Sender C W) (o : Outcome C)
      → OnGo (λ t. core t ≡ core s) (of_outcome o >>= λ k. go (record s { cong = k }))
  told-core s (ok k) = refl
  told-core s (exit_failure f) = tt

  pub tell_cong-core :
      (s : Sender C W) (ack : ℤ) (h : PacketHeader W) (now : W)
      → OnGo (λ t. core t ≡ core s) (tell_cong s ack h now)
  unfolding tell_cong
  tell_cong-core s ack h now =
      let P : Flow (Sender C W) → Type ℓ = OnGo (λ t. core t ≡ core s) in
      let acked = c.on_ack (c.set_ts s.cong now) (quot ack s.bn_train) h.recv_ts h.send_ts in
      if_either P (not (eqb_ℤ (ack -ℤ pos 1) (pos 0)) && eqb_ℤ s.bn_train (pos 0))
        (if_either P (eqb_ℤ s.bn_train (pos 0)) {x = halt division_by_zero} tt (told-core s acked))
        refl

-- The property of a packet that a receive brings
abbrev pub Brings {ℓ κ} : {W : Type ℓ} → (PacketHeader W → Type κ) → Received W → Type κ
Brings P nothing = Unit
Brings P failed = Unit
Brings P (packet h) = P h
