-- ===== src/Vns/Transport/State.antt =====
-- What vns/vns_transport.hh works on: the members of `tcp_transport` with the variables of `send_data`,
-- what a turn of its loop takes from outside, and the ways in which it halts.
use tcp_eyenet.Prelude.{ℕ, Bool, List, if◌then◌else◌}
use tcp_eyenet.Prelude.Int.{ℤ, ltb_ℤ}
use tcp_eyenet.Vns.Eyenet.Handlers.{Fault, Outcome, ok, exit_failure}
use tcp_eyenet.Vns.Transport.Interface.{PacketHeader, Received}

-- `exited`: the congestion control ends the program; `aborted`: an assertion fails; `unfinished`: what
-- comes from outside is used up.
pub data Halt : Type 0 where
  exited : Fault → Halt
  division_by_zero : Halt
  out_of_fuel : Halt
  aborted : Halt
  unfinished : Halt

pub data Flow {ℓ} (A : Type ℓ) : Type ℓ where
  go : A → Flow A
  halt : Halt → Flow A

infixl 5 ◌>>=◌
abbrev pub ◌>>=◌ {ℓ κ} : {A : Type ℓ} {B : Type κ} → Flow A → (A → Flow B) → Flow B
go a >>= f = f a
halt h >>= f = halt h

abbrev pub of_outcome {ℓ} : {A : Type ℓ} → Outcome A → Flow A
of_outcome (ok a) = go a
of_outcome (exit_failure c) = halt (exited c)

abbrev pub max_ℤ : ℤ → ℤ → ℤ
max_ℤ a b = if ltb_ℤ a b then b else a

-- The members of `tcp_transport` that `send_data` uses, its local variables, the header in `buf`, and
-- the packets that were sent, the last one first.
pub record Sender {ℓ κ} (C : Type κ) (W : Type ℓ) : Type (ℓ ⊔ κ) where
  pub cong : C
  pub bn_train : ℤ
  pub last_s_ts : W
  pub last_r_ts : W
  pub last_ack_ts : W
  pub delay_aggr : W
  pub trans_time_aggr : W
  pub largest_ack : ℤ
  pub npkts : ℕ
  pub nbytes : ℕ
  pub seq_num : ℤ
  pub curr_ts : W
  pub rate_est : W
  pub buf : PacketHeader W
  pub sent : List (PacketHeader W)

-- The readings of the clock in a turn, in order, and what the receive gave.
pub record Turn {ℓ} (W : Type ℓ) : Type ℓ where
  pub start_ts : W
  pub wait_ts : W
  pub received : Received W
  pub wake_ts : W

-- The arguments of `send_data`
pub record Job {ℓ} (W : Type ℓ) : Type ℓ where
  pub fsz : W
  pub byte_switcher : Bool
  pub fid : ℤ
  pub sid : ℤ

abbrev pub OnGo {ℓ κ} : {A : Type ℓ} → (A → Type κ) → Flow A → Type κ
OnGo P (go a) = P a
OnGo P (halt h) = Unit

pub OnGo->>= {ℓ κ μ ν} :
    {A : Type ℓ} {B : Type κ} (P : A → Type μ) (Q : B → Type ν) (m : Flow A) (f : A → Flow B)
    → OnGo P m
    → ((a : A) → P a → OnGo Q (f a))
    → OnGo Q (m >>= f)
OnGo->>= P Q (go a) f h k = k a h
OnGo->>= P Q (halt x) f h k = tt

pub OnGo-map {ℓ κ μ} :
    {A : Type ℓ} (P : A → Type κ) (Q : A → Type μ) (m : Flow A)
    → ((a : A) → P a → Q a)
    → OnGo P m
    → OnGo Q m
OnGo-map P Q (go a) f h = f a h
OnGo-map P Q (halt x) f h = tt
