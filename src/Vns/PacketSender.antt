-- ===== src/Vns/PacketSender.antt =====
-- `packet_sender` of vns/vns_packet_sender.hh: the on-off traffic over a transport `T`. The samples of the
-- random distributions, the session's number and what a flow takes from outside are inputs.
pub mod Plan
pub mod Keeping
use tcp_eyenet.Prelude.{ℕ, Bool, true, false, not, List, [], ◌∷◌, ◌++◌, if◌then◌else◌}
use tcp_eyenet.Prelude.Int.{ℤ, pos, ◌+ℤ◌, leb_ℤ}
use tcp_eyenet.Double.{Double}
use tcp_eyenet.Vns.Args.{
  SenderArgs, SwitchingType, time, bytes, TrafficDistType, exponential, deterministic,
}
use tcp_eyenet.Vns.Transport.State.{Flow, go, halt, ◌>>=◌}

-- The member of the template parameter that is used: `send_data`, with what it takes from outside.
pub record FlowSender {ℓ κ μ} (T : Type κ) (E : Type μ) (W : Type ℓ) : Type (ℓ ⊔ κ ⊔ μ) where
  pub send_data : T → E → W → Bool → ℤ → ℤ → Flow T

pub record PacketSender {ℓ} (W : Type ℓ) : Type ℓ where
  pub ncycles : ℤ
  pub on_units : W
  pub off_units : W
  pub switcher : SwitchingType
  pub traffic_dist : TrafficDistType

-- The samples of a round, and what its flow takes from outside
pub record Cycle {ℓ κ} (E : Type κ) (W : Type ℓ) : Type (ℓ ⊔ κ) where
  pub on_sample : W
  pub off_sample : W
  pub input : E

-- The arguments of a call of `send_data`, and the sleep before it, which `msleep` cuts to whole
-- milliseconds; the interval is not negative.
pub record Call {ℓ} (W : Type ℓ) : Type ℓ where
  pub off : ℤ
  pub on : W
  pub byte_switcher : Bool
  pub fid : ℤ
  pub sid : ℤ

-- The transport, and the calls that were made, in order
pub record Traffic {ℓ κ} (T : Type κ) (W : Type ℓ) : Type (ℓ ⊔ κ) where
  pub tcp_type : T
  pub calls : List (Call W)

abbrev pub is_deterministic : TrafficDistType → Bool
is_deterministic deterministic = true
is_deterministic exponential = false

abbrev pub is_byte_switcher : SwitchingType → Bool
is_byte_switcher bytes = true
is_byte_switcher time = false

module _ {ℓ} {W : Type ℓ} ⦃d : Double W⦄ where
  -- The constructor
  unfoldable pub packet_sender : SenderArgs → PacketSender W
  packet_sender args = record {
    ncycles = args.cycles;
    on_units = d.of_int args.on_units;
    off_units = d.of_int args.off_units;
    switcher = args.switcher;
    traffic_dist = args.traffic_dist;
  }

module _ {ℓ κ} {W : Type ℓ} {E : Type κ} ⦃d : Double W⦄ where
  -- A round's call, with the choice of `update_dist`
  unfoldable pub call_of : PacketSender W → ℤ → ℤ → Cycle E W → Call W
  call_of p fid sid c = record {
    off = d.to_int (if is_deterministic p.traffic_dist then p.off_units else c.off_sample);
    on = if is_deterministic p.traffic_dist then p.on_units else c.on_sample;
    byte_switcher = is_byte_switcher p.switcher;
    fid = fid;
    sid = sid;
  }

module _ {ℓ κ μ} {W : Type ℓ} {T : Type κ} {E : Type μ} ⦃d : Double W⦄ ⦃t : FlowSender T E W⦄ where
  unfoldable pub make_call : Traffic T W → Call W → E → Flow (Traffic T W)
  make_call f k e = t.send_data f.tcp_type e k.on k.byte_switcher k.fid k.sid >>= λ u.
      go (record { tcp_type = u; calls = f.calls ++ k ∷ [] })

  -- The loop of `run`, from `fid`; the flag says that it ended by its test.
  unfoldable pub run_from :
      PacketSender W → ℤ → ℤ → Traffic T W → List (Cycle E W) → Flow (Traffic T W × Bool)
  unfolding call_of make_call
  run_from p fid sid f [] = go (f, not (leb_ℤ fid p.ncycles))
  run_from p fid sid f (c ∷ cycles) =
      let rest =
        make_call f (call_of p fid sid c) c.input >>= λ g. run_from p (fid +ℤ pos 1) sid g cycles in
      if leb_ℤ fid p.ncycles then rest else go (f, true)

  -- `run`
  unfoldable pub run : PacketSender W → ℤ → T → List (Cycle E W) → Flow (Traffic T W × Bool)
  run p sid u cycles = run_from p (pos 1) sid (record { tcp_type = u; calls = [] }) cycles
