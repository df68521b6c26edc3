-- ===== src/Vns/Args.antt =====
-- vns/vns_args.cc: what `parse_sender_args` makes of the options that boost::program_options finds.
-- Option values that are compared are texts; the address is a list of bytes.
use Prim.Native.String.{String}
use text.Mathlib.Text.{◌==◌}
use tcp_eyenet.Prelude.{
  ℕ, ◌≡◌, refl, [], false, Bool, Option, none, some, maybe, List, if◌then◌else◌,
}
use tcp_eyenet.Prelude.Int.{ℤ, pos}

pub data CongestionType : Type 0 where
  linux eyenet : CongestionType

pub data SwitchingType : Type 0 where
  time bytes : SwitchingType

pub data TrafficDistType : Type 0 where
  exponential deterministic : TrafficDistType

pub record SenderArgs : Type 0 where
  pub cycles : ℤ
  pub dst_port : ℤ
  pub src_port : ℤ
  pub on_units : ℤ
  pub off_units : ℤ
  pub bn_train : ℤ
  pub dst_ip : List ℕ
  pub traffic_dist : TrafficDistType
  pub switcher : SwitchingType
  pub cong : CongestionType

-- `sender_args::sender_args`
unfoldable pub sender_args : SenderArgs
sender_args = record {
  cycles = pos 1;
  dst_port = pos 8001;
  src_port = pos 8001;
  on_units = pos 5000;
  off_units = pos 5000;
  bn_train = pos 1;
  dst_ip = [];
  traffic_dist = exponential;
  switcher = time;
  cong = linux;
}

-- The map of options, with the defaults of those that have one
pub record VariablesMap : Type 0 where
  pub help : Bool
  pub cong : String
  pub dst_ip : Option (List ℕ)
  pub dst_port : ℤ
  pub src_port : ℤ
  pub traffic_dist : String
  pub on_unit : ℤ
  pub off_unit : ℤ
  pub cycles : ℤ
  pub bn_train : ℤ
  pub switcher : String

-- The map where only the address is given, with the defaults of `add_options`
unfoldable pub default_map : List ℕ → VariablesMap
default_map ip = record {
  help = false;
  cong = "linux";
  dst_ip = some ip;
  dst_port = pos 8001;
  src_port = pos 8001;
  traffic_dist = "exponential";
  on_unit = pos 5000;
  off_unit = pos 5000;
  cycles = pos 1;
  bn_train = pos 1;
  switcher = "time";
}

unfoldable pub choose_dist : String → TrafficDistType
choose_dist v =
    if v == "exponential"
    then exponential
    else if v == "deterministic"
    then deterministic
    else exponential

unfoldable pub choose_switcher : String → SwitchingType
choose_switcher v = if v == "time" then time else if v == "bytes" then bytes else time

unfoldable pub choose_cong : String → CongestionType
choose_cong v = if v == "linux" then linux else if v == "eyenet" then eyenet else linux

-- The arguments after `notify`, which throws where the required option is missing
unfoldable pub fill_args : VariablesMap → List ℕ → SenderArgs
unfolding choose_dist choose_switcher choose_cong
fill_args m ip = record {
  cycles = m.cycles;
  dst_port = m.dst_port;
  src_port = m.src_port;
  on_units = m.on_unit;
  off_units = m.off_unit;
  bn_train = m.bn_train;
  dst_ip = ip;
  traffic_dist = choose_dist m.traffic_dist;
  switcher = choose_switcher m.switcher;
  cong = choose_cong m.cong;
}

-- `parse_sender_args`; the argument is none where `store` throws, the result where it returns false.
unfoldable pub parse_sender_args : Option VariablesMap → Option SenderArgs
unfolding fill_args
parse_sender_args none = none
parse_sender_args (some m) =
    if m.help then none else maybe none m.dst_ip (λ ip. some (fill_args m ip))

-- The defaults of the options are those of the constructor.
pub parse_sender_args-default_map :
    (ip : List ℕ)
    → parse_sender_args (some (default_map ip)) ≡ some (record sender_args { dst_ip = ip })
unfolding parse_sender_args default_map sender_args fill_args choose_dist choose_switcher
    choose_cong
parse_sender_args-default_map ip = refl
