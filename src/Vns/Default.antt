-- ===== src/Vns/Default.antt =====
-- vns/default.hh: the kernel's congestion control, through iperf. A command is a list of bytes; `to_string`
-- of a double belongs to the C++ library.
use Prim.Native.Char.{code}
use Prim.Native.String.{String}
use tcp_eyenet.Prelude.{ℕ, Bool, List, [], ◌∷◌, ◌++◌, if◌then◌else◌}
use tcp_eyenet.Prelude.Int.{ℤ}
use tcp_eyenet.Double.{Double}

abbrev pub codes : String → List ℕ
codes String.[] = []
codes (String.◌∷◌ c s) = code c ∷ codes s

-- `dip`, and the commands that were run, in order
pub record DefaultCong : Type 0 where
  pub dip : List ℕ
  pub commands : List (List ℕ)

unfoldable pub kern_version : List ℕ
kern_version = codes "echo \"    Kernel Version : `uname -r`\""

unfoldable pub cong_alg : List ℕ
cong_alg =
    codes
      "echo \"    Congestion Control Algorithm : `sysctl -a 2> /dev/null | grep net.ipv4.tcp_congestion_control | awk '{print $3}'`\""

-- The constructor
unfoldable pub default_cong : List ℕ → DefaultCong
unfolding kern_version cong_alg
default_cong ip = record { dip = ip; commands = kern_version ∷ cong_alg ∷ [] }

module _ {ℓ} {W : Type ℓ} ⦃d : Double W⦄ (to_string : W → List ℕ) where
  open d use {dec, over}

  unfoldable pub perf_cmd : List ℕ → W → Bool → List ℕ
  perf_cmd dip fsz byte_switcher =
      if byte_switcher
      then codes "iperf -c " ++ dip ++ codes " -n " ++ to_string fsz
      else codes "iperf -c " ++ dip ++ codes " -t " ++ to_string (over fsz (dec 1000 0))

  -- `default_cong::send_data`; the ids are not used.
  unfoldable pub send_data : DefaultCong → W → Bool → ℤ → ℤ → DefaultCong
  unfolding perf_cmd
  send_data c fsz byte_switcher fid sid = record c {
    commands = c.commands ++ perf_cmd c.dip fsz byte_switcher ∷ [];
  }
