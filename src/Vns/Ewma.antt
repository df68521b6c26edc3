-- ===== src/Vns/Ewma.antt =====
-- `class ewma` of vns/vns_utils.cc: an exponentially weighted moving average. The object used as a
-- number is `e`.
use tcp_eyenet.Prelude.{Bool, true, false}
use tcp_eyenet.Double.{Double}

pub record Ewma {ℓ} (W : Type ℓ) : Type ℓ where
  pub e : W
  pub a : W
  pub is_valid : Bool

module _ {ℓ} {W : Type ℓ} ⦃d : Double W⦄ where
  open d use {dec, plus, minus, times}

  -- `ewma::ewma`
  unfoldable pub ewma : W → Ewma W
  ewma a = record { e = dec 0 0; a = a; is_valid = false }

  -- `ewma::set`
  unfoldable pub set : Ewma W → W → Ewma W
  set m val = record m { is_valid = true; e = val }

  -- `ewma::update`
  unfoldable pub update : Ewma W → W → Ewma W
  update m val = record m {
    is_valid = true;
    e = plus (times m.a val) (times (minus (dec 1 0) m.a) m.e);
  }

  -- `ewma::clear`; it leaves `is_valid`.
  unfoldable pub clear : Ewma W → Ewma W
  clear m = record m { e = dec 0 0 }
