-- ===== src/Vns/RttWin.antt =====
-- `class rtt_win` of vns/vns_utils.cc: the smoothed round-trip time and its four windows. An object
-- of `win` used as a number is its tail.
pub mod Suffix
pub mod Order
use tcp_eyenet.Prelude.{Bool, true, false, if◌then◌else◌}
use tcp_eyenet.Double.{Double, fmax, fmin}
use tcp_eyenet.Vns.Win
use tcp_eyenet.Vns.Win.{Win}

pub record RttWin {ℓ} (W : Type ℓ) : Type ℓ where
  pub srtt : W
  pub a : W
  pub eyenet_min : Win W
  pub eyenet_max : Win W
  pub curr_rtt : W
  pub min_rtt : Win W
  pub virgin_rtt : Win W

module _ {ℓ} {W : Type ℓ} ⦃d : Double W⦄ where
  open d use {dec, plus, minus, times, over, lt, eq}

  -- `rtt_win::rtt_win`
  unfoldable pub rtt_win : RttWin W
  rtt_win = record {
    srtt = dec 0 0;
    a = over (dec 1 0) (dec 16 0);
    eyenet_min = Win.win true;
    eyenet_max = Win.win false;
    curr_rtt = dec 0 0;
    min_rtt = Win.win true;
    virgin_rtt = Win.win true;
  }

  -- `rtt_win::clear`; it leaves `curr_rtt`.
  unfoldable pub clear : RttWin W → RttWin W
  clear r = record r {
    srtt = dec 0 0;
    min_rtt = Win.clear r.min_rtt;
    virgin_rtt = Win.clear r.virgin_rtt;
    eyenet_min = Win.clear r.eyenet_min;
    eyenet_max = Win.clear r.eyenet_max;
  }

  -- The new `srtt` of `add`: a sample is taken whole if there was none.
  unfoldable pub smooth : RttWin W → W → W
  smooth r v =
      let srtt = if eq r.srtt (dec 0 0) then v else r.srtt in
      plus (times r.a v) (times (minus (dec 1 0) r.a) srtt)

  -- The size that `add` gives to the window of `min_rtt`.
  unfoldable pub win_sz : RttWin W → W
  win_sz r = fmax (dec 10000 0) (times (dec 20 0) r.min_rtt.tail)

  -- `rtt_win::add`
  unfoldable pub add : RttWin W → W → W → RttWin W
  unfolding smooth win_sz
  add r v ts =
      let srtt = smooth r v in
      let sz = win_sz r in
      let wide = fmin sz (times (dec 4 0) srtt) in
      record r {
        srtt = srtt;
        curr_rtt = v;
        min_rtt = Win.add (Win.update_sz r.min_rtt sz) v ts;
        virgin_rtt = Win.add (Win.update_sz r.virgin_rtt (fmin sz (times (dec 5 1) srtt))) v ts;
        eyenet_min = Win.add (Win.update_sz r.eyenet_min wide) v ts;
        eyenet_max = Win.add (Win.update_sz r.eyenet_max wide) v ts;
      }

  -- `rtt_win::mode_eyenet`; its result is used as a truth value.
  unfoldable pub mode_eyenet : RttWin W → Bool
  mode_eyenet r =
      let low = r.min_rtt.tail in
      lt r.eyenet_min.tail (plus low (times (dec 1 1) (minus r.eyenet_max.tail low)))
