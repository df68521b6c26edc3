-- ===== src/Double.antt =====
-- `double_t`: a type of floating-point numbers with the operations that the code applies to them. The
-- arithmetic is the platform's and not part of the repository, so it is an interface; the laws below
-- hold of IEEE 754 binary64, where NaN is the value that is not `<=` itself.
pub mod Fixed
pub mod Laws
use tcp_eyenet.Prelude.{ℕ, ◌*◌, ◌^◌, ◌≤◌, ◌<◌, ◌≡◌, ◌⊎◌, Bool, true, not, if◌then◌else◌}
use tcp_eyenet.Prelude.Int.{ℤ, pos, abs, ◌+ℤ◌, ltb_ℤ}

pub record Double {ℓ} (W : Type ℓ) : Type ℓ where
  -- The literal m / 10^k.
  pub dec : ℕ → ℕ → W
  pub of_int : ℤ → W
  -- The conversion to an integer type, which truncates towards zero.
  pub to_int : W → ℤ
  -- `numeric_limits<double_t>::max()` and `::min()`
  pub double_max : W
  pub double_min : W
  pub plus : W → W → W
  pub minus : W → W → W
  pub times : W → W → W
  pub over : W → W → W
  pub lt : W → W → Bool
  pub le : W → W → Bool
  pub eq : W → W → Bool

infix 4 ◌≼◌ ◌≺◌
abbrev pub ◌≼◌ {ℓ} : {W : Type ℓ} ⦃d : Double W⦄ → W → W → Type 0
◌≼◌ ⦃d⦄ x y = d.le x y ≡ true

abbrev pub ◌≺◌ {ℓ} : {W : Type ℓ} ⦃d : Double W⦄ → W → W → Type 0
◌≺◌ ⦃d⦄ x y = d.lt x y ≡ true

-- `std::max` and `std::min` of <algorithm>: the first argument unless the test finds the second.
abbrev pub fmax {ℓ} : {W : Type ℓ} ⦃d : Double W⦄ → W → W → W
fmax ⦃d⦄ a b = if d.lt a b then b else a

abbrev pub fmin {ℓ} : {W : Type ℓ} ⦃d : Double W⦄ → W → W → W
fmin ⦃d⦄ a b = if d.lt b a then b else a

pub record IsIeee {ℓ} (W : Type ℓ) ⦃d : Double W⦄ : Type ℓ where
  pub le_num : (x y : W) → x ≼ y → (x ≼ x) × (y ≼ y)
  pub lt_le : (x y : W) → x ≺ y → x ≼ y
  pub le_trans : (x y z : W) → x ≼ y → y ≼ z → x ≼ z
  pub lt-eq-not-le : (x y : W) → x ≼ x → y ≼ y → d.lt x y ≡ not (d.le y x)
  -- Rounding a literal is monotone, and 0.5 and 1.0 are exact.
  pub dec_mono : (m k n j : ℕ) → m * 10 ^ j ≤ n * 10 ^ k → d.dec m k ≼ d.dec n j
  pub half_lt_one : d.dec 5 1 ≺ d.dec 1 0
  -- An int32_t that is not negative converts exactly, and 1.0 is neutral.
  pub of_int_dec : (n : ℕ) → n < 2 ^ 31 → d.of_int (pos n) ≡ d.dec n 0
  pub one_times : (n : ℕ) → n < 2 ^ 31 → d.times (d.dec 1 0) (d.dec n 0) ≡ d.dec n 0
  -- Subtraction is antitone in its second argument; if the results are no numbers, the premise fails.
  pub minus_anti : (x s t y : W) → s ≼ t → y ≺ d.minus x t → y ≺ d.minus x s

-- Integers up to 2^32 convert exactly, and so do their sums and their order.
pub record IsExact {ℓ} (W : Type ℓ) ⦃d : Double W⦄ : Type ℓ where
  pub one : d.dec 1 0 ≡ d.of_int (pos 1)
  pub of_int_plus :
      (a b : ℤ)
      → abs a ≤ 2 ^ 32
      → abs b ≤ 2 ^ 32
      → d.plus (d.of_int a) (d.of_int b) ≡ d.of_int (a +ℤ b)
  pub of_int_lt :
      (a b : ℤ) → abs a ≤ 2 ^ 32 → abs b ≤ 2 ^ 32 → d.lt (d.of_int a) (d.of_int b) ≡ ltb_ℤ a b
