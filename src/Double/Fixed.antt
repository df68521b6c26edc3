-- ===== src/Double/Fixed.antt =====
-- A finite instance of the interface, with which definitions run and hypotheses are met: whole
-- millionths as integers, rounded towards zero, with no NaN and no infinity.
use tcp_eyenet.Prelude.{ℕ, zero, suc, ◌+◌, ◌*◌, ◌/◌, ◌^◌, ◌≤◌, ◌<◌, ◌≡◌, refl, true, not, arith}
use tcp_eyenet.Prelude.Int.{
  ℤ, pos, ◌+ℤ◌, ◌-ℤ◌, ◌*ℤ◌, quot, ltb_ℤ, leb_ℤ, eqb_ℤ, pos_part, neg_part, +ℤ_parts, eq_of_parts,
}
use native.Mathlib.Nat.{
  pow-suc, div-mul-le_self, mul-le-mul_right, le-div_iff_mul-le, le_of_mul-le-mul_right,
}
use tcp_eyenet.Double.{Double, IsIeee, IsExact}

abbrev pub unit : ℕ
unit = 1_000_000

-- m / 10^k, to the millionth.
unfoldable pub fixed_dec : ℕ → ℕ → ℤ
fixed_dec m k = pos (m * unit / 10 ^ k)

unfoldable pub fixed_times : ℤ → ℤ → ℤ
unfolding ◌*ℤ◌ quot
fixed_times a b = quot (a *ℤ b) (pos unit)

unfoldable pub fixed_over : ℤ → ℤ → ℤ
unfolding ◌*ℤ◌ quot
fixed_over a b = quot (a *ℤ pos unit) b

unfoldable pub fixed_of_int : ℤ → ℤ
unfolding ◌*ℤ◌
fixed_of_int a = a *ℤ pos unit

unfoldable pub fixed_to_int : ℤ → ℤ
unfolding quot
fixed_to_int a = quot a (pos unit)

instance abbrev pub fixed_double : Double ℤ
fixed_double = record {
  dec = fixed_dec;
  of_int = fixed_of_int;
  to_int = fixed_to_int;
  double_max = pos (10 ^ 30);
  double_min = pos 1;
  plus = ◌+ℤ◌;
  minus = ◌-ℤ◌;
  times = fixed_times;
  over = fixed_over;
  lt = ltb_ℤ;
  le = leb_ℤ;
  eq = eqb_ℤ;
}

fixed_le_num : (x y : ℤ) → leb_ℤ x y ≡ true → (leb_ℤ x x ≡ true) × (leb_ℤ y y ≡ true)
fixed_le_num x y h = ground arith

fixed_lt_le : (x y : ℤ) → ltb_ℤ x y ≡ true → leb_ℤ x y ≡ true
fixed_lt_le x y h = ground arith

fixed_le_trans : (x y z : ℤ) → leb_ℤ x y ≡ true → leb_ℤ y z ≡ true → leb_ℤ x z ≡ true
fixed_le_trans x y z h k = ground arith

fixed_lt_eq : (x y : ℤ) → ltb_ℤ x y ≡ not (leb_ℤ y x)
fixed_lt_eq x y = ground arith

pow_pos : (k : ℕ) → 0 < 10 ^ k
pow_pos zero = omega arith
pow_pos (suc k) = rw (pow-suc 10 k) (omega (arith, pow_pos k))

-- Quotients keep the order of the fractions.
div_mono : (a b c e : ℕ) → 0 < b → 0 < e → a * e ≤ c * b → a / b ≤ c / e
div_mono a b c e hb he h =
    let q : (a / b) * b ≤ a = div-mul-le_self a b in
    let q' : (a / b) * b * e ≤ a * e = mul-le-mul_right e q in
    (le-div_iff_mul-le he).1 (le_of_mul-le-mul_right {k = b} (grind arith) hb)

leb_of_le : {a b : ℕ} → a ≤ b → leb_ℤ (pos a) (pos b) ≡ true
leb_of_le h = ground arith

fixed_dec_mono :
    (m k n j : ℕ) → m * 10 ^ j ≤ n * 10 ^ k → leb_ℤ (fixed_dec m k) (fixed_dec n j) ≡ true
unfolding fixed_dec
fixed_dec_mono m k n j h =
    leb_of_le
      (div_mono (m * unit) (10 ^ k) (n * unit) (10 ^ j) (pow_pos k) (pow_pos j) (grind arith))

fixed_one : (n : ℕ) → fixed_times (fixed_dec 1 0) (fixed_dec n 0) ≡ fixed_dec n 0
unfolding fixed_times fixed_dec
fixed_one n = ground arith

fixed_int : (n : ℕ) → fixed_of_int (pos n) ≡ fixed_dec n 0
unfolding fixed_of_int fixed_dec
fixed_int n = ground arith

fixed_anti : (x s t y : ℤ) → leb_ℤ s t ≡ true → ltb_ℤ y (x -ℤ t) ≡ true → ltb_ℤ y (x -ℤ s) ≡ true
unfolding ◌-ℤ◌
fixed_anti x s t y h k = ground arith

pub fixed-IsIeee : IsIeee ℤ
unfolding fixed_dec
fixed-IsIeee = record {
  le_num = fixed_le_num;
  lt_le = fixed_lt_le;
  le_trans = fixed_le_trans;
  lt-eq-not-le = λ x y _ _. fixed_lt_eq x y;
  dec_mono = fixed_dec_mono;
  half_lt_one = refl;
  of_int_dec = λ n _. fixed_int n;
  one_times = λ n _. fixed_one n;
  minus_anti = fixed_anti;
}

fixed_of_int_parts :
    (a : ℤ)
    → pos_part (fixed_of_int a) + neg_part a * unit ≡ neg_part (fixed_of_int a) + pos_part a * unit
unfolding fixed_of_int ◌*ℤ◌
fixed_of_int_parts a = ground arith

fixed_plus : (a b : ℤ) → (fixed_of_int a +ℤ fixed_of_int b) ≡ fixed_of_int (a +ℤ b)
fixed_plus a b = eq_of_parts _ _ (
    omega (
      arith,
      fixed_of_int_parts a,
      fixed_of_int_parts b,
      fixed_of_int_parts (a +ℤ b),
      +ℤ_parts (fixed_of_int a) (fixed_of_int b),
      +ℤ_parts a b,
    ))

fixed_lt : (a b : ℤ) → ltb_ℤ (fixed_of_int a) (fixed_of_int b) ≡ ltb_ℤ a b
fixed_lt a b = ground (arith, fixed_of_int_parts a, fixed_of_int_parts b)

pub fixed-IsExact : IsExact ℤ
unfolding fixed_dec fixed_of_int ◌*ℤ◌
fixed-IsExact = record {
  one = refl;
  of_int_plus = λ a b _ _. fixed_plus a b;
  of_int_lt = λ a b _ _. fixed_lt a b;
}
