-- ===== src/Double/Laws.antt =====
-- What follows from the laws of the interface, NaN included.
use tcp_eyenet.Prelude.{◌≡◌, false, arith}
use tcp_eyenet.Double.{Double, IsIeee, ◌≼◌, ◌≺◌, fmax}

module _ {ℓ} {W : Type ℓ} ⦃d : Double W⦄ (laws : IsIeee W) where
  open laws use {le_num, lt_le, le_trans, lt-eq-not-le}

  -- A strict test that is met involves no NaN.
  pub lt_num : (x y : W) → x ≺ y → (x ≼ x) × (y ≼ y)
  lt_num x y h = le_num x y (lt_le x y h)

  pub lt_irrefl_false : (x : W) → x ≼ x → d.lt x x ≡ false
  lt_irrefl_false x h = ground (arith, lt-eq-not-le x x h h)

  pub le_lt_trans : (x y z : W) → x ≼ y → y ≺ z → x ≺ z
  le_lt_trans x y z h k =
      let (nx, ny) = le_num x y h in
      let nz = (lt_num y z k).1 in
      ground (arith, lt-eq-not-le x z nx nz, lt-eq-not-le y z ny nz, le_trans z x y)

  pub lt_le_trans : (x y z : W) → x ≺ y → y ≼ z → x ≺ z
  lt_le_trans x y z h k =
      let (nx, ny) = lt_num x y h in
      let nz = (le_num y z k).1 in
      ground (arith, lt-eq-not-le x z nx nz, lt-eq-not-le x y nx ny, le_trans y z x)

  pub lt_trans : (x y z : W) → x ≺ y → y ≺ z → x ≺ z
  lt_trans x y z h k = le_lt_trans x y z (lt_le x y h) k

  -- A failed strict test between numbers is the other order.
  pub le_of_not_lt : (x y : W) → x ≼ x → y ≼ y → d.lt x y ≡ false → y ≼ x
  le_of_not_lt x y nx ny h = ground (arith, lt-eq-not-le x y nx ny)

  pub not_lt_of_le : (x y : W) → y ≼ x → d.lt x y ≡ false
  not_lt_of_le x y h = let (ny, nx) = le_num y x h in ground (arith, lt-eq-not-le x y nx ny)

  -- `std::max` with a number first is never below it, whatever the other argument.
  pub le-fmax_left : (x y : W) → x ≼ x → x ≼ fmax x y
  le-fmax_left x y h = ground (arith, lt_le x y)
