-- ===== src/Prelude/Floats.antt =====
-- `double` as the program uses it: a type with these operations, whose arithmetic rounds as the
-- host's does. Theorems that need an order take its laws, which hold of all values but NaN.
use Prim.Native.Nat.{ℕ, suc, ◌/◌}
use mathlib.Core.Option.{Option}
use mathlib.Core.Path.{◌≡◌}
use mathlib.Core.Bool.{Bool, true, false, not}
use native.Mathlib.Omega.{arith}
use fix4_0_demo.Prelude.Bytes.{Text}
use fix4_0_demo.Prelude.Int.{ℤ, pos, negsuc, sub_ℕ, ◌+ℤ◌, ◌-ℤ◌, ◌*ℤ◌, ltb_ℤ, leb_ℤ}

pub record Double (W : Type 0) : Type 0 where
  pub of_int : ℤ → W
  pub add : W → W → W
  pub sub : W → W → W
  pub mul : W → W → W
  pub div : W → W → W
  pub lt : W → W → Bool
  pub le : W → W → Bool

abbrev pub nought : {W : Type 0} ⦃d : Double W⦄ → W
nought ⦃d⦄ = d.of_int (pos 0)

-- The order of the values that are not NaN: `<` is a strict weak order, and `<=` its complement.
pub record IsOrdered (W : Type 0) ⦃d : Double W⦄ : Type 0 where
  pub lt_irrefl : (x : W) → d.lt x x ≡ false
  pub lt_trans : (x y z : W) → d.lt x y ≡ true → d.lt y z ≡ true → d.lt x z ≡ true
  pub lt_cotrans : (x y z : W) → d.lt x z ≡ true → d.lt x y ≡ false → d.lt y z ≡ true
  pub le-eq-not-lt : (x y : W) → d.le x y ≡ not (d.lt y x)

-- Division that drops the remainder.
abbrev pub div_ℤ : ℤ → ℤ → ℤ
div_ℤ (pos a) (pos b) = pos (a / b)
div_ℤ (pos a) (negsuc b) = sub_ℕ 0 (a / suc b)
div_ℤ (negsuc a) (pos b) = sub_ℕ 0 (suc a / b)
div_ℤ (negsuc a) (negsuc b) = pos (suc a / suc b)

-- Whole ticks or cents: sums and products of such amounts, which a `double` holds exactly as long
-- as they stay below 2 ^ 53, are those of the integers.
abbrev pub ticks_double : Double ℤ
ticks_double = record {
  of_int = λ n. n;
  add = ◌+ℤ◌;
  sub = ◌-ℤ◌;
  mul = ◌*ℤ◌;
  div = div_ℤ;
  lt = ltb_ℤ;
  le = leb_ℤ;
}

pub ticks-IsOrdered : IsOrdered ℤ ⦃d = ticks_double⦄
ticks-IsOrdered = record {
  lt_irrefl = λ x. ground arith;
  lt_trans = λ x y z h k. ground arith;
  lt_cotrans = λ x y z h k. ground arith;
  le-eq-not-lt = λ x y. ground arith;
}

-- Texts of doubles: `std::stod`, where `none` is an exception, and a stream that is `std::fixed`
-- with so many digits after the point; `std::to_string` has six.
pub record DoubleText (W : Type 0) : Type 0 where
  pub stod : Text → Option W
  pub fixed : ℕ → W → Text
