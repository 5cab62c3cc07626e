-- ===== src/Prelude/Floats.antt =====
-- All that the code does with a `float`: literals, arithmetic and two comparisons. `a > b` is
-- `lt b a`, and `a >= b` is `le b a`, also for NaN, where all of them are false.
use Prim.Native.Nat.{ℕ, ◌+◌, ◌-◌, ◌*◌, ◌/◌}
use mathlib.Core.Path.{◌≡◌}
use mathlib.Core.Bool.{Bool, true, false}
use native.Mathlib.Omega.{arith}
use nifre.Prelude.Tests.{ltb, leb}

-- `ratio n d` is the literal whose value is `n / d`.
pub record Floats (W : Type 0) : Type 0 where
  pub ratio : ℕ → ℕ → W
  pub of_nat : ℕ → W
  pub add : W → W → W
  pub sub : W → W → W
  pub mul : W → W → W
  pub div : W → W → W
  pub lt : W → W → Bool
  pub le : W → W → Bool

-- What is not below a bound has nothing after it below the bound. With NaN this holds too: no
-- comparison with NaN is true.
pub record IsOrdered (W : Type 0) ⦃f : Floats W⦄ : Type 0 where
  pub not_below : (a b c : W) → f.lt a c ≡ false → f.le a b ≡ true → f.lt b c ≡ false

abbrev pub zero_float : {W : Type 0} ⦃f : Floats W⦄ → W
zero_float ⦃f⦄ = f.ratio 0 1

-- Thousandths, without negative numbers.
instance abbrev pub thousandths : Floats ℕ
thousandths = record {
  ratio = λ n d. n * 1000 / d;
  of_nat = λ n. n * 1000;
  add = λ a b. a + b;
  sub = λ a b. a - b;
  mul = λ a b. a * b / 1000;
  div = λ a b. a * 1000 / b;
  lt = ltb;
  le = leb;
}

pub thousandths-IsOrdered : IsOrdered ℕ
thousandths-IsOrdered = record { not_below = λ a b c h k. ground arith }
