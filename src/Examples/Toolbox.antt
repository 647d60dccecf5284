-- ===== src/Examples/Toolbox.antt =====
-- Concrete instances of the parameters: proportions that round down, and fractions in place of floats.
use power_plant.Prelude.{ℕ, ◌+◌, ◌-◌, ◌*◌, ◌/◌, ◌≤◌, min, ◌==◌, if◌then◌else◌, u8_max, u64_max}
use power_plant.Slashing.Entity.{Perbill, billion}
use power_plant.Ledger.{Perquintill}
use power_plant.Reputation.Points.{Float}
use native.Mathlib.Nat.{div-le_of_le-mul, mul-le-mul_right}

pub floor_scale_le : (p x : ℕ) → p ≤ billion → p * x / billion ≤ x
floor_scale_le p x h = div-le_of_le-mul billion (mul-le-mul_right x h)

abbrev pub floor_perbill : Perbill
floor_perbill = record {
  scale = λ p x. p * x / billion;
  from_rational = λ p q. min billion (if q == 0 then billion else p * billion / q);
  scale_le = floor_scale_le;
}

pub record Fraction : Type 0 where
  pub numerator : ℕ
  pub denominator : ℕ

abbrev pub fractions : Perquintill
fractions = record {
  Ratio = Fraction;
  from_rational_up = λ p q. record { numerator = p; denominator = q };
  mul_ceil = λ r x. (r.numerator * x + r.denominator - 1) / r.denominator;
}

abbrev whole : ℕ → Fraction
whole n = record { numerator = n; denominator = 1 }

-- With the exponent 1 in place of 1.6, so that all powers are fractions.
abbrev pub linear_float : Float
linear_float = record {
  F = Fraction;
  of_nat = whole;
  as_u8 = λ x. min u8_max (x.numerator / x.denominator);
  as_u64 = λ x. min u64_max (x.numerator / x.denominator);
  mul = λ x y. record {
    numerator = x.numerator * y.numerator;
    denominator = x.denominator * y.denominator;
  };
  div = λ x y. record {
    numerator = x.numerator * y.denominator;
    denominator = x.denominator * y.numerator;
  };
  pow = λ x y. x;
  ceil = λ x. whole ((x.numerator + x.denominator - 1) / x.denominator);
  curvature = whole 1;
  normal = whole 2;
}
