-- ===== src/Autoscaler/Fractions.antt =====
-- Exact fractions, an instance of the autoscaler's float operations.
use kahuna_k8s_operator.Common.{ℕ, ◌+◌, ◌-◌, ◌*◌, ◌/◌, Bool, ltb, leb, ◌==◌, if◌then◌else◌}
use kahuna_k8s_operator.Common.Int.{ℤ, pos, negsuc}
use kahuna_k8s_operator.Autoscaler.Arithmetic.{Float}

-- (up - down) / den
pub record Fraction : Type 0 where
  pub up : ℕ
  pub down : ℕ
  pub den : ℕ

abbrev pub whole : ℕ → Fraction
whole n = record { up = n; down = 0; den = 1 }

abbrev plus : Fraction → Fraction → Fraction
plus a b = record {
  up = a.up * b.den + b.up * a.den;
  down = a.down * b.den + b.down * a.den;
  den = a.den * b.den;
}

abbrev negate : Fraction → Fraction
negate a = record { up = a.down; down = a.up; den = a.den }

abbrev times : Fraction → Fraction → Fraction
times a b = record {
  up = a.up * b.up + a.down * b.down;
  down = a.up * b.down + a.down * b.up;
  den = a.den * b.den;
}

-- The divisor is a whole number or another fraction above 0.
abbrev over : Fraction → Fraction → Fraction
over a b = times a (record { up = b.den; down = 0; den = b.up - b.down })

abbrev pub below : Fraction → Fraction → Bool
below a b = ltb (a.up * b.den + b.down * a.den) (b.up * a.den + a.down * b.den)

abbrev ceiling : Fraction → ℤ
ceiling a =
    if leb a.down a.up
    then pos ((a.up - a.down + a.den - 1) / a.den)
    else (let k = (a.down - a.up) / a.den in if k == 0 then pos 0 else negsuc (k - 1))

abbrev pub fractions : Float
fractions = record {
  F = Fraction;
  of_int = whole;
  add = plus;
  sub = λ a b. plus a (negate b);
  mul = times;
  div = over;
  abs = λ a. if below a (whole 0) then negate a else a;
  max = λ a b. if below a b then b else a;
  less = below;
  ceil = ceiling;
  round = λ a. (2 * (a.up - a.down) + a.den) / (2 * a.den);
}
