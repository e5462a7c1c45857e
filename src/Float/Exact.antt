-- ===== src/Float/Exact.antt =====
-- The arithmetic of floats on exact fractions, where no operation rounds: the instance of the
-- interface that examples run on. `math.Pow` is exact for whole exponents, and takes the whole part
-- of any other.
use queens.Prelude.{ℕ, zero, suc, ◌+◌, ◌*◌, ◌/◌, ◌^◌, ◌≡◌, ap, arith, ◌==◌, if◌then◌else◌}
use queens.Prelude.Int.{ℤ, pos, negsuc, neg_of, ltb_ℤ, leb_ℤ, ◌+ℤ◌, ◌-ℤ◌, ◌*ℤ◌}
use queens.Float.{Float64}
use queens.Group.{percent}
use queens.Group.Counts.{IsRounding}

-- `num / den` with a positive denominator.
pub record Fraction : Type 0 where
  pub num : ℤ
  pub den : ℕ

unfoldable pub over : ℤ → ℕ → Fraction
over n d = record { num = n; den = d }

-- The quotient by a fraction other than 0; 0 for 0.
unfoldable pub quotient : Fraction → Fraction → Fraction
quotient x y = elim y.num [
  | pos n ↦ if n == 0 then over (pos 0) 1 else over (x.num *ℤ pos y.den) (x.den * n)
  | negsuc n ↦ over (pos 0 -ℤ x.num *ℤ pos y.den) (x.den * suc n)
]

unfoldable pub whole_power : Fraction → ℕ → Fraction
whole_power x zero = over (pos 1) 1
whole_power x (suc k) = let rest = whole_power x k in over (x.num *ℤ rest.num) (x.den * rest.den)

unfoldable pub nearest : Fraction → ℤ
nearest x = elim x.num [
  | pos n ↦ pos ((2 * n + x.den) / (2 * x.den))
  | negsuc n ↦ neg_of ((2 * suc n + x.den) / (2 * x.den))
]

unfoldable pub whole_part : Fraction → ℕ
whole_part x = elim x.num [ pos n ↦ n / x.den | negsuc n ↦ 0 ]

unfoldable pub towards_zero : Fraction → ℤ
towards_zero x = elim x.num [ pos n ↦ pos (n / x.den) | negsuc n ↦ neg_of (suc n / x.den) ]

unfoldable pub exact : Float64
exact = record {
  Float = Fraction;
  lit = λ m k. over (pos m) (10 ^ k);
  of_int = λ z. over z 1;
  add = λ x y. over (x.num *ℤ pos y.den +ℤ y.num *ℤ pos x.den) (x.den * y.den);
  sub = λ x y. over (x.num *ℤ pos y.den -ℤ y.num *ℤ pos x.den) (x.den * y.den);
  mul = λ x y. over (x.num *ℤ y.num) (x.den * y.den);
  div = quotient;
  pow = λ x y. whole_power x (whole_part y);
  lt = λ x y. ltb_ℤ (x.num *ℤ pos y.den) (y.num *ℤ pos x.den);
  le = λ x y. leb_ℤ (x.num *ℤ pos y.den) (y.num *ℤ pos x.den);
  round = nearest;
  trunc = towards_zero;
}

pos_mul : (a b : ℕ) → pos a *ℤ pos b ≡ pos (a * b)
unfolding ◌*ℤ◌
pos_mul a b = ground arith

percent-exact : (p n : ℕ) → percent exact (pos p) n ≡ pos ((2 * (p * n) + 100) / 200)
unfolding exact nearest quotient over percent
percent-exact p n = rw (pos_mul p 1, pos_mul (p * 1) n) (ap pos (omega arith))

-- Exact percentages round to within a half.
pub exact-IsRounding : IsRounding exact
exact-IsRounding = record {
  near = λ p n h m. ((2 * (p * n) + 100) / 200, percent-exact p n, omega arith, omega arith);
}
