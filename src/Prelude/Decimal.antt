-- ===== src/Prelude/Decimal.antt =====
-- `%d` and `%03d` of the package fmt.
use Prim.Native.Nat.{ℕ, zero, suc, ◌+◌, ◌/◌, ◌%◌}
use mathlib.Core.List.{[], ◌∷◌, ◌++◌}
use queens.Prelude.Tests.{ltb, if◌then◌else◌}
use queens.Prelude.Int.{ℤ, pos, negsuc}
use queens.Prelude.Text.{Text}

-- The digits of `n`, which has fewer than `fuel` of them.
abbrev digits : ℕ → ℕ → Text
digits zero n = []
digits (suc fuel) n =
    let rest = digits fuel (n / 10) in
    if ltb n 10 then (48 + n) ∷ [] else rest ++ ((48 + n % 10) ∷ [])

abbrev decimal : ℕ → Text
decimal n = digits (suc n) n

abbrev pub decimal_ℤ : ℤ → Text
decimal_ℤ (pos n) = decimal n
decimal_ℤ (negsuc n) = 45 ∷ decimal (suc n)

-- `%03d` of a number.
abbrev pub decimal_3 : ℕ → Text
decimal_3 n =
    if ltb n 10 then 48 ∷ 48 ∷ decimal n else if ltb n 100 then 48 ∷ decimal n else decimal n
