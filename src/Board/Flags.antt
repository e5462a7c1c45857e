-- ===== src/Board/Flags.antt =====
-- A flag set in a `[]bool`.
use queens.Prelude.{
  ℕ, zero, suc, ◌<◌, ◌≡◌, refl, Bool, true, List, [], ◌∷◌, arith, ◌==◌, if◌then◌else◌, set, length,
}
use queens.Board.{flag}

pub flag-set :
    (fs : List Bool) (i j : ℕ)
    → i < length fs
    → flag (set fs i true) j ≡ (if i == j then true else flag fs j)
flag-set [] i j h = absurd (omega arith)
flag-set (b ∷ fs) zero zero h = refl
flag-set (b ∷ fs) zero (suc j) h = ground arith
flag-set (b ∷ fs) (suc i) zero h = ground arith
flag-set (b ∷ fs) (suc i) (suc j) h = ground (arith, flag-set fs i j)
