-- ===== src/Score/Factors.antt =====
-- The factors of a game score stay in their ranges, whatever the game reports.
use queens.Prelude.{
  ℕ, ◌*◌, ◌^◌, ◌≤◌, ◌≡◌, inl, inr, Bool, true, false, ◌||◌, arith, if◌then◌else◌, Bool-cases,
}
use queens.Prelude.Int.{ℤ}
use queens.Float.{Float64}
use queens.Score.{
  clampf, accuracy_factor, speed_factor, hint_factor, zero_float, at_least_zero, breakdown,
}

-- What the clamps need of the floats, and what IEEE 754 doubles do: a literal that is not smaller as a
-- decimal number does not compare as smaller, and no number is both smaller and larger than another.
pub record IsOrdered (fl : Float64) : Type 0 where
  pub literals : (m j n k : ℕ) → m * 10 ^ k ≤ n * 10 ^ j → fl.lt (fl.lit n k) (fl.lit m j) ≡ false
  pub asym : (x y : fl.Float) → fl.lt x y ≡ true → fl.lt y x ≡ false

-- Neither below nor above the range; a NaN is neither.
abbrev pub Within : (fl : Float64) (lo hi x : fl.Float) → Type 0
Within fl lo hi x = (fl.lt x lo ≡ false) × (fl.lt hi x ≡ false)

module _ (fl : Float64) (o : IsOrdered fl) where
  clampf-Within :
      (v : fl.Float) (m j n k : ℕ)
      → m * 10 ^ k ≤ n * 10 ^ j
      → Within fl (fl.lit m j) (fl.lit n k) (clampf fl v (fl.lit m j) (fl.lit n k))
  unfolding clampf
  clampf-Within v m j n k h = elim (Bool-cases (fl.lt v (fl.lit m j))) [
    | inl low ↦ rw low (o.literals m j m j (omega arith), o.literals m j n k h)
    | inr enough ↦ elim (Bool-cases (fl.lt (fl.lit n k) v)) [
      | inl high ↦ rw (enough, high) (o.literals m j n k h, o.literals n k n k (omega arith))
      | inr fits ↦ rw (enough, fits) (enough, fits)
    ]
  ]

  accuracy_factor-lt : (wrong : ℤ) → fl.lt (accuracy_factor fl wrong) (fl.lit 1 1) ≡ false
  unfolding accuracy_factor
  accuracy_factor-lt wrong = larger (
      fl.div (fl.lit 1 0)
        (fl.add (fl.lit 1 0) (fl.mul (fl.lit 5 1) (fl.of_int (at_least_zero fl wrong)))))
    where
      larger :
          (v : fl.Float)
          → fl.lt (if fl.lt (fl.lit 1 1) v then v else fl.lit 1 1) (fl.lit 1 1) ≡ false
      larger v = elim (Bool-cases (fl.lt (fl.lit 1 1) v)) [
        | inl more ↦ rw more (o.asym (fl.lit 1 1) v more)
        | inr less ↦ rw less (o.literals 1 1 1 1 (omega arith))
      ]

  speed_factor-Within :
      (elapsed par : fl.Float) → Within fl (fl.lit 5 1) (fl.lit 2 0) (speed_factor fl elapsed par)
  unfolding speed_factor
  speed_factor-Within elapsed par =
      elim (Bool-cases (fl.le elapsed (zero_float fl) || fl.le par (zero_float fl))) [
        | inl missing ↦
            rw missing (o.literals 5 1 2 0 (omega arith), o.literals 2 0 2 0 (omega arith))
        | inr both ↦ rw both (clampf-Within _ 5 1 2 0 (omega arith))
      ]

  hint_factor-Within : (hints : ℤ) → Within fl (fl.lit 1 1) (fl.lit 1 0) (hint_factor fl hints)
  unfolding hint_factor
  hint_factor-Within hints = clampf-Within _ 1 1 1 0 (omega arith)

  -- The accuracy, the speed and the hint factor of a breakdown never compare as less than 0.1, 0.5 and
  -- 0.1, nor the speed as more than 2 or the hint factor as more than 1, whatever difficulty, times and
  -- counts the game reports.
  pub breakdown-Within :
      (difficulty : fl.Float) (size : ℤ) (par elapsed : fl.Float) (wrong hints : ℤ)
      (completed : Bool)
      → let b = breakdown fl difficulty size par elapsed wrong hints completed in
        (fl.lt b.accuracy (fl.lit 1 1) ≡ false)
        × Within fl (fl.lit 5 1) (fl.lit 2 0) b.speed
        × Within fl (fl.lit 1 1) (fl.lit 1 0) b.hint
  unfolding breakdown
  breakdown-Within difficulty size par elapsed wrong hints completed =
      (accuracy_factor-lt wrong, speed_factor-Within elapsed _, hint_factor-Within hints)
