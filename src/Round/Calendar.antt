-- ===== src/Round/Calendar.antt =====
-- The rounds of a tier tile the time line, and so do the weeks.
use queens.Prelude.{ℕ, ◌<◌, ◌≡◌, refl, subst, ◌∙◌, ◌↔◌, inl, inr, true, arith, ltb→lt, Bool-cases}
use queens.Prelude.Int.{ℤ, pos, ◌+ℤ◌, ◌-ℤ◌, ◌*ℤ◌, ◌≤ℤ◌, ◌<ℤ◌, int_laws}
use queens.League.{Tier}
use queens.Round.{
  floor_div, week_epoch_offset, week_index, week_start, week_end, has_rounds, round_seconds,
  round_index, round_start, round_end,
}
use queens.Round.Division.{IsFloor, floor_div_mono, floor_div-IsFloor, floor_div_unique}

-- Shifted by the offset, the bounds of a slot are the bounds of the floor.
slot_bounds :
    (q u : ℤ) (m : ℕ)
    → IsFloor q (u -ℤ week_epoch_offset) m
      ↔ ((q *ℤ pos m +ℤ week_epoch_offset ≤ℤ u) × (u <ℤ (q +ℤ pos 1) *ℤ pos m +ℤ week_epoch_offset))
slot_bounds q u m =
    (λ (lo, hi). (omega int_laws, omega int_laws), λ (lo, hi). (omega int_laws, omega int_laws))

-- `u` is an instant of the round.
abbrev pub InRound : Tier → ℤ → ℤ → Type 0
InRound t i u = (round_start t i ≤ℤ u) × (u <ℤ round_end t i)

module _ (t : Tier) (r : has_rounds t ≡ true) where
  round_bounds :
      (i u : ℤ)
      → InRound t i u ↔ (
          (i *ℤ pos (round_seconds t) +ℤ week_epoch_offset ≤ℤ u)
          × (u <ℤ (i +ℤ pos 1) *ℤ pos (round_seconds t) +ℤ week_epoch_offset))
  unfolding round_start round_end
  round_bounds i u = rw r ((λ b. b), (λ b. b))

  round_index_on :
      (u : ℤ) → round_index t u ≡ floor_div (u -ℤ week_epoch_offset) (pos (round_seconds t))
  unfolding round_index
  round_index_on u = rw r

  seconds_pos : 0 < round_seconds t
  seconds_pos = omega (arith, ltb→lt 0 t.round_days r)

  -- In a tier with rounds every instant lies in the round that the code computes for it.
  pub round_index-InRound : (u : ℤ) → InRound t (round_index t u) u
  round_index-InRound u = rw (round_index_on u) (
      (round_bounds _ u).1
        ((slot_bounds _ u (round_seconds t)).0 (floor_div-IsFloor _ _ seconds_pos)))

  -- It lies in no other round.
  pub round_index_unique : (i u : ℤ) → InRound t i u → round_index t u ≡ i
  round_index_unique i u b =
      round_index_on u
      ∙ floor_div_unique i _ _ seconds_pos
          ((slot_bounds i u (round_seconds t)).1 ((round_bounds i u).0 b))

  -- A round ends where the next one starts.
  round_end-round_start : (i : ℤ) → round_end t i ≡ round_start t (i +ℤ pos 1)
  unfolding round_end
  round_end-round_start i = rw r

-- `u` is an instant of the week.
abbrev pub InWeek : ℤ → ℤ → Type 0
InWeek i u = (week_start i ≤ℤ u) × (u <ℤ week_end i)

-- Exactly one week contains an instant, before the epoch too: `WeekIndex` is the one whose bounds, by
-- `WeekStart` and `WeekEnd`, the instant lies in.
pub InWeek-iff : (i u : ℤ) → InWeek i u ↔ (week_index u ≡ i)
unfolding week_index week_start week_end
InWeek-iff i u = (
  λ b. floor_div_unique i _ _ (omega arith) ((slot_bounds i u 604800).1 b),
  λ e. subst (λ j. InWeek j u) e ((slot_bounds _ u 604800).0 (floor_div-IsFloor _ _ (omega arith))),
)

-- Exactly one round of a tier with rounds contains an instant: the one that the code computes.
pub InRound-iff : (t : Tier) (i u : ℤ) → has_rounds t ≡ true → InRound t i u ↔ (round_index t u ≡ i)
InRound-iff t i u r =
    (round_index_unique t r i u, λ e. subst (λ j. InRound t j u) e (round_index-InRound t r u))

-- An instant that is not later lies in no later round.
pub round_index_mono : (t : Tier) (u v : ℤ) → u ≤ℤ v → round_index t u ≤ℤ round_index t v
unfolding round_index
round_index_mono t u v h = elim (Bool-cases (has_rounds t)) [
  | inl r ↦ rw r (floor_div_mono _ _ _ (seconds_pos t r) (omega int_laws))
  | inr n ↦ rw n (omega arith)
]

-- The start of the round of an instant lies in that round, and in a tier without rounds both are 0.
pub round_index-round_start :
    (t : Tier) (u : ℤ) → round_index t (round_start t (round_index t u)) ≡ round_index t u
unfolding round_index
round_index-round_start t u = elim (Bool-cases (has_rounds t)) [
  | inl r ↦
      let (lo, hi) = round_index-InRound t r u in
      round_index_unique t r (round_index t u) (round_start t (round_index t u))
        (omega arith, omega arith)
  | inr n ↦ rw n refl
]
