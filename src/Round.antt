-- ===== src/Round.antt =====
-- server/internal/domain/scoring.go (`floorDiv`, weeks) and league.go (rounds): the calendar of
-- rounds. Instants are Unix seconds and round numbers may be negative, so both are ℤ.
pub mod Division
pub mod Calendar
use queens.Prelude.{
  ℕ, zero, suc, ◌+◌, ◌-◌, ◌*◌, ◌/◌, ◌%◌, ◌^◌, ◌≤◌, ◌<◌, min, max, ◌≡◌, refl, sym, ap, ap₂, subst,
  ◌∙◌, ◌≢◌, ◌↔◌, ◌⊎◌, inl, inr, Bool, true, false, not, ◌&&◌, ◌||◌, Option, none, some, List, [],
  ◌∷◌, ◌++◌, map, arith, dec_lt, ℕ_discrete, ltb, leb, ◌==◌, if◌then◌else◌, ltb→lt, lt→ltb, leb→le,
  ==_iff, Bool-cases, Option-cases, length, get_elem?, set, length-append, length-set, get_or, take,
  drop, replicate, length-take, length-drop, length-replicate, length-map, take-append-drop, All,
  sum,
}
use queens.Prelude.Int.{ℤ, pos, negsuc, neg_of, abs_ℕ, is_neg, ◌+ℤ◌, ◌-ℤ◌, ◌*ℤ◌}
use queens.League.{Tier, is_zero}

-- Go's `/` on `int64` truncates towards zero; the operands here are not both extreme.
unfoldable pub quot : ℤ → ℤ → ℤ
quot (pos a) (pos b) = pos (a / b)
quot (pos a) (negsuc b) = neg_of (a / suc b)
quot (negsuc a) (pos b) = neg_of (suc a / b)
quot (negsuc a) (negsuc b) = pos (suc a / suc b)

-- Go's `%` has the sign of the dividend.
unfoldable pub rem : ℤ → ℤ → ℤ
rem (pos a) b = pos (a % abs_ℕ b)
rem (negsuc a) b = neg_of (suc a % abs_ℕ b)

-- `!=` of two tests.
abbrev bool_ne : Bool → Bool → Bool
bool_ne true b = not b
bool_ne false b = b

unfoldable pub floor_div : ℤ → ℤ → ℤ
unfolding quot rem ◌-ℤ◌
floor_div a b =
    let q = quot a b in
    if not (is_zero (rem a b)) && bool_ne (is_neg a) (is_neg b) then q -ℤ pos 1 else q

abbrev week_seconds : ℕ
week_seconds = 604800

-- The Unix epoch is a Thursday; Monday 1970-01-05 00:00 UTC.
abbrev pub week_epoch_offset : ℤ
week_epoch_offset = pos 345600

unfoldable pub week_index : ℤ → ℤ
week_index t = floor_div (t -ℤ week_epoch_offset) (pos week_seconds)

unfoldable pub week_start : ℤ → ℤ
week_start i = i *ℤ pos week_seconds +ℤ week_epoch_offset

unfoldable pub week_end : ℤ → ℤ
week_end i = week_start (i +ℤ pos 1)

abbrev day_seconds : ℕ
day_seconds = 86400

abbrev round_epoch_offset : ℤ
round_epoch_offset = week_epoch_offset

-- False for a tier with `round_days` 0: no timer, no group, no ranking.
abbrev pub has_rounds : Tier → Bool
has_rounds t = ltb 0 t.round_days

abbrev pub round_seconds : Tier → ℕ
round_seconds t = t.round_days * day_seconds

unfoldable pub round_index : Tier → ℤ → ℤ
round_index t unix_time =
    if not (has_rounds t)
    then pos 0
    else floor_div (unix_time -ℤ round_epoch_offset) (pos (round_seconds t))

unfoldable pub round_start : Tier → ℤ → ℤ
round_start t i =
    if not (has_rounds t) then pos 0 else i *ℤ pos (round_seconds t) +ℤ round_epoch_offset

unfoldable pub round_end : Tier → ℤ → ℤ
round_end t i = if not (has_rounds t) then pos 0 else round_start t (i +ℤ pos 1)
