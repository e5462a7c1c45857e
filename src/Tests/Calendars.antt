-- ===== src/Tests/Calendars.antt =====
-- Weeks and rounds around the epoch.
use queens.Prelude.{◌≡◌, refl, ◌↔◌, arith}
use queens.Prelude.Int.{pos, negsuc, ◌-ℤ◌, ◌≤ℤ◌}
use queens.Round.{floor_div, week_index, round_index}
use queens.Round.Division.{IsFloor, floor_div-IsFloor}
use queens.Round.Calendar.{InRound, InRound-iff, round_index_mono, InWeek, InWeek-iff}
use queens.Tests.Data.{gold}

floor_div-IsFloor_example : IsFloor (floor_div (negsuc 6) (pos 2)) (negsuc 6) 2
floor_div-IsFloor_example = floor_div-IsFloor (negsuc 6) 2 (omega arith)

minus_seven_halved : floor_div (negsuc 6) (pos 2) ≡ negsuc 3
unfolding floor_div ◌-ℤ◌
minus_seven_halved = refl

InRound-iff_example :
    InRound gold (pos 2900) (pos 1754300000) ↔ (round_index gold (pos 1754300000) ≡ pos 2900)
InRound-iff_example = InRound-iff gold (pos 2900) (pos 1754300000) refl

round_now : round_index gold (pos 1754300000) ≡ pos 2900
unfolding round_index floor_div ◌-ℤ◌
round_now = refl

before_the_epoch : week_index (pos 0) ≡ negsuc 0
unfolding week_index floor_div ◌-ℤ◌
before_the_epoch = refl

round_index_mono_example : round_index gold (negsuc 5) ≤ℤ round_index gold (pos 1754300000)
round_index_mono_example = round_index_mono gold (negsuc 5) (pos 1754300000) (omega arith)

-- The week of the epoch, which began before it.
InWeek-iff_example : InWeek (negsuc 0) (pos 0) ↔ (week_index (pos 0) ≡ negsuc 0)
InWeek-iff_example = InWeek-iff (negsuc 0) (pos 0)
