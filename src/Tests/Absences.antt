-- ===== src/Tests/Absences.antt =====
-- A player who was away for three weeks, and the score of a game.
use queens.Prelude.{◌≡◌, refl, true, false, some, [], arith}
use queens.Prelude.Fallible.{done}
use queens.Prelude.Int.{pos}
use queens.Prelude.Text.{bytes, text_eq}
use queens.League.{Tier, id_at, tier_by_id, tier_in, with_defaults, default_tier}
use queens.Absence.{Player, tier_after_absence}
use queens.Absence.Rounds.{Has, miss_all, tier_after_absence-miss_all}
use queens.Absence.Settled.{Settles, settle_absence-Settles}
use queens.Float.Exact.{exact}
use queens.Score.{breakdown}
use queens.Score.Factors.{Within, breakdown-Within}
use queens.Score.Exact.{exact-IsOrdered}
use queens.Tests.Data.{config, platinum}
use queens.Tests.Ladders.{config-DistinctIds, five_tiers}

abbrev away : Player
away = record {
  id = bytes "anna";
  tier = bytes "platinum";
  tier_points = pos 9000;
  tier_since = pos 0;
  settled_round_end = pos 1752451200;
  updated_at = pos 0;
}

platinum_known : tier_by_id config (bytes "platinum") ≡ some (default_tier platinum)
unfolding tier_by_id tier_in with_defaults default_tier text_eq
platinum_known = refl

tier_after_absence-miss_all_example :
    (u : Tier) × (tier_after_absence config (default_tier platinum) 3 ≡ done u)
    × Has config (miss_all config 3 (id_at config.tiers 3)) u
unfolding with_defaults
tier_after_absence-miss_all_example =
    tier_after_absence-miss_all config 3 3 (default_tier platinum) config-DistinctIds
      (omega (arith, five_tiers)) platinum_known

settle_absence-Settles_example : Settles config (pos 1754300000) away [] (default_tier platinum)
settle_absence-Settles_example =
    settle_absence-Settles config (pos 1754300000) away [] (default_tier platinum)
      config-DistinctIds platinum_known

breakdown-Within_example :
    let b =
      breakdown exact
        (exact.lit 55 0)
        (pos 10)
        (exact.lit 0 0)
        (exact.lit 900 0)
        (pos 12)
        (pos 0)
        true in
    (exact.lt b.accuracy (exact.lit 1 1) ≡ false)
    × Within exact (exact.lit 5 1) (exact.lit 2 0) b.speed
    × Within exact (exact.lit 1 1) (exact.lit 1 0) b.hint
breakdown-Within_example =
    breakdown-Within exact exact-IsOrdered (exact.lit 55 0) (pos 10) (exact.lit 0 0)
      (exact.lit 900 0) (pos 12) (pos 0) true
