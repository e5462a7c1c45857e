-- ===== src/Tests/Ladders.antt =====
-- The ladder of the shipped configuration.
use queens.Prelude.{ℕ, suc, ◌≤◌, ◌<◌, ◌≡◌, refl, false, some, arith, length}
use queens.Prelude.Text.{bytes, text_eq}
use queens.League.{
  id_at, apply, promote_tier, relegate_tier, relegated, tier_index, index_in, tier_by_id, tier_in,
  load_league_config, with_defaults, default_tier,
}
use queens.League.Ladder.{DistinctIds, floor_at, floor_below, apply_keeps_floor, relegate-promote}
use queens.League.Defaults.{IsLoaded, load_league_config-IsLoaded}
use queens.Tests.Data.{raw_config, config}

pub config-DistinctIds : DistinctIds config.tiers
unfolding with_defaults default_tier text_eq
config-DistinctIds = (
  (refl, (refl, (refl, (refl, tt)))),
  ((refl, (refl, (refl, tt))), ((refl, (refl, tt)), ((refl, tt), (tt, tt)))),
)

gold_is_floor : floor_below config.tiers 2 ≡ 2
unfolding with_defaults default_tier
gold_is_floor = refl

pub five_tiers : length config.tiers ≡ 5
unfolding with_defaults default_tier
five_tiers = refl

platinum_no_floor : floor_at config.tiers 3 ≡ false
unfolding with_defaults default_tier
platinum_no_floor = refl

apply_keeps_floor_example :
    (j : ℕ) × (apply config (id_at config.tiers 2) relegated ≡ id_at config.tiers j)
    × (j < length config.tiers)
    × (j ≤ 3)
    × (2 ≤ suc j)
    × (floor_below config.tiers 2 ≤ j)
apply_keeps_floor_example =
    apply_keeps_floor config 2 relegated config-DistinctIds (omega (arith, five_tiers))

relegate-promote_example :
    relegate_tier config (promote_tier config (id_at config.tiers 2)) ≡ id_at config.tiers 2
relegate-promote_example =
    relegate-promote config 2 config-DistinctIds (omega (arith, five_tiers)) platinum_no_floor

gold_stays : relegate_tier config (bytes "gold") ≡ bytes "gold"
unfolding relegate_tier tier_index index_in tier_by_id tier_in with_defaults default_tier text_eq
gold_stays = refl

loaded : load_league_config raw_config ≡ some config
unfolding load_league_config
loaded = refl

load_league_config-IsLoaded_example : IsLoaded raw_config config
load_league_config-IsLoaded_example = load_league_config-IsLoaded raw_config config loaded
