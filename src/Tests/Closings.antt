-- ===== src/Tests/Closings.antt =====
-- A member of a platinum group who is promoted when the group closes.
use queens.Prelude.{◌≡◌, refl, false, none, some, [], ◌∷◌, map}
use queens.Prelude.Fallible.{Fallible, done, fail}
use queens.Prelude.Int.{pos}
use queens.Prelude.Text.{Text, bytes, text_eq}
use queens.League.{promote, apply, tier_by_id, outcome_for_zone, with_defaults}
use queens.Group.{Member}
use queens.Absence.{Player, LeagueError, insert_summary, has_key, set_tier, known_tier}
use queens.Closing.{
  LeagueStore, RoundRow, settle_member, settle_player, get_player, update_tier, moved_row,
}
use queens.Closing.Once.{settle_member_twice}
use queens.Tests.Data.{config, member}

abbrev round : RoundRow
round = record { tier = bytes "platinum"; round_index = pos 2899; ends_at = pos 1754265600 }

abbrev winner : Member
winner = record (member (bytes "anna") 5000 12 1754200000) { rank = 1; zone = some promote }

abbrev player : Text → Text → Player
player id tier = record {
  id = id;
  tier = tier;
  tier_points = pos 9000;
  tier_since = pos 0;
  settled_round_end = pos 1753660800;
  updated_at = pos 0;
}

abbrev open_store : LeagueStore
open_store = record {
  players = player (bytes "ben") (bytes "platinum") ∷ player (bytes "anna") (bytes "platinum") ∷ [];
  summaries = [];
  members = record { player_id = bytes "anna"; final_rank = 0; zone = none; outcome = none } ∷ [];
  group_open = false;
}

abbrev store_of : Fallible LeagueError LeagueStore → LeagueStore
store_of (fail e) = open_store
store_of (done st) = st

abbrev settled_store : LeagueStore
settled_store = store_of (settle_member config round 30 (pos 1754265700) winner open_store)

settles : settle_member config round 30 (pos 1754265700) winner open_store ≡ done settled_store
unfolding settle_member get_player text_eq settle_player insert_summary has_key known_tier
    tier_by_id with_defaults apply outcome_for_zone
settles = refl

moves_up :
    map (λ (p : Player). p.tier) settled_store.players ≡ bytes "platinum" ∷ bytes "challenger" ∷ []
unfolding settle_member get_player text_eq settle_player insert_summary has_key known_tier
    tier_by_id with_defaults apply outcome_for_zone update_tier moved_row set_tier
moves_up = refl

settle_member_twice_example :
    settle_member config round 30 (pos 1754265700) winner settled_store ≡ done settled_store
settle_member_twice_example =
    settle_member_twice config round 30 (pos 1754265700) winner open_store settled_store settles
