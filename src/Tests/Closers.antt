-- ===== src/Tests/Closers.antt =====
-- The closing of a platinum round with a group of two members.
use queens.Slots.{clampi, openings, per_slot, slots}
use queens.Scores.{best_sum, round_score}
use queens.Round.{floor_div, quot, rem, round_end, round_index, round_start}
use queens.Bots.{
  bot_count, bot_games, bot_nickname, bot_progress, bot_seed, game_points, game_score_of,
  games_max_of, plan, plays_at, pm, posmod,
}
use queens.Group.{evaluate, assign_zones, sort_members, member_less, counts, percent, zone_at}
use queens.Closing.{
  settle_members, settle_member, get_player, moved_row, set_member_outcome, settle_player,
  update_tier,
}
use queens.Prelude.Sort.{sort_by, insert_by}
use queens.League.{
  tier_by_id, with_defaults, apply, default_tier, index_in, outcome_for_zone, promo_score_of,
  promote_tier, relegate_tier, tier_in, tier_index,
}
use queens.Prelude.{ℕ, ◌≡◌, refl, true, false, none, some, Option, [], ◌∷◌, map}
use queens.Prelude.Fallible.{Fallible, done, fail}
use queens.Prelude.Int.{pos, ◌*ℤ◌, ◌+ℤ◌, ◌-ℤ◌}
use queens.Prelude.Text.{Text, bytes, text_eq, text_lt}
use queens.Float.Exact.{exact}
use queens.Absence.{Player, LeagueError, known_tier, has_key, insert_summary, set_tier}
use queens.Freeze.{
  Round, round_closed, get_round, claim_round, claim_found, is_round, freeze_counts, freeze_pair,
  frozen_pair, claim_row, count_by_tier, finish_row, frozen_of, pair_counts, round_ending_at,
  sibling_counts,
}
use queens.GroupTable.{MemberEntry}
use queens.Closer.{
  LeagueTables, Names, close_round, open_groups, close_loop, open_rows, close_listed, close_one,
  is_claimed, settle_claimed, settle_group, group_outcome, group_members, people_in, bots_from,
  bot_member, close_row, finish_closing, fnv32a, group_seed,
}
use queens.Closer.Finished.{close_round-ends}
use queens.Tests.Data.{config}
use queens.Tests.Freezes.{round_of, player}

abbrev pub names : Names
names = record { nickname = λ id. id; bot_id = λ group slot. group; itoa = λ n. [] }

abbrev entry : Text → ℕ → MemberEntry
entry id score = record {
  player_id = id;
  tier = bytes "platinum";
  round_index = pos 2899;
  group_id = bytes "lg_platinum_2899_001";
  round_score = score;
  games = 3;
  last_submit_at = pos 1754000000;
  left_at = none;
  joined_at = pos 1753660999;
}

abbrev running : LeagueTables
running = record {
  rounds = round_of (bytes "platinum") ∷ [];
  groups =
      record {
        id = bytes "lg_platinum_2899_001";
        tier = bytes "platinum";
        round_index = pos 2899;
        quarantine = false;
        capacity = some (pos 30);
        member_count = 2;
        group_open = true;
        created_at = pos 1753660999;
      }
      ∷ [];
  entries = entry (bytes "ben") 900 ∷ entry (bytes "anna") 4000 ∷ [];
  players =
      player (bytes "platinum") ∷ record (player (bytes "platinum")) { id = bytes "ben" } ∷ [];
  summaries = [];
  outcomes =
      record { player_id = bytes "anna"; final_rank = 0; zone = none; outcome = none }
      ∷ record { player_id = bytes "ben"; final_rank = 0; zone = none; outcome = none }
      ∷ [];
}

abbrev closing : Fallible LeagueError (Option LeagueTables)
closing = close_round exact names config 2 (round_of (bytes "platinum")) (pos 1754265700) running

abbrev option_of : Fallible LeagueError (Option LeagueTables) → Option LeagueTables
option_of (fail e) = none
option_of (done o) = o

abbrev tables_of : Option LeagueTables → LeagueTables
tables_of none = running
tables_of (some w) = w

closes : closing ≡ done (option_of closing)
unfolding close_round claim_round claim_found get_round is_round text_eq freeze_counts known_tier
    tier_by_id with_defaults freeze_pair frozen_pair close_loop open_groups sort_by open_rows
    close_listed close_one is_claimed settle_claimed claim_row settle_group group_outcome
    settle_members evaluate assign_zones sort_members group_members people_in member_less bots_from
    bot_count settle_member get_player has_key insert_summary set_tier bot_games bot_nickname
    bot_progress bot_seed game_points game_score_of games_max_of plan plays_at pm posmod bot_member
    close_row finish_closing fnv32a group_seed moved_row set_member_outcome settle_player
    update_tier count_by_tier finish_row frozen_of pair_counts round_ending_at sibling_counts counts
    percent zone_at apply default_tier index_in outcome_for_zone promo_score_of promote_tier
    relegate_tier tier_in tier_index ◌*ℤ◌ ◌+ℤ◌ ◌-ℤ◌ insert_by text_lt floor_div quot rem round_end
    round_index round_start best_sum round_score clampi openings per_slot slots
closes = refl

moves_anna :
    map (λ (p : Player). p.tier) (tables_of (option_of closing)).players
    ≡ bytes "challenger" ∷ bytes "platinum" ∷ []
unfolding close_round claim_round claim_found get_round is_round text_eq freeze_counts known_tier
    tier_by_id with_defaults freeze_pair frozen_pair close_loop open_groups sort_by open_rows
    close_listed close_one is_claimed settle_claimed claim_row settle_group group_outcome
    settle_members evaluate assign_zones sort_members group_members people_in member_less bots_from
    bot_count settle_member get_player has_key insert_summary set_tier bot_games bot_nickname
    bot_progress bot_seed game_points game_score_of games_max_of plan plays_at pm posmod bot_member
    close_row finish_closing fnv32a group_seed moved_row set_member_outcome settle_player
    update_tier count_by_tier finish_row frozen_of pair_counts round_ending_at sibling_counts counts
    percent zone_at apply default_tier index_in outcome_for_zone promo_score_of promote_tier
    relegate_tier tier_in tier_index ◌*ℤ◌ ◌+ℤ◌ ◌-ℤ◌ insert_by text_lt floor_div quot rem round_end
    round_index round_start best_sum round_score clampi openings per_slot slots
moves_anna = refl

close_round-ends_example :
    (w' : LeagueTables) × (option_of closing ≡ some w')
    × (open_groups w'.groups (bytes "platinum") (pos 2899) ≡ [])
    × (r : Round) × (get_round w'.rounds (bytes "platinum") (pos 2899) ≡ some r)
    × (r.state ≡ round_closed)
close_round-ends_example =
    close_round-ends exact names config 0 (round_of (bytes "platinum")) (pos 1754265700) running
      (option_of closing) closes
