-- ===== src/Tests/Data.antt =====
-- Test data: a board of the catalogue (server/internal/levelset) and the configuration that the server
-- embeds (server/internal/domain/league.json).
use queens.Prelude.{ℕ, true, false, none, some, List, [], ◌∷◌, map}
use queens.Prelude.Int.{ℤ, pos}
use queens.Prelude.Text.{Text, bytes}
use queens.League.{Bots, Tier, LeagueConfig, RawConfig, with_defaults}
use queens.Group.{Member}

abbrev pub level_size : ℕ
level_size = 6

abbrev pub level_regions : List (List ℤ)
level_regions = map (map pos) (
    (3 ∷ 3 ∷ 0 ∷ 0 ∷ 0 ∷ 0 ∷ [])
    ∷ (3 ∷ 3 ∷ 1 ∷ 2 ∷ 2 ∷ 2 ∷ [])
    ∷ (3 ∷ 3 ∷ 3 ∷ 4 ∷ 2 ∷ 4 ∷ [])
    ∷ (5 ∷ 3 ∷ 3 ∷ 4 ∷ 4 ∷ 4 ∷ [])
    ∷ (5 ∷ 5 ∷ 5 ∷ 4 ∷ 4 ∷ 4 ∷ [])
    ∷ (5 ∷ 5 ∷ 5 ∷ 4 ∷ 4 ∷ 4 ∷ [])
    ∷ [])

abbrev pub level_solution : List ℤ
level_solution = map pos (5 ∷ 2 ∷ 4 ∷ 1 ∷ 3 ∷ 0 ∷ [])

abbrev timeless : Text → ℤ → Tier
timeless id score = record {
  id = id;
  name = id;
  round_days = 0;
  up_mode = bytes "score";
  promo_score = score;
  up_pct = pos 0;
  down_pct = pos 0;
  inactive = bytes "stay";
  floor = false;
  min_promo_score = pos 0;
  global = false;
  min_slots = none;
  max_slots = none;
  players_per_slot = none;
  online_required = false;
  bots = none;
}

abbrev pub bronze : Tier
bronze = timeless (bytes "bronze") (pos 3000)

abbrev silver : Tier
silver = timeless (bytes "silver") (pos 10000)

abbrev pub gold_bots : Bots
gold_bots = record { fill_to = pos 30; game_score = pos 380; games_max = pos 15 }

abbrev pub gold : Tier
gold = record (timeless (bytes "gold") (pos 0)) {
  round_days = 7;
  up_mode = [];
  up_pct = pos 20;
  floor = true;
  min_promo_score = pos 1500;
  bots = some gold_bots;
}

abbrev pub platinum : Tier
platinum = record (timeless (bytes "platinum") (pos 0)) {
  round_days = 7;
  up_mode = [];
  up_pct = pos 15;
  down_pct = pos 25;
  inactive = bytes "relegate";
  min_promo_score = pos 2500;
}

abbrev pub challenger : Tier
challenger = record (timeless (bytes "challenger") (pos 0)) {
  round_days = 7;
  up_mode = [];
  down_pct = pos 50;
  inactive = bytes "relegate";
  global = true;
  online_required = true;
  min_slots = some (pos 5);
  max_slots = some (pos 50);
  players_per_slot = some (pos 10);
}

abbrev pub raw_config : RawConfig
raw_config = record {
  format = pos 2;
  group_size = pos 30;
  group_max = pos 50;
  min_group_size = pos 5;
  round_mode = bytes "best_n";
  round_best_n = some (pos 15);
  online_grace_s = none;
  tiers = bronze ∷ silver ∷ gold ∷ platinum ∷ challenger ∷ [];
  bot_names = bytes "Mira" ∷ bytes "Jonas" ∷ bytes "Lena" ∷ [];
}

abbrev pub config : LeagueConfig
config = with_defaults raw_config

abbrev pub member : Text → ℕ → ℕ → ℕ → Member
member id score games at = record {
  player_id = id;
  nickname = id;
  round_score = score;
  games = games;
  last_submit_at = pos at;
  is_me = false;
  is_friend = false;
  rank = 0;
  zone = none;
  left_at = pos 0;
  group_id = [];
  bot = false;
}
