-- ===== src/League.antt =====
-- server/internal/domain/league.go: the league configuration, as `league.json` decodes, and the
-- ladder of tiers. The children model the rounds, the scores and the ranking of a group.
-- Config numbers are Go `int`s and may be negative in a file, so they are ℤ; `round_days` is not, as
-- `UnmarshalJSON` sees to. Strings are lists of bytes.
pub mod Ladder
pub mod Defaults
use queens.Prelude.{
  ℕ, zero, suc, ◌+◌, ◌-◌, Bool, true, false, not, ◌&&◌, List, [], ◌∷◌, map, Option, none, some, ltb,
  leb, ◌==◌, if◌then◌else◌, length,
}
use queens.Prelude.Int.{ℤ, pos, negsuc, pos_part, ltb_ℤ, leb_ℤ, ◌-ℤ◌}
use queens.Prelude.Text.{Text, bytes, text_eq}

pub record Bots : Type 0 where
  pub fill_to : ℤ
  pub game_score : ℤ
  pub games_max : ℤ

pub record Tier : Type 0 where
  pub id : Text
  pub name : Text
  pub round_days : ℕ
  pub up_mode : Text
  pub promo_score : ℤ
  pub up_pct : ℤ
  pub down_pct : ℤ
  pub inactive : Text
  pub floor : Bool
  pub min_promo_score : ℤ
  pub global : Bool
  pub min_slots : Option ℤ
  pub max_slots : Option ℤ
  pub players_per_slot : Option ℤ
  pub online_required : Bool
  pub bots : Option Bots

pub record LeagueConfig : Type 0 where
  pub format : ℤ
  pub group_size : ℤ
  pub group_max : ℤ
  pub min_group_size : ℤ
  pub round_mode : Text
  pub round_best_n : ℤ
  pub online_grace_s : ℤ
  pub tiers : List Tier
  pub bot_names : List Text

-- `Tier.UnmarshalJSON`: a missing `round_days` is 7, a negative one 0.
unfoldable pub decode_round_days : Option ℤ → ℕ
decode_round_days none = 7
decode_round_days (some d) = if ltb_ℤ d (pos 0) then 0 else pos_part d

-- The struct that `LoadLeagueConfig` decodes into.
pub record RawConfig : Type 0 where
  pub format : ℤ
  pub group_size : ℤ
  pub group_max : ℤ
  pub min_group_size : ℤ
  pub round_mode : Text
  pub round_best_n : Option ℤ
  pub online_grace_s : Option ℤ
  pub tiers : List Tier
  pub bot_names : List Text

abbrev pub or_default : Option ℤ → ℤ → ℤ
or_default none d = d
or_default (some n) d = n

-- `s == ""`
abbrev pub is_empty : Text → Bool
is_empty [] = true
is_empty (c ∷ cs) = false

abbrev pub text_or : Text → Text → Text
text_or s d = if is_empty s then d else s

abbrev pub is_zero : ℤ → Bool
is_zero (pos n) = n == 0
is_zero (negsuc n) = false

abbrev up_mode_pct : Text
up_mode_pct = bytes "pct"

abbrev pub up_mode_openings : Text
up_mode_openings = bytes "openings"

abbrev up_mode_score : Text
up_mode_score = bytes "score"

unfoldable pub default_tier : Tier → Tier
default_tier t = record t {
  up_mode = text_or t.up_mode up_mode_pct;
  inactive = text_or t.inactive (bytes "stay");
}

-- The configuration with its defaults.
unfoldable pub with_defaults : RawConfig → LeagueConfig
unfolding default_tier
with_defaults raw =
    let group_size = if ltb_ℤ raw.group_size (pos 1) then pos 30 else raw.group_size in
    record {
      format = raw.format;
      group_size = group_size;
      group_max = if ltb_ℤ raw.group_max group_size then group_size else raw.group_max;
      min_group_size = if is_zero raw.min_group_size then pos 5 else raw.min_group_size;
      round_mode = text_or raw.round_mode (bytes "best_n");
      round_best_n = or_default raw.round_best_n (pos 15);
      online_grace_s = or_default raw.online_grace_s (pos 600);
      tiers = map default_tier raw.tiers;
      bot_names = raw.bot_names;
    }

-- `LoadLeagueConfig` after the decoding: `none` is the error "no tiers".
unfoldable pub load_league_config : RawConfig → Option LeagueConfig
unfolding with_defaults
load_league_config raw = elim raw.tiers [ [] ↦ none | t ∷ ts ↦ some (with_defaults raw) ]

-- `TierByID`
unfoldable pub tier_in : List Tier → Text → Option Tier
tier_in [] id = none
tier_in (t ∷ ts) id = if text_eq t.id id then some t else tier_in ts id

-- The loop of `TierIndex`; `none` where it falls out of the loop.
unfoldable pub index_in : List Tier → ℕ → Text → Option ℕ
index_in [] i id = none
index_in (t ∷ ts) i id = if text_eq t.id id then some i else index_in ts (suc i) id

-- `c.Tiers[i].ID`, for an index in range.
abbrev pub id_at : List Tier → ℕ → Text
id_at [] i = []
id_at (t ∷ ts) zero = t.id
id_at (t ∷ ts) (suc i) = id_at ts i

unfoldable pub tier_by_id : LeagueConfig → Text → Option Tier
unfolding tier_in
tier_by_id c id = tier_in c.tiers id

unfoldable pub tier_index : LeagueConfig → Text → ℕ
unfolding index_in
tier_index c id = elim (index_in c.tiers 0 id) [ none ↦ 0 | some i ↦ i ]

unfoldable pub bottom_tier : LeagueConfig → Text
bottom_tier c = id_at c.tiers 0

unfoldable pub top_tier : LeagueConfig → Text
top_tier c = id_at c.tiers (length c.tiers - 1)

unfoldable pub promote_tier : LeagueConfig → Text → Text
unfolding tier_index
promote_tier c id =
    let i = suc (tier_index c id) in
    id_at c.tiers (if ltb (length c.tiers - 1) i then length c.tiers - 1 else i)

abbrev pub is_floor : Option Tier → Bool
is_floor none = false
is_floor (some t) = t.floor

-- `i - 1` stops at 0 as the code makes it stop.
unfoldable pub relegate_tier : LeagueConfig → Text → Text
unfolding tier_index tier_by_id
relegate_tier c id = if is_floor (tier_by_id c id) then id else id_at c.tiers (tier_index c id - 1)

-- `IsCapped` tests the presence of `max_slots`, not its value.
abbrev pub is_capped : Tier → Bool
is_capped t = elim t.max_slots [ none ↦ false | some n ↦ true ]

unfoldable pub promo_score_of : Tier → ℤ
unfolding text_eq
promo_score_of t =
    if not (text_eq t.up_mode up_mode_score)
    then pos 0
    else if ltb_ℤ t.promo_score (pos 0)
    then pos 0
    else t.promo_score

unfoldable pub reaches_promo : Tier → ℤ → Bool
unfolding promo_score_of
reaches_promo t tier_points =
    let need = promo_score_of t in ltb_ℤ (pos 0) need && leb_ℤ need tier_points

pub data Outcome : Type 0 where
  promoted stayed relegated inactive_frozen inactive_relegated : Outcome

pub data Zone : Type 0 where
  promote safe relegate : Zone

unfoldable pub outcome_for_zone : Zone → Outcome
outcome_for_zone promote = promoted
outcome_for_zone relegate = relegated
outcome_for_zone safe = stayed

-- A floor tier never relegates, whatever its `inactive` says.
unfoldable pub inactive_outcome : Tier → Outcome
unfolding text_eq
inactive_outcome t =
    if t.floor
    then inactive_frozen
    else if text_eq t.inactive (bytes "relegate")
    then inactive_relegated
    else inactive_frozen

-- The tier a player is in after an outcome.
unfoldable pub apply : LeagueConfig → Text → Outcome → Text
unfolding promote_tier relegate_tier
apply c id promoted = promote_tier c id
apply c id relegated = relegate_tier c id
apply c id inactive_relegated = relegate_tier c id
apply c id stayed = id
apply c id inactive_frozen = id
