-- ===== src/Tests/Freezes.antt =====
-- The claims of the rounds of a platinum tier that fills the places of the challenger tier, and of the
-- challenger tier, in this order.
use queens.Slots.{clampi, openings, per_slot, slots}
use queens.Round.{quot}
use queens.Group.{counts, percent}
use queens.Prelude.{◌≡◌, ◌≢◌, refl, none, some, List, [], ◌∷◌, map}
use queens.Prelude.Fallible.{Fallible, done, fail}
use queens.Prelude.Int.{pos, ◌+ℤ◌, ◌-ℤ◌}
use queens.Prelude.Text.{Text, bytes, text_eq}
use queens.Float.Exact.{exact}
use queens.League.{
  LeagueConfig, tier_by_id, promote_tier, relegate_tier, index_in, promo_score_of, tier_in,
  tier_index,
}
use queens.Absence.{Player, LeagueError, known_tier}
use queens.Freeze.{
  Round, round_open, claim_round, get_round, claim_found, is_round, freeze_counts, freeze_pair,
  frozen_pair, claim_row, frozen_of, pair_counts, sibling_counts, round_ending_at, count_by_tier,
}
use queens.Freeze.Claim.{claim_round_resumed}
use queens.Freeze.Siblings.{siblings_agree}
use queens.Tests.Data.{config, platinum, challenger}

abbrev cfg : LeagueConfig
cfg = record config { tiers = record platinum { up_mode = bytes "openings" } ∷ challenger ∷ [] }

abbrev pub round_of : Text → Round
round_of tier = record {
  tier = tier;
  round_index = pos 2899;
  starts_at = pos 1753660800;
  ends_at = pos 1754265600;
  state = round_open;
  group_seq = 1;
  up_count = none;
  below_players = none;
  members_in_tier = none;
  closing_started_at = none;
  closed_at = none;
  created_at = pos 1753660900;
}

abbrev rounds : List Round
rounds = round_of (bytes "platinum") ∷ round_of (bytes "challenger") ∷ []

abbrev rounds_of : Fallible LeagueError (List Round) → List Round
rounds_of (fail e) = []
rounds_of (done rs) = rs

abbrev pub player : Text → Player
player tier = record {
  id = bytes "anna";
  tier = tier;
  tier_points = pos 0;
  tier_since = pos 0;
  settled_round_end = pos 0;
  updated_at = pos 0;
}

abbrev first_claim : Fallible LeagueError (List Round)
first_claim =
    claim_round exact cfg (pos 1754265601) (player (bytes "platinum") ∷ []) rounds
      (bytes "platinum") (pos 2899)

abbrev second_claim : Fallible LeagueError (List Round)
second_claim =
    claim_round exact cfg (pos 1754265602) (player (bytes "challenger") ∷ [])
      (rounds_of first_claim) (bytes "challenger") (pos 2899)

counts_one : map (λ (r : Round). r.below_players) (rounds_of second_claim) ≡ some 1 ∷ some 1 ∷ []
unfolding claim_round claim_found get_round is_round text_eq freeze_counts known_tier tier_by_id
    freeze_pair frozen_pair promote_tier claim_row relegate_tier frozen_of pair_counts
    sibling_counts round_ending_at count_by_tier counts percent index_in promo_score_of tier_in
    tier_index ◌+ℤ◌ ◌-ℤ◌ quot clampi openings per_slot slots
counts_one = refl

first_succeeds : first_claim ≡ done (rounds_of first_claim)
unfolding claim_round claim_found get_round is_round text_eq freeze_counts known_tier tier_by_id
    freeze_pair frozen_pair promote_tier
first_succeeds = refl

second_succeeds : second_claim ≡ done (rounds_of second_claim)
unfolding claim_round claim_found get_round is_round text_eq freeze_counts known_tier tier_by_id
    freeze_pair frozen_pair promote_tier claim_row relegate_tier
second_succeeds = refl

claim_round_resumed_example :
    claim_round exact cfg (pos 1754270000) [] (rounds_of first_claim) (bytes "platinum") (pos 2899)
    ≡ done (rounds_of first_claim)
claim_round_resumed_example =
    claim_round_resumed exact cfg (pos 1754265601) (pos 1754270000) (player (bytes "platinum") ∷ [])
      [] rounds (rounds_of first_claim) (bytes "platinum") (pos 2899) first_succeeds

found_platinum : get_round rounds (bytes "platinum") (pos 2899) ≡ some (round_of (bytes "platinum"))
unfolding get_round is_round text_eq
found_platinum = refl

last_platinum :
    round_ending_at rounds (bytes "platinum") (pos 1754265600) ≡ some (round_of (bytes "platinum"))
unfolding round_ending_at text_eq
last_platinum = refl

found_challenger :
    get_round rounds (bytes "challenger") (pos 2899) ≡ some (round_of (bytes "challenger"))
unfolding get_round is_round text_eq
found_challenger = refl

tier_platinum :
    tier_by_id cfg (bytes "platinum") ≡ some (record platinum { up_mode = bytes "openings" })
unfolding tier_by_id text_eq
tier_platinum = refl

tier_challenger : tier_by_id cfg (bytes "challenger") ≡ some challenger
unfolding tier_by_id text_eq
tier_challenger = refl

pair_platinum :
    frozen_pair cfg (record platinum { up_mode = bytes "openings" })
    ≡ some (bytes "platinum", bytes "challenger")
unfolding frozen_pair text_eq promote_tier
pair_platinum = refl

pair_challenger : frozen_pair cfg challenger ≡ some (bytes "platinum", bytes "challenger")
unfolding frozen_pair text_eq relegate_tier
pair_challenger = refl

tiers_differ : bytes "platinum" ≢ bytes "challenger"
tiers_differ e = cc

siblings_agree_example :
    (x : Round) × (y : Round) × (get_round (rounds_of second_claim) (bytes "platinum") (pos 2899)
      ≡ some x)
    × (get_round (rounds_of second_claim) (bytes "challenger") (pos 2899) ≡ some y)
    × (x.below_players ≡ y.below_players)
    × (x.members_in_tier ≡ y.members_in_tier)
siblings_agree_example =
    siblings_agree exact cfg (pos 1754265601) (pos 1754265602) (player (bytes "platinum") ∷ [])
      (player (bytes "challenger") ∷ []) rounds (rounds_of first_claim) (rounds_of second_claim)
      (round_of (bytes "platinum")) (round_of (bytes "challenger"))
      (record platinum { up_mode = bytes "openings" }) challenger (bytes "platinum")
      (bytes "challenger") found_platinum last_platinum found_challenger refl refl refl tiers_differ
      tier_platinum tier_challenger pair_platinum pair_challenger tiers_differ first_succeeds
      second_succeeds
