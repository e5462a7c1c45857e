-- ===== src/Tests/Friendships.antt =====
-- A player adds a friend by a code in lower case, with spaces around it.
use queens.Round.{
  floor_div, quot, rem, round_index, week_index, week_start, week_end, round_start, round_end,
}
use queens.GroupTable.{get_member, is_entry}
use queens.League.{
  tier_by_id, tier_in, decode_round_days, default_tier, with_defaults, load_league_config, index_in,
  tier_index, bottom_tier, top_tier, promote_tier, relegate_tier, promo_score_of, reaches_promo,
  outcome_for_zone, inactive_outcome, apply,
}
use queens.Anomaly.{anomaly_row, decay_anomaly, flag, flag_found, read_anomaly}
use queens.Prelude.{◌≡◌, refl, [], ◌∷◌, arith}
use queens.Prelude.Runes.{trim_space, trim_right, trim_left}
use queens.Prelude.Fallible.{Fallible, done}
use queens.Prelude.Int.{pos, ◌-ℤ◌}
use queens.Prelude.Text.{Text, bytes, text_eq, text_lt}
use queens.Float.Exact.{exact}
use queens.Absence.{
  known_tier, walk_down, has_key, insert_summary, set_tier, tier_after_absence, move_absent,
  settle_missed, settle_absence,
}
use queens.Transaction.{ApiError, in_tx, in_tx_from, retried, run_tx}
use queens.Friends.{
  Network, Profile, FriendRow, friend_row, scored, count_links, add_friend, remove_friend,
  is_friend_code, canonical, code_tail, add_scored, add_in_tx, add_as, get_profile, link_to,
  get_by_friend_code, add_link, bump, has_link, is_link, link_added, probe_count, reject_unknown,
  signal_probing, remove_links, friend_rows_of, friends, remove_in_tx,
}
use queens.Friends.Limit.{IsBounded, add_friend-IsBounded}
use queens.Friends.Undone.{remove_friend-add_friend}
use queens.Tests.Data.{config}

abbrev profile : Text → Text → Profile
profile id code = record {
  row = record {
    id = id;
    tier = bytes "bronze";
    tier_points = pos 120;
    tier_since = pos 0;
    settled_round_end = pos 0;
    updated_at = pos 0;
  };
  nickname = id;
  friend_code = code;
}

abbrev strangers : Network exact
strangers = record {
  profiles =
      profile (bytes "anna") (bytes "QN-ABCDEF") ∷ profile (bytes "ben") (bytes "QN-GHI234") ∷ [];
  links = [];
  entries = [];
  signals = record { flags = []; scores = [] };
  probes = [];
}

abbrev asked : Network exact × Fallible ApiError FriendRow
asked = add_friend exact config (pos 1753660999) strangers (bytes "anna") (bytes " qn-ghi234 ")

-- The friend with the points of the bronze tier, which has no rounds.
abbrev ben : FriendRow
ben = record (friend_row (profile (bytes "ben") (bytes "QN-GHI234")) (pos 1753660999)) {
  round_score = pos 120;
}

added : asked ≡ (asked.0, done ben)
unfolding add_friend is_friend_code text_eq canonical trim_space trim_right trim_left code_tail
    add_scored in_tx in_tx_from retried run_tx add_in_tx add_as get_profile link_to
    get_by_friend_code known_tier anomaly_row decay_anomaly flag flag_found read_anomaly add_link
    bump count_links has_link is_link link_added probe_count reject_unknown scored signal_probing
    tier_by_id tier_in get_member is_entry ◌-ℤ◌ floor_div quot rem round_index remove_links
    friend_rows_of friends remove_in_tx remove_friend decode_round_days default_tier with_defaults
    load_league_config index_in tier_index bottom_tier top_tier promote_tier relegate_tier
    promo_score_of reaches_promo outcome_for_zone inactive_outcome apply week_index week_start
    week_end round_start round_end walk_down has_key insert_summary set_tier tier_after_absence
    move_absent settle_missed settle_absence text_lt
added = refl

strangers-IsBounded : IsBounded strangers
unfolding count_links
strangers-IsBounded id = omega arith

add_friend-IsBounded_example : IsBounded asked.0
add_friend-IsBounded_example =
    add_friend-IsBounded exact config (pos 1753660999) strangers (bytes "anna")
      (bytes " qn-ghi234 ") strangers-IsBounded

remove_friend-add_friend_example :
    remove_friend exact asked.0 (bytes "anna") (bytes "ben") ≡ (strangers, done tt)
remove_friend-add_friend_example =
    remove_friend-add_friend exact config (pos 1753660999) strangers asked.0 (bytes "anna")
      (bytes " qn-ghi234 ") ben added
