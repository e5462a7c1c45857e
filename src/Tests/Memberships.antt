-- ===== src/Tests/Memberships.antt =====
-- Two players join the running round of the platinum tier, the first of them in a new group.
use queens.Prelude.Sort.{sort_by, insert_by}
use queens.League.{with_defaults}
use queens.Prelude.{ℕ, ◌≡◌, refl, false, some, [], ◌∷◌, map, arith}
use queens.Prelude.Fallible.{Fallible, done, fail}
use queens.Prelude.Int.{pos, ◌-ℤ◌}
use queens.Prelude.Text.{Text, bytes, text_eq, text_lt}
use queens.Float.Exact.{exact}
use queens.Absence.{LeagueError}
use queens.Anomaly.{
  Signals, refresh_exclusion, anomaly_row, decay_anomaly, read_anomaly, refresh_found,
}
use queens.Freeze.{next_group_seq, get_round, is_round, next_seq_row}
use queens.Membership.{
  Joining, ensure_membership, new_entry, ensure_found, join_round, seat_in, take_open,
  take_candidate, candidate_of, take_found, seat,
}
use queens.GroupTable.{
  Tables, GroupRow, get_member, get_group, friend_groups, friend_rows, find_open_group,
  create_group, fuller, grow_row, holds_friend, inc_found, inc_group_count, is_entry, linked,
  played_row,
}
use queens.Membership.Seats.{Seated}
use queens.Membership.Joined.{ensure_membership-IsJoined}
use queens.Tests.Data.{config, platinum}
use queens.Tests.Freezes.{round_of}

abbrev no_signals : Signals exact
no_signals = record { flags = []; scores = [] }

abbrev no_groups : Tables
no_groups = record {
  rounds = round_of (bytes "platinum") ∷ [];
  groups = [];
  entries = [];
  played = record { player_id = bytes "anna"; rounds_played = 4 } ∷ [];
  friends =
      record { player_id = bytes "ben"; friend_id = bytes "anna"; created_at = pos 1753000000 }
      ∷ [];
}

no_groups-Seated : Seated config no_groups.groups no_groups.entries
unfolding get_group with_defaults
no_groups-Seated = record {
  counted = λ id g h. absurd (cc h);
  known = λ id h. refl;
  bounded = λ id g c h k. absurd (cc h);
}

abbrev joining_of : Fallible LeagueError (Joining exact) → Joining exact
joining_of (fail e) = record {
  signals = no_signals;
  tables = no_groups;
  entry = new_entry [] [] (pos 0) [] (pos 0);
  created = false;
}
joining_of (done j) = j

abbrev join_as : Tables → Text → Fallible LeagueError (Joining exact)
join_as st player =
    ensure_membership exact config no_signals st player false platinum (pos 2899) []
      (pos 1753660999)

abbrev first : Joining exact
first = joining_of (join_as no_groups (bytes "anna"))

abbrev second : Joining exact
second = joining_of (join_as first.tables (bytes "ben"))

first_joins : join_as no_groups (bytes "anna") ≡ done first
unfolding ensure_membership ensure_found get_member refresh_exclusion join_round seat_in take_open
    take_candidate candidate_of friend_groups sort_by friend_rows take_found find_open_group
    next_group_seq get_round is_round anomaly_row decay_anomaly read_anomaly refresh_found
    next_seq_row create_group fuller get_group grow_row holds_friend inc_found inc_group_count
    is_entry linked played_row seat ◌-ℤ◌ insert_by text_eq text_lt
first_joins = refl

second_joins : join_as first.tables (bytes "ben") ≡ done second
unfolding ensure_membership ensure_found get_member refresh_exclusion join_round seat_in take_open
    take_candidate candidate_of friend_groups sort_by friend_rows take_found find_open_group
    next_group_seq get_round is_round anomaly_row decay_anomaly read_anomaly refresh_found
    next_seq_row create_group fuller get_group grow_row holds_friend inc_found inc_group_count
    is_entry linked played_row seat ◌-ℤ◌ insert_by text_eq text_lt with_defaults
second_joins = refl

one_group :
    map {B = Text × ℕ} (λ (g : GroupRow). (g.id, g.member_count)) second.tables.groups
    ≡ (bytes "lg_platinum_2899_002", 2) ∷ []
unfolding ensure_membership ensure_found get_member refresh_exclusion join_round seat_in take_open
    take_candidate candidate_of friend_groups sort_by friend_rows take_found find_open_group
    next_group_seq get_round is_round anomaly_row decay_anomaly read_anomaly refresh_found
    next_seq_row create_group fuller get_group grow_row holds_friend inc_found inc_group_count
    is_entry linked played_row seat ◌-ℤ◌ insert_by text_eq text_lt with_defaults
one_group = refl

first-Seated : Seated config first.tables.groups first.tables.entries
unfolding with_defaults
first-Seated =
    (ensure_membership-IsJoined exact config no_signals no_groups (bytes "anna") false platinum
      (pos 2899) [] (pos 1753660999) first (omega arith) (omega arith) no_groups-Seated
      first_joins).0

ensure_membership-IsJoined_example :
    Seated config second.tables.groups second.tables.entries
    × (get_member second.tables.entries (bytes "ben") (bytes "platinum") (pos 2899)
        ≡ some second.entry)
unfolding with_defaults
ensure_membership-IsJoined_example =
    ensure_membership-IsJoined exact config no_signals first.tables (bytes "ben") false platinum
      (pos 2899) [] (pos 1753660999) second (omega arith) (omega arith) first-Seated second_joins
