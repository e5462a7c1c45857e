-- ===== src/Membership.antt =====
-- server/internal/service/league.go: `ensureMembership`, which seats a player in a group of the running
-- round, over the tables of GroupTable.
pub mod Seats
pub mod Counters
pub mod Joined
use queens.Prelude.{
  ℕ, zero, suc, ◌+◌, ◌-◌, ◌*◌, ◌/◌, ◌%◌, ◌^◌, ◌≤◌, ◌<◌, min, max, ◌≡◌, refl, sym, ap, ap₂, subst,
  ◌∙◌, ◌≢◌, ◌↔◌, ◌⊎◌, inl, inr, Bool, true, false, not, ◌&&◌, ◌||◌, Option, none, some, List, [],
  ◌∷◌, ◌++◌, map, arith, dec_lt, ℕ_discrete, ltb, leb, ◌==◌, if◌then◌else◌, ltb→lt, lt→ltb, leb→le,
  ==_iff, Bool-cases, Option-cases, length, get_elem?, set, length-append, length-set, get_or, take,
  drop, replicate, length-take, length-drop, length-replicate, length-map, take-append-drop, All,
  sum, some-eq, if_true, if_false, and_false_left, and_false_right, and_true,
}
use queens.Prelude.Decimal.{decimal_ℤ, decimal_3}
use queens.Prelude.Fallible.{Fallible, fail, done, ◌>>=◌}
use queens.Prelude.Int.{ℤ, pos, ltb_ℤ}
use queens.Prelude.Sort.{sort_by}
use queens.Prelude.Text.{Text, bytes, text_eq, text_lt}
use queens.League.{Tier, LeagueConfig, is_empty}
use queens.Group.{eqb_ℤ}
use queens.Absence.{LeagueError, not_found, conflict}
use queens.Float.{Float64}
use queens.Anomaly.{Signals, refresh_exclusion}
use queens.Freeze.{Round, next_group_seq}
use queens.GroupTable.{
  GroupRow, MemberEntry, RoundsPlayed, FriendLink, Tables, eqb_bool, get_group, is_entry,
  get_member, room_for, has_room, below_capacity, fuller, fuller_of, in_round, find_open_group,
  linked, is_none, holds_friend, has_seat, offers_seat, friend_rows, friend_groups, grown, grow_row,
  inc_found, inc_group_count, played_row, create_group,
}

-- The id of the group with the number `seq`.
abbrev group_name : Text → ℤ → ℕ → Text
group_name tier idx seq =
    bytes "lg_" ++ tier ++ bytes "_" ++ decimal_ℤ idx ++ bytes "_" ++ decimal_3 seq

-- The group that a seat was taken in, with the groups afterwards; `none` when none was.
abbrev pub taken : Text → List GroupRow × Bool → List GroupRow × Option Text
taken id (gs, true) = (gs, some id)
taken id (gs, false) = (gs, none)

-- `candidate`; a global tier has none.
unfoldable pub candidate_of : LeagueConfig → Tables → Text → Tier → ℤ → Bool → Text → Option Text
candidate_of cfg st player t idx quarantine prefer =
    let friendly =
      elim (friend_groups st player t.id idx quarantine cfg.group_max) as (λ _. Option Text) [
        | [] ↦ none
        | g ∷ gs ↦ some g.id
      ] in
    if t.global then none else if is_empty prefer then friendly else some prefer

unfoldable pub take_candidate :
    LeagueConfig → List GroupRow → Option Text → List GroupRow × Option Text
take_candidate cfg gs none = (gs, none)
take_candidate cfg gs (some id) = taken id (inc_group_count gs id cfg.group_max)

unfoldable pub take_found :
    LeagueConfig → List GroupRow → Option GroupRow → List GroupRow × Option Text
take_found cfg gs none = (gs, none)
take_found cfg gs (some g) = taken g.id (inc_group_count gs g.id cfg.group_size)

-- The fullest open group, when no group was taken before.
unfoldable pub take_open :
    LeagueConfig → Text → ℤ → Bool → List GroupRow × Option Text → List GroupRow × Option Text
take_open cfg tier idx quarantine (gs, some id) = (gs, some id)
take_open cfg tier idx quarantine (gs, none) =
    take_found cfg gs (find_open_group gs tier idx quarantine)

abbrev pub new_group : LeagueConfig → Tier → ℤ → Bool → ℤ → ℕ → GroupRow
new_group cfg t idx quarantine now seq = record {
  id = group_name t.id idx seq;
  tier = t.id;
  round_index = idx;
  quarantine = quarantine;
  capacity = if t.global then none else some cfg.group_size;
  member_count = 1;
  group_open = true;
  created_at = now;
}

abbrev pub new_entry : Text → Text → ℤ → Text → ℤ → MemberEntry
new_entry player tier idx group now = record {
  player_id = player;
  tier = tier;
  round_index = idx;
  group_id = group;
  round_score = 0;
  games = 0;
  last_submit_at = pos 0;
  left_at = none;
  joined_at = now;
}

-- `InsertMember`, `IncRoundsPlayed` and the member that is read back.
unfoldable pub seat : Tables → Text → Text → ℤ → Text → ℤ → Tables × MemberEntry
seat st player tier idx group now =
    let e = new_entry player tier idx group now in
    (record st { entries = e ∷ st.entries; played = map (played_row player) st.played }, e)

-- The end of the join: a new group, when none was taken.
unfoldable pub seat_in :
    LeagueConfig
    → Tables
    → Text
    → Tier
    → ℤ
    → Bool
    → ℤ
    → List GroupRow × Option Text
    → Fallible LeagueError (Tables × MemberEntry)
seat_in cfg st player t idx quarantine now (gs, some id) =
    done (seat (record st { groups = gs }) player t.id idx id now)
seat_in cfg st player t idx quarantine now (gs, none) =
    next_group_seq st.rounds t.id idx >>= λ numbered.
    let g = new_group cfg t idx quarantine now numbered.1 in
    create_group gs g >>= λ groups.
    done (seat (record st { rounds = numbered.0; groups = groups }) player t.id idx g.id now)

-- `ensureMembership` after the exclusion was refreshed, where the player is no member yet.
unfoldable pub join_round :
    LeagueConfig
    → Tables
    → Text
    → Tier
    → ℤ
    → Bool
    → Text
    → ℤ
    → Fallible LeagueError (Tables × MemberEntry)
join_round cfg st player t idx quarantine prefer now = seat_in cfg st player t idx quarantine now (
    take_open cfg t.id idx quarantine
      (take_candidate cfg st.groups (candidate_of cfg st player t idx quarantine prefer)))

-- What `ensureMembership` returns, with the state it leaves.
pub record Joining (fl : Float64) : Type 0 where
  pub signals : Signals fl
  pub tables : Tables
  pub entry : MemberEntry
  pub created : Bool

module _ (fl : Float64) (cfg : LeagueConfig) where
  -- `player` with the flag `excluded`.
  unfoldable pub ensure_found :
      Signals fl
      → Tables
      → Text
      → Bool
      → Tier
      → ℤ
      → Text
      → ℤ
      → Option MemberEntry
      → Fallible LeagueError (Joining fl)
  ensure_found sg st player excluded t idx prefer now (some e) =
      done (record { signals = sg; tables = st; entry = e; created = false })
  ensure_found sg st player excluded t idx prefer now none =
      refresh_exclusion fl now player excluded sg >>= λ refreshed.
      join_round cfg st player t idx refreshed.1 prefer now >>= λ joined.
      done (record { signals = refreshed.0; tables = joined.0; entry = joined.1; created = true })

  unfoldable pub ensure_membership :
      Signals fl → Tables → Text → Bool → Tier → ℤ → Text → ℤ → Fallible LeagueError (Joining fl)
  ensure_membership sg st player excluded t idx prefer now =
      ensure_found sg st player excluded t idx prefer now (get_member st.entries player t.id idx)
