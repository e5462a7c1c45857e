-- ===== src/Closing.antt =====
-- server/internal/service/league.go: `closeGroup`, which settles the members of a group at the end of a
-- round, with the store operations that it calls (store/sqlite: `ClaimGroupClose`, `SetMemberOutcome`,
-- `InsertSummary`, `SetTier`). The best game that a summary shows is left out.
pub mod Rows
pub mod Once
use queens.Prelude.{
  ℕ, zero, suc, ◌+◌, ◌-◌, ◌*◌, ◌/◌, ◌%◌, ◌^◌, ◌≤◌, ◌<◌, min, max, ◌≡◌, refl, sym, ap, ap₂, subst,
  ◌∙◌, ◌≢◌, ◌↔◌, ◌⊎◌, inl, inr, Bool, true, false, not, ◌&&◌, ◌||◌, Option, none, some, List, [],
  ◌∷◌, ◌++◌, map, arith, dec_lt, ℕ_discrete, ltb, leb, ◌==◌, if◌then◌else◌, ltb→lt, lt→ltb, leb→le,
  ==_iff, Bool-cases, Option-cases, length, get_elem?, set, length-append, length-set, get_or, take,
  drop, replicate, length-take, length-drop, length-replicate, length-map, take-append-drop, All,
  sum, some-eq,
}
use queens.Prelude.Fallible.{Fallible, fail, done, ◌>>=◌}
use queens.Prelude.Int.{ℤ, pos}
use queens.Prelude.Text.{Text, text_eq}
use queens.League.{LeagueConfig, Zone, safe, Outcome, outcome_for_zone, apply, is_zero, Tier}
use queens.Round.{round_index, round_start}
use queens.Group.{Member, Evaluation}
use queens.Absence.{
  Player, Summary, LeagueError, unknown_player, known_tier, insert_summary, set_tier, reason_round,
}

-- What the closing writes to a row of `league_members`.
pub record MemberRow : Type 0 where
  pub player_id : Text
  pub final_rank : ℕ
  pub zone : Option Zone
  pub outcome : Option Outcome

pub record LeagueStore : Type 0 where
  pub players : List Player
  pub summaries : List Summary
  -- The rows of the round.
  pub members : List MemberRow
  -- Whether the group is open.
  pub group_open : Bool

-- The round that is closed, of the tier `tier`.
pub record RoundRow : Type 0 where
  pub tier : Text
  pub round_index : ℤ
  pub ends_at : ℤ

unfoldable pub get_player : List Player → Text → Option Player
get_player [] id = none
get_player (p ∷ ps) id = if text_eq p.id id then some p else get_player ps id

-- A row as `SetTier` leaves it.
unfoldable pub moved_row : Player → Text → Text → ℤ → ℤ → Player
moved_row p from to since settled = elim (set_tier p from to since settled) [
  | none ↦ p
  | some q ↦ q
]

-- `SetTier` as an `UPDATE` of the table.
unfoldable pub update_tier : List Player → Text → Text → Text → ℤ → ℤ → List Player
update_tier [] id from to since settled = []
update_tier (p ∷ ps) id from to since settled =
    (if text_eq p.id id then moved_row p from to since settled else p)
    ∷ update_tier ps id from to since settled

unfoldable pub set_member_outcome : List MemberRow → Text → ℕ → Zone → Outcome → List MemberRow
set_member_outcome [] id rank z o = []
set_member_outcome (r ∷ rs) id rank z o =
    (if text_eq r.player_id id
      then record r { final_rank = rank; zone = some z; outcome = some o }
      else r)
    ∷ set_member_outcome rs id rank z o

-- An evaluated member has a zone.
abbrev pub zone_of : Member → Zone
zone_of m = elim m.zone [ none ↦ safe | some z ↦ z ]

abbrev pub round_summary : LeagueConfig → RoundRow → ℕ → ℤ → Member → Player → Summary
round_summary cfg round size now m p = record {
  player_id = m.player_id;
  tier_before = round.tier;
  round_index = round.round_index;
  tier_after = apply cfg round.tier (outcome_for_zone (zone_of m));
  outcome = outcome_for_zone (zone_of m);
  reason = reason_round;
  rank = m.rank;
  group_size = size;
  round_score = m.round_score;
  tier_points = p.tier_points;
  created_at = now;
}

-- The summary and the move of a member whose row is `p`: the summary gates the move.
unfoldable pub settle_player :
    LeagueConfig
    → RoundRow
    → ℕ
    → ℤ
    → Member
    → Player
    → LeagueStore
    → Fallible LeagueError LeagueStore
settle_player cfg round size now m p st =
    let (summaries, inserted) =
      insert_summary st.summaries (round_summary cfg round size now m p) in
    let after = apply cfg round.tier (outcome_for_zone (zone_of m)) in
    if not inserted
    then done st
    else known_tier cfg after >>= λ t.
        let settled = round_start t (queens.Round.round_index t round.ends_at) in
        done (record st {
          summaries = summaries;
          players = update_tier st.players m.player_id round.tier after round.ends_at settled;
        })

-- The body of the loop over the members.
unfoldable pub settle_member :
    LeagueConfig → RoundRow → ℕ → ℤ → Member → LeagueStore → Fallible LeagueError LeagueStore
settle_member cfg round size now m st =
    let rows =
      set_member_outcome st.members m.player_id m.rank (zone_of m) (outcome_for_zone (zone_of m)) in
    let marked = record st { members = rows } in
    if m.bot
    then done st
    else if not (is_zero m.left_at)
    then done marked
    else elim (get_player st.players m.player_id) [
      | none ↦ fail (unknown_player m.player_id)
      | some p ↦ settle_player cfg round size now m p marked
    ]

unfoldable pub settle_members :
    LeagueConfig → RoundRow → ℕ → ℤ → List Member → LeagueStore → Fallible LeagueError LeagueStore
settle_members cfg round size now [] st = done st
settle_members cfg round size now (m ∷ ms) st =
    settle_member cfg round size now m st >>= λ st'. settle_members cfg round size now ms st'

-- `closeGroup`: the claim first, then every member of the evaluation.
unfoldable pub close_group :
    LeagueConfig → RoundRow → ℤ → Evaluation → LeagueStore → Fallible LeagueError LeagueStore
close_group cfg round now ev st =
    if not st.group_open
    then done st
    else settle_members cfg round (length ev.members) now ev.members
        (record st { group_open = false })
