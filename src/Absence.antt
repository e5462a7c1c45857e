-- ===== src/Absence.antt =====
-- server/internal/service/league.go: the second step of `catchUp`, which settles the rounds that a
-- player was absent for, with the store operations that it calls (store/sqlite: `SetTier`,
-- `InsertSummary`). Of a player and of a summary the columns that this code reads or writes.
pub mod Rounds
pub mod Settled
use queens.Prelude.{
  ℕ, zero, suc, ◌+◌, ◌-◌, ◌*◌, ◌/◌, ◌%◌, ◌^◌, ◌≤◌, ◌<◌, min, max, ◌≡◌, refl, sym, ap, ap₂, subst,
  ◌∙◌, ◌≢◌, ◌↔◌, ◌⊎◌, inl, inr, Bool, true, false, not, ◌&&◌, ◌||◌, Option, none, some, List, [],
  ◌∷◌, ◌++◌, map, arith, dec_lt, ℕ_discrete, ltb, leb, ◌==◌, if◌then◌else◌, ltb→lt, lt→ltb, leb→le,
  ==_iff, Bool-cases, Option-cases, length, get_elem?, set, length-append, length-set, get_or, take,
  drop, replicate, length-take, length-drop, length-replicate, length-map, take-append-drop, All,
  sum, some-eq,
}
use queens.Prelude.Fallible.{Fallible, fail, done, ◌>>=◌, ◌>>◌}
use queens.Prelude.Int.{ℤ, pos, pos_part, leb_ℤ, ltb_ℤ, ◌-ℤ◌}
use queens.Prelude.Text.{Text, bytes, text_eq}
use queens.League.{
  Tier, LeagueConfig, Outcome, promoted, stayed, relegated, inactive_frozen, inactive_relegated,
  inactive_outcome, relegate_tier, tier_by_id,
}
use queens.Round.{round_index, round_start}
use queens.Group.{eqb_ℤ}

pub record Player : Type 0 where
  pub id : Text
  pub tier : Text
  pub tier_points : ℤ
  pub tier_since : ℤ
  pub settled_round_end : ℤ
  pub updated_at : ℤ

pub record Summary : Type 0 where
  pub player_id : Text
  pub tier_before : Text
  pub round_index : ℤ
  pub tier_after : Text
  pub outcome : Outcome
  pub reason : Text
  pub rank : ℕ
  pub group_size : ℕ
  pub round_score : ℕ
  pub tier_points : ℤ
  pub created_at : ℤ

pub data LeagueError : Type 0 where
  unknown_tier : Text → LeagueError
  unknown_player : Text → LeagueError
  retry : LeagueError
  -- `ErrNotFound`
  not_found : LeagueError
  -- A row that the schema does not allow.
  conflict : LeagueError

-- `Service.tier`
unfoldable pub known_tier : LeagueConfig → Text → Fallible LeagueError Tier
known_tier cfg id = elim (tier_by_id cfg id) [ none ↦ fail (unknown_tier id) | some t ↦ done t ]

abbrev pub is_inactive_relegated : Outcome → Bool
is_inactive_relegated promoted = false
is_inactive_relegated stayed = false
is_inactive_relegated relegated = false
is_inactive_relegated inactive_frozen = false
is_inactive_relegated inactive_relegated = true

-- The loop over the missed rounds; `left` is `len(s.League.Tiers) - steps`.
unfoldable pub walk_down : LeagueConfig → ℕ → ℕ → Tier → Fallible LeagueError Tier
walk_down cfg zero missed cur = done cur
walk_down cfg (suc left) zero cur = done cur
walk_down cfg (suc left) (suc missed) cur =
    let next = relegate_tier cfg cur.id in
    let go_on = known_tier cfg next >>= λ t. walk_down cfg left missed t in
    if not (is_inactive_relegated (inactive_outcome cur))
    then done cur
    else if text_eq next cur.id
    then done cur
    else go_on

-- The unique key of the table of summaries.
abbrev same_key : Summary → Summary → Bool
same_key a b =
    text_eq a.player_id b.player_id
    && (text_eq a.tier_before b.tier_before
        && (eqb_ℤ a.round_index b.round_index && text_eq a.reason b.reason))

unfoldable pub has_key : List Summary → Summary → Bool
has_key [] s = false
has_key (t ∷ ts) s = same_key t s || has_key ts s

-- `InsertSummary`: nothing happens where the key exists.
unfoldable pub insert_summary : List Summary → Summary → List Summary × Bool
insert_summary ss s = if has_key ss s then (ss, false) else (s ∷ ss, true)

-- `SetTier` on the row of the player; `none` where the row is not in the tier `from`.
unfoldable pub set_tier : Player → Text → Text → ℤ → ℤ → Option Player
set_tier p from to since settled =
    if not (text_eq p.tier from)
    then none
    else if text_eq from to
    then some (record p { settled_round_end = settled; updated_at = since })
    else some (record p {
      tier = to;
      tier_points = pos 0;
      tier_since = since;
      settled_round_end = settled;
      updated_at = since;
    })

abbrev pub reason_round : Text
reason_round = bytes "round"

-- The tier after `missed` rounds.
unfoldable pub tier_after_absence : LeagueConfig → Tier → ℕ → Fallible LeagueError Tier
tier_after_absence cfg tier missed =
    let walked = walk_down cfg (length cfg.tiers) missed tier in
    if is_inactive_relegated (inactive_outcome tier) then walked else done tier

-- The summary of an absence of `p`, from the tier `before` to `cur`.
abbrev pub absence_summary : ℤ → Player → Tier → Tier → Tier → Summary
absence_summary now p tier before cur = record {
  player_id = p.id;
  tier_before = p.tier;
  round_index = round_index before now -ℤ pos 1;
  tier_after = cur.id;
  outcome = inactive_outcome tier;
  reason = reason_round;
  rank = 0;
  group_size = 0;
  round_score = 0;
  tier_points = p.tier_points;
  created_at = now;
}

-- The move of `p` to the tier `after`, settled up to the start of its current round; `summaries` are
-- those with the one of the absence.
unfoldable pub move_absent :
    ℤ → Player → List Summary → Tier → Text → Fallible LeagueError (Player × List Summary)
move_absent now p summaries after to =
    elim (set_tier p p.tier to now (round_start after (round_index after now))) [
      | none ↦ fail retry
      | some q ↦ done (q, summaries)
    ]

-- The summary and the move, where rounds were missed.
unfoldable pub settle_missed :
    LeagueConfig
    → ℤ
    → Player
    → List Summary
    → Tier
    → ℕ
    → Fallible LeagueError (Player × List Summary)
settle_missed cfg now p ss tier missed = do
  cur ← tier_after_absence cfg tier missed
  before ← known_tier cfg p.tier
  after ← known_tier cfg cur.id
  move_absent now p (insert_summary ss (absence_summary now p tier before cur)).0 after cur.id

-- `catchUp` from its second step on: the player and the summaries afterwards.
unfoldable pub settle_absence :
    LeagueConfig → ℤ → Player → List Summary → Fallible LeagueError (Player × List Summary)
settle_absence cfg now p ss = do
  tier ← known_tier cfg p.tier
  let missed = round_index tier now -ℤ round_index tier p.settled_round_end
  if leb_ℤ missed (pos 0) then done (p, ss) else settle_missed cfg now p ss tier (pos_part missed)
