-- ===== src/Freeze.antt =====
-- server/internal/service/league.go: `claimRound` and `freezeCounts`, which take the ownership of a
-- closing and fix the population counts, with the table of rounds (store/sqlite/league.go:
-- `EnsureRound`, `GetRound`, `DueRounds`, `RoundEndingAt`, `ClaimRound`, `FinishRound`,
-- `NextGroupSeq`; store/sqlite/players.go: `CountByTier`).
pub mod Rows
pub mod Claim
pub mod Siblings
use queens.Prelude.{
  ℕ, zero, suc, ◌+◌, ◌-◌, ◌*◌, ◌/◌, ◌%◌, ◌^◌, ◌≤◌, ◌<◌, min, max, ◌≡◌, refl, sym, ap, ap₂, subst,
  ◌∙◌, ◌≢◌, ◌↔◌, ◌⊎◌, inl, inr, Bool, true, false, not, ◌&&◌, ◌||◌, Option, none, some, List, [],
  ◌∷◌, ◌++◌, map, arith, dec_lt, ℕ_discrete, ltb, leb, ◌==◌, if◌then◌else◌, ltb→lt, lt→ltb, leb→le,
  ==_iff, Bool-cases, Option-cases, length, get_elem?, set, length-append, length-set, get_or, take,
  drop, replicate, length-take, length-drop, length-replicate, length-map, take-append-drop, All,
  sum, some-eq,
}
use queens.Prelude.Fallible.{Fallible, fail, done, ◌>>=◌}
use queens.Prelude.Int.{ℤ, pos, negsuc, leb_ℤ, ltb_ℤ}
use queens.Prelude.Sort.{sort_by}
use queens.Prelude.Text.{Text, text_eq, text_lt}
use queens.Float.{Float64}
use queens.League.{
  Tier, LeagueConfig, is_empty, up_mode_openings, is_capped, promote_tier, relegate_tier,
}
use queens.Group.{eqb_ℤ}
use queens.Slots.{openings}
use queens.Absence.{Player, LeagueError, not_found, known_tier}

pub data RoundState : Type 0 where
  round_open round_closing round_closed : RoundState

pub record Round : Type 0 where
  pub tier : Text
  pub round_index : ℤ
  pub starts_at : ℤ
  pub ends_at : ℤ
  pub state : RoundState
  pub group_seq : ℕ
  pub up_count : Option ℤ
  pub below_players : Option ℕ
  pub members_in_tier : Option ℕ
  pub closing_started_at : Option ℤ
  pub closed_at : Option ℤ
  pub created_at : ℤ

pub record FrozenCounts : Type 0 where
  pub up_count : Option ℤ
  pub below_players : Option ℕ
  pub members_in_tier : Option ℕ

abbrev pub is_open : RoundState → Bool
is_open round_open = true
is_open round_closing = false
is_open round_closed = false

abbrev pub is_closing : RoundState → Bool
is_closing round_open = false
is_closing round_closing = true
is_closing round_closed = false

-- `UpCountOr`: -1 stands for "use the percentage".
abbrev pub up_count_or : Round → ℤ
up_count_or r = elim r.up_count [ none ↦ negsuc 0 | some n ↦ n ]

-- `WHERE tier = ? AND round_index = ?`
unfoldable pub is_round : Text → ℤ → Round → Bool
is_round tier idx r = text_eq r.tier tier && eqb_ℤ r.round_index idx

unfoldable pub get_round : List Round → Text → ℤ → Option Round
get_round [] tier idx = none
get_round (r ∷ rs) tier idx = if is_round tier idx r then some r else get_round rs tier idx

-- `EnsureRound`: nothing happens where the row exists.
unfoldable pub ensure_round_row : List Round → Text → ℤ → ℤ → ℤ → ℤ → List Round
ensure_round_row rs tier idx starts_at ends_at now = elim (get_round rs tier idx) [
  | some r ↦ rs
  | none ↦
      record {
        tier = tier;
        round_index = idx;
        starts_at = starts_at;
        ends_at = ends_at;
        state = round_open;
        group_seq = 0;
        up_count = none;
        below_players = none;
        members_in_tier = none;
        closing_started_at = none;
        closed_at = none;
        created_at = now;
      }
      ∷ rs
]

-- The order of `DueRounds`.
unfoldable pub due_before : Round → Round → Bool
due_before a b =
    if not (eqb_ℤ a.ends_at b.ends_at)
    then ltb_ℤ a.ends_at b.ends_at
    else if not (text_eq a.tier b.tier)
    then text_lt a.tier b.tier
    else ltb_ℤ a.round_index b.round_index

-- The rows of `DueRounds` before they are ordered; an empty `tier` means every tier.
unfoldable pub due_rows : List Round → ℤ → Text → List Round
due_rows [] now tier = []
due_rows (r ∷ rs) now tier =
    let rest = due_rows rs now tier in
    if ((is_open r.state || is_closing r.state) && leb_ℤ r.ends_at now)
      && (is_empty tier || text_eq r.tier tier)
    then r ∷ rest
    else rest

unfoldable pub due_rounds : List Round → ℤ → Text → List Round
due_rounds rs now tier = sort_by due_before (due_rows rs now tier)

-- The row with the higher index, of a row and those after it.
abbrev pub later_round : Round → Option Round → Round
later_round r none = r
later_round r (some q) = if ltb_ℤ r.round_index q.round_index then q else r

unfoldable pub round_ending_at : List Round → Text → ℤ → Option Round
round_ending_at [] tier ends_at = none
round_ending_at (r ∷ rs) tier ends_at =
    let rest = round_ending_at rs tier ends_at in
    if text_eq r.tier tier && eqb_ℤ r.ends_at ends_at then some (later_round r rest) else rest

abbrev pub claimed_row : ℤ → FrozenCounts → Round → Round
claimed_row now f r = record r {
  state = round_closing;
  closing_started_at = some now;
  up_count = f.up_count;
  below_players = f.below_players;
  members_in_tier = f.members_in_tier;
}

-- `ClaimRound` as an `UPDATE` of the table.
unfoldable pub claim_row : Text → ℤ → ℤ → FrozenCounts → Round → Round
claim_row tier idx now f r =
    if is_round tier idx r && is_open r.state then claimed_row now f r else r

abbrev pub claim_rows : List Round → Text → ℤ → ℤ → FrozenCounts → List Round
claim_rows rs tier idx now f = map (claim_row tier idx now f) rs

abbrev pub finished_row : ℤ → Round → Round
finished_row now r = record r { state = round_closed; closed_at = some now }

-- `FinishRound`
unfoldable pub finish_row : Text → ℤ → ℤ → Round → Round
finish_row tier idx now r =
    if is_round tier idx r && is_closing r.state then finished_row now r else r

abbrev pub finish_rows : List Round → Text → ℤ → ℤ → List Round
finish_rows rs tier idx now = map (finish_row tier idx now) rs

-- `NextGroupSeq`: the update, and the number that is read back.
unfoldable pub next_seq_row : Text → ℤ → Round → Round
next_seq_row tier idx r =
    if is_round tier idx r then record r { group_seq = suc r.group_seq } else r

unfoldable pub next_group_seq : List Round → Text → ℤ → Fallible LeagueError (List Round × ℕ)
next_group_seq rs tier idx =
    let after = map (next_seq_row tier idx) rs in
    elim (get_round after tier idx) [ none ↦ fail not_found | some r ↦ done (after, r.group_seq) ]

unfoldable pub count_by_tier : List Player → Text → ℕ
count_by_tier [] tier = 0
count_by_tier (p ∷ ps) tier =
    if text_eq p.tier tier then suc (count_by_tier ps tier) else count_by_tier ps tier

-- The `switch` of `freezeCounts`: the tier below and the capped tier.
unfoldable pub frozen_pair : LeagueConfig → Tier → Option (Text × Text)
frozen_pair cfg t =
    if text_eq t.up_mode up_mode_openings
    then some (t.id, promote_tier cfg t.id)
    else if is_capped t
    then some (relegate_tier cfg t.id, t.id)
    else none

abbrev pub both : Option ℕ → Option ℕ → Option (ℕ × ℕ)
both none m = none
both (some b) none = none
both (some b) (some m) = some (b, m)

-- The counts that a sibling round has frozen.
unfoldable pub sibling_counts : Option Round → Option (ℕ × ℕ)
sibling_counts none = none
sibling_counts (some sib) =
    if is_open sib.state then none else both sib.below_players sib.members_in_tier

abbrev pub counts_or : Option (ℕ × ℕ) → ℕ × ℕ → ℕ × ℕ
counts_or none c = c
counts_or (some b) c = b

-- The counts of the sibling if it has frozen them, else those of the table of players.
unfoldable pub pair_counts : List Player → Option Round → Text → Text → ℕ × ℕ
pair_counts ps sib below capped =
    counts_or (sibling_counts sib) (count_by_tier ps below, count_by_tier ps capped)

abbrev no_counts : FrozenCounts
no_counts = record { up_count = none; below_players = none; members_in_tier = none }

module _ (fl : Float64) (cfg : LeagueConfig) where
  -- `f` from the two counts.
  unfoldable pub frozen_of : Tier → Tier → ℕ × ℕ → FrozenCounts
  frozen_of t capped_tier (below, members) = record {
    up_count =
        if text_eq t.up_mode up_mode_openings
        then some (openings fl cfg capped_tier below members)
        else none;
    below_players = some below;
    members_in_tier = some members;
  }

  unfoldable pub freeze_pair :
      List Player
      → List Round
      → Round
      → Tier
      → Option (Text × Text)
      → Fallible LeagueError FrozenCounts
  freeze_pair ps rs round t none = done no_counts
  freeze_pair ps rs round t (some (below, capped)) =
      let sibling = if text_eq t.id below then capped else below in
      let sib = round_ending_at rs sibling round.ends_at in
      if text_eq below capped
      then done no_counts
      else (known_tier cfg capped >>= λ c. done (frozen_of t c (pair_counts ps sib below capped)))

  unfoldable pub freeze_counts :
      List Player → List Round → Round → Fallible LeagueError FrozenCounts
  freeze_counts ps rs round =
      known_tier cfg round.tier >>= λ t. freeze_pair ps rs round t (frozen_pair cfg t)

  -- The rest of `claimRound` after the round is read.
  unfoldable pub claim_found :
      ℤ → List Player → List Round → Text → ℤ → Option Round → Fallible LeagueError (List Round)
  claim_found now ps rs tier idx none = fail not_found
  claim_found now ps rs tier idx (some fresh) =
      if is_open fresh.state
      then (freeze_counts ps rs fresh >>= λ f. done (claim_rows rs tier idx now f))
      else done rs

  -- `claimRound` for the round of `tier` with the index `idx`.
  unfoldable pub claim_round :
      ℤ → List Player → List Round → Text → ℤ → Fallible LeagueError (List Round)
  claim_round now ps rs tier idx = claim_found now ps rs tier idx (get_round rs tier idx)
