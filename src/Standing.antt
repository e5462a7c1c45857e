-- ===== src/Standing.antt =====
-- Where a member stands in a global group right now: `placeMember` of server/internal/service/league.go
-- for a global tier, `zoneFor` of service/standing.go, and the queries of
-- server/internal/store/sqlite/league.go that rank in SQL. SQL compares player ids bytewise.
pub mod Rank
pub mod Promoted
pub mod Placement
use queens.Prelude.{
  ℕ, zero, suc, ◌+◌, ◌-◌, ◌*◌, ◌/◌, ◌%◌, ◌^◌, ◌≤◌, ◌<◌, min, max, ◌≡◌, refl, sym, ap, ap₂, subst,
  ◌∙◌, ◌≢◌, ◌↔◌, ◌⊎◌, inl, inr, Bool, true, false, not, ◌&&◌, ◌||◌, Option, none, some, List, [],
  ◌∷◌, ◌++◌, map, arith, dec_lt, ℕ_discrete, ltb, leb, ◌==◌, if◌then◌else◌, ltb→lt, lt→ltb, leb→le,
  ==_iff, Bool-cases, Option-cases, length, get_elem?, set, length-append, length-set, get_or, take,
  drop, replicate, length-take, length-drop, length-replicate, length-map, take-append-drop, All,
  sum, some-eq,
}
use queens.Prelude.Int.{ℤ, pos, pos_part, leb_ℤ, ltb_ℤ, ◌-ℤ◌}
use queens.Prelude.Text.{text_lt, text_eq}
use queens.Float.{Float64}
use queens.League.{Tier, LeagueConfig, Zone, promote, safe, relegate}
use queens.Group.{Member, CountsResult, eqb_ℤ, counts, sort_members}

-- `SELECT COUNT(*)` of the rows that satisfy a condition.
unfoldable pub count_if : (Member → Bool) → List Member → ℕ
count_if f [] = 0
count_if f (m ∷ ms) = (if f m then 1 else 0) + count_if f ms

-- The condition of `MemberRank`: `x` stands before `m`.
unfoldable pub stands_before : Member → Member → Bool
stands_before x m =
    ltb m.round_score x.round_score
    || (x.round_score == m.round_score && ltb x.games m.games
        || (x.round_score == m.round_score
              && (x.games == m.games && ltb_ℤ x.last_submit_at m.last_submit_at)
            || (x.round_score == m.round_score
                && (x.games == m.games
                    && (eqb_ℤ x.last_submit_at m.last_submit_at
                        && text_lt x.player_id m.player_id)))))

unfoldable pub member_rank : List Member → Member → ℕ
member_rank ms m = count_if (λ x. stands_before x m) ms + 1

-- `COALESCE(MAX(round_score), 0)`
unfoldable pub group_leader_score : List Member → ℕ
group_leader_score [] = 0
group_leader_score (m ∷ ms) = max m.round_score (group_leader_score ms)

abbrev pub has_scored : Member → Bool
has_scored m = ltb 0 m.round_score

unfoldable pub group_promote_count : List Member → ℤ → ℕ
group_promote_count ms up =
    if leb_ℤ up (pos 0) then 0 else count_if has_scored (take (pos_part up) (sort_members ms))

unfoldable pub zone_for : ℕ → ℕ → ℕ → CountsResult → Zone
zone_for rank round_score n c =
    if leb_ℤ (pos rank) c.up && ltb 0 round_score
    then promote
    else if ltb_ℤ (pos n -ℤ c.down) (pos rank)
    then relegate
    else safe

pub record Place : Type 0 where
  pub rank : ℕ
  pub size : ℕ
  pub zone : Zone
  pub promote_count : ℕ
  pub relegate_count : ℤ

-- The branch of `placeMember` for a global tier, without the window of members; `ms` are the rows of the
-- group and `member_count` is its stored size.
unfoldable pub place_global : Float64 → List Member → ℕ → Tier → LeagueConfig → Member → ℤ → Place
place_global fl ms member_count t cfg me up_count =
    let c = counts fl member_count t cfg (group_leader_score ms) up_count in
    let rank = member_rank ms me in
    record {
      rank = rank;
      size = member_count;
      zone = zone_for rank me.round_score member_count c;
      promote_count = group_promote_count ms c.up;
      relegate_count = c.down;
    }
