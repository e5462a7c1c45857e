-- ===== src/Group.antt =====
-- server/internal/domain/league.go: the members of a league group, their order, and `Counts` and
-- `Evaluate`, which decide who is promoted and who is relegated. A number of members and a score are
-- never negative; the counts that come out of the configuration may be.
pub mod Order
pub mod Counts
pub mod Zones
pub mod Ranks
use queens.Prelude.{
  ℕ, zero, suc, ◌+◌, ◌-◌, ◌*◌, ◌/◌, ◌%◌, ◌^◌, ◌≤◌, ◌<◌, min, max, ◌≡◌, refl, sym, ap, ap₂, subst,
  ◌∙◌, ◌≢◌, ◌↔◌, ◌⊎◌, inl, inr, Bool, true, false, not, ◌&&◌, ◌||◌, Option, none, some, List, [],
  ◌∷◌, ◌++◌, map, arith, dec_lt, ℕ_discrete, ltb, leb, ◌==◌, if◌then◌else◌, ltb→lt, lt→ltb, leb→le,
  ==_iff, Bool-cases, Option-cases, length, get_elem?, set, length-append, length-set, get_or, take,
  drop, replicate, length-take, length-drop, length-replicate, length-map, take-append-drop, All,
  sum,
}
use queens.Prelude.Sort.{sort_by}
use queens.Prelude.Int.{ℤ, pos, negsuc, pos_part, neg_part, leb_ℤ, ltb_ℤ, ◌+ℤ◌, ◌-ℤ◌}
use queens.Prelude.Text.{Text, text_eq, text_lt}
use queens.Float.{Float64}
use queens.League.{Tier, LeagueConfig, Zone, promote, safe, relegate, promo_score_of}

pub record Member : Type 0 where
  pub player_id : Text
  pub nickname : Text
  pub round_score : ℕ
  pub games : ℕ
  pub last_submit_at : ℤ
  pub is_me : Bool
  pub is_friend : Bool
  pub rank : ℕ
  -- `none` until the group is evaluated.
  pub zone : Option Zone
  pub left_at : ℤ
  pub group_id : Text
  -- A synthetic member.
  pub bot : Bool

-- `a != b` of two instants, by their order.
abbrev pub eqb_ℤ : ℤ → ℤ → Bool
eqb_ℤ a b = (pos_part a + neg_part b) == (pos_part b + neg_part a)

-- Higher score, then fewer games, then earlier submit, then player id.
unfoldable pub member_less : Member → Member → Bool
member_less a b =
    if not (a.round_score == b.round_score)
    then ltb b.round_score a.round_score
    else if not (a.games == b.games)
    then ltb a.games b.games
    else if not (eqb_ℤ a.last_submit_at b.last_submit_at)
    then ltb_ℤ a.last_submit_at b.last_submit_at
    else text_lt a.player_id b.player_id

unfoldable pub sort_members : List Member → List Member
sort_members = sort_by member_less

pub record CountsResult : Type 0 where
  pub up : ℤ
  pub down : ℤ

module _ (fl : Float64) where
  -- `int(math.Round(float64(pct) / 100.0 * float64(n)))`
  unfoldable pub percent : ℤ → ℕ → ℤ
  percent pct n = fl.round (fl.mul (fl.div (fl.of_int pct) (fl.lit 100 0)) (fl.of_int (pos n)))

  -- `up_count` of at least 0 replaces the percentage of the tier; -1 means "use the percentage".
  unfoldable pub counts : ℕ → Tier → LeagueConfig → ℕ → ℤ → CountsResult
  counts n t cfg leader_score up_count =
      let by_score = ltb_ℤ (pos 0) (promo_score_of t) in
      let wants_up =
        (if leb_ℤ (pos 0) up_count then ltb_ℤ (pos 0) up_count else ltb_ℤ (pos 0) t.up_pct)
        && not by_score in
      let up =
        if by_score
        then pos 0
        else if leb_ℤ (pos 0) up_count
        then (if ltb_ℤ (pos n) up_count then pos n else up_count)
        else percent t.up_pct n in
      let down = percent t.down_pct n in
      if n == 0
      then record { up = pos 0; down = pos 0 }
      else if ltb_ℤ (pos n) cfg.min_group_size
      then record {
        up = if leb_ℤ t.min_promo_score (pos leader_score) && wants_up then pos 1 else pos 0;
        down = pos 0;
      }
      else record { up = up; down = if ltb_ℤ (pos n) (up +ℤ down) then pos n -ℤ up else down }

-- The `switch` of `Evaluate` at index `i` of `n`.
unfoldable pub zone_at : ℕ → CountsResult → ℕ → ℕ → Zone
zone_at n c i round_score =
    if ltb_ℤ (pos i) c.up && ltb 0 round_score
    then promote
    else if leb_ℤ (pos n -ℤ c.down) (pos i)
    then relegate
    else safe

abbrev pub is_promote : Zone → Bool
is_promote promote = true
is_promote safe = false
is_promote relegate = false

-- The loop of `Evaluate` from index `i` on, with its counter `promoted`.
unfoldable pub assign_zones : ℕ → CountsResult → ℕ → ℕ → List Member → List Member × ℕ
unfolding zone_at
assign_zones n c i promoted [] = ([], promoted)
assign_zones n c i promoted (m ∷ ms) =
    let z = zone_at n c i m.round_score in
    let (rest, count) =
      assign_zones n c (suc i) (if is_promote z then suc promoted else promoted) ms in
    (record m { rank = suc i; zone = some z } ∷ rest, count)

pub record Evaluation : Type 0 where
  pub members : List Member
  pub promote_count : ℕ
  pub relegate_count : ℤ

-- The score of the first member, 0 in an empty group.
abbrev pub leader_score_of : List Member → ℕ
leader_score_of [] = 0
leader_score_of (m ∷ ms) = m.round_score

unfoldable pub evaluate : Float64 → List Member → Tier → LeagueConfig → ℤ → Evaluation
evaluate fl members t cfg up_count =
    let sorted = sort_members members in
    let n = length sorted in
    let c = counts fl n t cfg (leader_score_of sorted) up_count in
    let (placed, promoted) = assign_zones n c 0 0 sorted in
    record { members = placed; promote_count = promoted; relegate_count = c.down }
