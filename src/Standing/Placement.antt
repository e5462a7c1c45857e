-- ===== src/Standing/Placement.antt =====
-- A member of a global group is shown the rank, the zone and the counts that the closing of the round
-- computes: SQL and `Evaluate` agree.
use queens.Prelude.{ℕ, suc, ◌≡◌, sym, ap, ap₂, ◌∙◌, some, List, map, arith, length, get_elem?}
use mathlib.Core.Option
use mathlib.Core.List.{Nodup}
use queens.Prelude.Sort.{length-sort_by}
use queens.Prelude.Int.{ℤ}
use queens.Float.{Float64}
use queens.League.{Tier, LeagueConfig}
use queens.Group.{
  Member, CountsResult, member_less, counts, zone_at, sort_members, assign_zones, evaluate,
}
use queens.Group.Zones.{placed}
use queens.Group.Ranks.{evaluate_counts, evaluate_placed}
use queens.Standing.{zone_for, member_rank, group_leader_score, place_global}
use queens.Standing.Rank.{member_rank-place, group_leader_score-leader}
use queens.Standing.Promoted.{group_promote_count-assign_zones}

-- `zoneFor` of the place counted from 1 is the zone that the loop of `Evaluate` gives at the place.
zone_for-zone_at :
    (j score n : ℕ) (c : CountsResult) → zone_for (suc j) score n c ≡ zone_at n c j score
unfolding zone_for zone_at
zone_for-zone_at j score n c = ground arith

length-sort_members : (ms : List Member) → length (sort_members ms) ≡ length ms
unfolding sort_members
length-sort_members ms = length-sort_by member_less ms

module _ (fl : Float64) (ms : List Member) (t : Tier) (cfg : LeagueConfig) (me : Member)
    (up_count : ℤ) (j : ℕ) (ids : Nodup (map (λ (x : Member). x.player_id) ms))
    (at : get_elem? (sort_members ms) j ≡ some me) where
  -- In a global group of different players whose stored size is right, the place that `placeMember`
  -- computes in SQL for the member at place `j` of the order is what `Evaluate` computes: the evaluated
  -- member has its rank and zone, and the two counts are those of the evaluation.
  pub place_global-evaluate :
      let shown = place_global fl ms (length ms) t cfg me up_count in
      let ev = evaluate fl ms t cfg up_count in
      (get_elem? ev.members j ≡ some (record me { rank = shown.rank; zone = some shown.zone }))
      × (shown.promote_count ≡ ev.promote_count)
      × (shown.relegate_count ≡ ev.relegate_count)
  unfolding place_global evaluate
  place_global-evaluate =
      let n = length ms in
      let size : length (sort_members ms) ≡ n = length-sort_members ms in
      let c = counts fl n t cfg (group_leader_score ms) up_count in
      let same_counts : evaluate_counts fl ms t cfg up_count ≡ c =
        ap₂ (λ m s. counts fl m t cfg s up_count) size (sym (group_leader_score-leader ms)) in
      let rank : member_rank ms me ≡ suc j = member_rank-place ms j me ids at in
      let here : Option.map (placed n c j) (get_elem? (sort_members ms) j)
          ≡ some (record me {
            rank = member_rank ms me;
            zone = some (zone_for (member_rank ms me) me.round_score n c);
          }) =
        rw (at, rank)
          (ap (λ z. some (record me { rank = suc j; zone = some z }))
            (sym (zone_for-zone_at j me.round_score n c))) in
      (
        evaluate_placed fl ms t cfg up_count j
            ∙ ap₂ (λ m d. Option.map (placed m d j) (get_elem? (sort_members ms) j)) size
                same_counts
            ∙ here,
        group_promote_count-assign_zones n c ms
            ∙ ap₂ (λ m d. (assign_zones m d 0 0 (sort_members ms)).1) (sym size) (sym same_counts),
        ap (λ (d : CountsResult). d.down) (sym same_counts),
      )
