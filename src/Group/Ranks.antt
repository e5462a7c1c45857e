-- ===== src/Group/Ranks.antt =====
-- `Evaluate`: its counters, the places and the zones of its members.
use queens.Prelude.{
  ℕ, suc, ◌≤◌, ◌<◌, ◌↔◌, subst, min, ◌≡◌, refl, sym, ap, ◌∙◌, Option, none, some, List, arith,
  length, get_elem?, some-eq,
}
use mathlib.Core.Option
use queens.Prelude.Sort.{IsSortedBy-get, sort_by-IsSortedBy, length-sort_by}
use queens.Prelude.Int.{ℤ, pos, ◌+ℤ◌, ◌<ℤ◌, ◌≤ℤ◌}
use queens.Float.{Float64}
use queens.League.{Tier, LeagueConfig, promote, relegate}
use queens.Group.{
  Member, CountsResult, member_less, sort_members, counts, zone_at, is_promote, assign_zones,
  leader_score_of, evaluate,
}
use queens.Group.Order.{member_less-IsWeakOrder, member_less-score}
use queens.Group.Counts.{Fit, IsRounding, IsPercentages, counts-Fit}
use queens.Group.Zones.{
  is_relegate, count_zone, assign_zones-promoted, assign_zones-relegated, placed,
  assign_zones-placed, zone_at_promote_iff, zone_at_relegate_iff,
}

module _ (fl : Float64) (ms : List Member) (t : Tier) (cfg : LeagueConfig) (up_count : ℤ) where
  -- The counts that `Evaluate` works with.
  abbrev pub evaluate_counts : CountsResult
  evaluate_counts =
      counts fl (length (sort_members ms)) t cfg (leader_score_of (sort_members ms)) up_count

  length-sort_members : length (sort_members ms) ≡ length ms
  unfolding sort_members
  length-sort_members = length-sort_by member_less ms

  -- `PromoteCount` is the number of members in the promotion zone and `RelegateCount` that of those in
  -- the relegation zone, for percentages in 0..100, a group of at most 2^31 members and floats that
  -- round a percentage to within a half.
  pub evaluate_counters :
      IsRounding fl
      → IsPercentages t
      → length ms ≤ 2147483648
      → let ev = evaluate fl ms t cfg up_count in
        (ev.promote_count ≡ count_zone is_promote ev.members)
        × (ev.relegate_count ≡ pos (count_zone is_relegate ev.members))
  unfolding evaluate
  evaluate_counters r p m =
      let n = length (sort_members ms) in
      let f : Fit n evaluate_counts =
        counts-Fit fl n t cfg _ up_count r p (omega (arith, length-sort_members)) in
      let relegated : count_zone is_relegate
            (assign_zones n evaluate_counts 0 0 (sort_members ms)).0
          ≡ min f.down n =
        assign_zones-relegated n evaluate_counts f 0 0 (sort_members ms) (omega arith) in
      (
        assign_zones-promoted n evaluate_counts 0 0 (sort_members ms) ∙ omega arith,
        f.is_down ∙ ap pos (omega (arith, relegated, f.within)),
      )

  -- The member at place `j` of the order is listed there with rank `j + 1` and the zone of the place.
  pub evaluate_placed :
      (j : ℕ)
      → get_elem? (evaluate fl ms t cfg up_count).members j
        ≡ Option.map
            (placed (length (sort_members ms)) evaluate_counts j)
            (get_elem? (sort_members ms) j)
  unfolding evaluate
  evaluate_placed j =
      assign_zones-placed (length (sort_members ms)) evaluate_counts 0 0 (sort_members ms) j
      ∙ ap
          (λ i.
            Option.map (placed (length (sort_members ms)) evaluate_counts i)
              (get_elem? (sort_members ms) j))
          (omega arith)

-- Where a member of the standing comes from.
placed_from :
    (n : ℕ) (c : CountsResult) (j : ℕ) (o : Option Member) {b : Member}
    → Option.map (placed n c j) o ≡ some b
    → (y : Member) × (o ≡ some y) × (b ≡ placed n c j y)
placed_from n c j none h = cc
placed_from n c j (some y) h = (y, refl, sym (some-eq h))

-- For percentages in 0..100, a group of at most 2^31 members and floats that round a percentage to
-- within a half, the member at place `j`, from 0, of the evaluation is the one at place `j` of the order,
-- with rank `j + 1`. With the counts of `Counts`, the member is promoted exactly if `j` is below the
-- number that goes up and the score is above 0, and relegated exactly if the place is among the last
-- ones, as many as go down.
pub evaluate_places :
    (fl : Float64) (ms : List Member) (t : Tier) (cfg : LeagueConfig) (up_count : ℤ) (j : ℕ)
    (b : Member)
    → IsRounding fl
    → IsPercentages t
    → length ms ≤ 2147483648
    → get_elem? (evaluate fl ms t cfg up_count).members j ≡ some b
    → let c = evaluate_counts fl ms t cfg up_count in
      ((x : Member) × (get_elem? (sort_members ms) j ≡ some x)
        × (b ≡ record x { rank = suc j; zone = b.zone }))
      × ((b.zone ≡ some promote) ↔ ((pos j <ℤ c.up) × (0 < b.round_score)))
      × ((b.zone ≡ some relegate) ↔ (pos (length ms) ≤ℤ pos j +ℤ c.down))
evaluate_places fl ms t cfg up_count j b r p m at_j =
    let n = length (sort_members ms) in
    let c = evaluate_counts fl ms t cfg up_count in
    let f : Fit n c =
      counts-Fit fl n t cfg _ up_count r p
        (omega (arith, length-sort_members fl ms t cfg up_count)) in
    let (x, is_x, e) =
      placed_from n c j (get_elem? (sort_members ms) j)
        (sym (evaluate_placed fl ms t cfg up_count j) ∙ at_j) in
    let zone : b.zone ≡ some (zone_at n c j x.round_score) = ap (λ (y : Member). y.zone) e in
    let score : b.round_score ≡ x.round_score = ap (λ (y : Member). y.round_score) e in
    let (up, up_back) = zone_at_promote_iff n c f j x.round_score in
    let (down, down_back) = zone_at_relegate_iff n c f j x.round_score in
    let size = length-sort_members fl ms t cfg up_count in
    (
      (x, is_x, e ∙ ap (λ z. record x { rank = suc j; zone = z }) (sym zone)),
      (
        λ z.
            let (first, scored) = up (some-eq (sym zone ∙ z)) in
            (first, subst (λ s. 0 < s) (sym score) scored),
        λ (first, scored). zone ∙ ap some (up_back (first, subst (λ s. 0 < s) score scored)),
      ),
      (
        λ z. subst (λ k. pos k ≤ℤ pos j +ℤ c.down) size (down (some-eq (sym zone ∙ z))),
        λ last. zone ∙ ap some (down_back (subst (λ k. pos k ≤ℤ pos j +ℤ c.down) (sym size) last)),
      ),
    )

-- A later place is not better: it is promoted only if the earlier one is, and relegated if that one is.
zone_at-promote_mono :
    (n : ℕ) (c : CountsResult) (i j s s' : ℕ)
    → i < j
    → s' ≤ s
    → zone_at n c j s' ≡ promote
    → zone_at n c i s ≡ promote
unfolding zone_at
zone_at-promote_mono n c i j s s' h k e = ground arith

zone_at-relegate_mono :
    (n : ℕ) (c : CountsResult) (i j s s' : ℕ)
    → i < j
    → s' ≤ s
    → zone_at n c i s ≡ relegate
    → zone_at n c j s' ≡ relegate
unfolding zone_at
zone_at-relegate_mono n c i j s s' h k e = ground arith

zones_mono :
    (fl : Float64) (ms : List Member) (t : Tier) (cfg : LeagueConfig) (up_count : ℤ) (i j : ℕ)
    (a b : Member)
    → i < j
    → get_elem? (evaluate fl ms t cfg up_count).members i ≡ some a
    → get_elem? (evaluate fl ms t cfg up_count).members j ≡ some b
    → (b.zone ≡ some promote → a.zone ≡ some promote)
      × (a.zone ≡ some relegate → b.zone ≡ some relegate)
unfolding sort_members
zones_mono fl ms t cfg up_count i j a b h at_i at_j =
    let n = length (sort_members ms) in
    let c = evaluate_counts fl ms t cfg up_count in
    let (x, is_x, ea) =
      placed_from n c i (get_elem? (sort_members ms) i)
        (sym (evaluate_placed fl ms t cfg up_count i) ∙ at_i) in
    let (y, is_y, eb) =
      placed_from n c j (get_elem? (sort_members ms) j)
        (sym (evaluate_placed fl ms t cfg up_count j) ∙ at_j) in
    let le : y.round_score ≤ x.round_score = member_less-score x y (
      IsSortedBy-get member_less (sort_members ms) i j
        (sort_by-IsSortedBy member_less member_less-IsWeakOrder ms) h is_x is_y) in
    (
      λ p.
          ap (λ (m : Member). m.zone) ea
          ∙ ap some (
              zone_at-promote_mono n c i j _ _ h le
                (some-eq (sym (ap (λ (m : Member). m.zone) eb) ∙ p))),
      λ p.
          ap (λ (m : Member). m.zone) eb
          ∙ ap some (
              zone_at-relegate_mono n c i j _ _ h le
                (some-eq (sym (ap (λ (m : Member). m.zone) ea) ∙ p))),
    )

-- If the member at a later place of an evaluation is promoted, so is the one at an earlier place.
pub evaluate_promotes_above :
    (fl : Float64) (ms : List Member) (t : Tier) (cfg : LeagueConfig) (up_count : ℤ) (i j : ℕ)
    (a b : Member)
    → i < j
    → get_elem? (evaluate fl ms t cfg up_count).members i ≡ some a
    → get_elem? (evaluate fl ms t cfg up_count).members j ≡ some b
    → b.zone ≡ some promote
    → a.zone ≡ some promote
evaluate_promotes_above fl ms t cfg up_count i j a b h e e' =
    (zones_mono fl ms t cfg up_count i j a b h e e').0

-- If the member at an earlier place of an evaluation is relegated, so is the one at a later place.
pub evaluate_relegates_below :
    (fl : Float64) (ms : List Member) (t : Tier) (cfg : LeagueConfig) (up_count : ℤ) (i j : ℕ)
    (a b : Member)
    → i < j
    → get_elem? (evaluate fl ms t cfg up_count).members i ≡ some a
    → get_elem? (evaluate fl ms t cfg up_count).members j ≡ some b
    → a.zone ≡ some relegate
    → b.zone ≡ some relegate
evaluate_relegates_below fl ms t cfg up_count i j a b h e e' =
    (zones_mono fl ms t cfg up_count i j a b h e e').1
