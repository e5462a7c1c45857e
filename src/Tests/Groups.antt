-- ===== src/Tests/Groups.antt =====
-- Scores, groups and the capped tier.
use queens.Prelude.{
  ℕ, ◌+◌, ◌≤◌, ◌<◌, ◌↔◌, max, ◌≡◌, refl, subst, ◌⊎◌, inl, inr, true, false, some, List, [], ◌∷◌,
  ◌++◌, map, arith, length, get_elem?, All, sum,
}
use mathlib.Core.List.{Perm, Nodup, Nodup-nil, Nodup-cons, Mem, not-mem-nil, eq-or-mem_of_mem-cons}
use mathlib.Core.Logic.{∥∥₁_elim}
use mathlib.Core.HLevel.{⊥_prop}
use mathlib.Core.List.Perm
use queens.Prelude.Sort.{sort_by}
use queens.Prelude.Int.{ℤ, pos, negsuc, ◌<ℤ◌, ◌≤ℤ◌, ◌+ℤ◌, ◌-ℤ◌, ◌*ℤ◌, max_ℤ}
use queens.Prelude.Text.{Text, bytes, text_eq, text_eq_refl, text_lt}
use queens.League.{Tier, LeagueConfig, promote, relegate, promo_score_of, with_defaults}
use queens.Scores.{is_sum_mode, round_score, cut_score, best_sum}
use queens.Scores.Best.{sum-le-round_score, round_score_attained, round_score-cons}
use queens.Group.{
  Member, sort_members, member_less, percent, assign_zones, counts, evaluate, is_promote,
}
use queens.Group.Order.{evaluate-perm}
use queens.Group.Zones.{count_zone, is_relegate}
use queens.Group.Counts.{Fit, IsPercentages, counts-Fit}
use queens.Group.Ranks.{
  evaluate_counts, evaluate_counters, evaluate_places, evaluate_promotes_above,
  evaluate_relegates_below,
}
use queens.Round.{quot}
use queens.Slots.{clampi, per_slot, slots, openings, openings_fill}
use queens.Float.Exact.{exact, nearest, quotient, over, exact-IsRounding}
use queens.Tests.Data.{config, platinum, challenger, member}

abbrev few_count : LeagueConfig
few_count = record config { round_best_n = pos 2 }

abbrev games : List ℕ
games = 300 ∷ 410 ∷ 250 ∷ []

counts_best : is_sum_mode few_count ≡ false
unfolding with_defaults text_eq
counts_best = refl

round_score-cons_example :
    round_score (500 ∷ games) few_count + cut_score games few_count
    ≡ round_score games few_count + max 500 (cut_score games few_count)
round_score-cons_example = round_score-cons few_count 500 games (omega arith)

sum-le-round_score_example : sum (410 ∷ 250 ∷ []) ≤ round_score games few_count
sum-le-round_score_example =
    sum-le-round_score few_count games (410 ∷ 250 ∷ []) (300 ∷ []) counts_best
      (Perm.trans (Perm.swap 410 300 (250 ∷ [])) (Perm.cons 410 (Perm.swap 250 300 [])))
      (omega arith)

round_score_attained_example :
    (ys : List ℕ) × (zs : List ℕ) × Perm games (ys ++ zs)
    × (length ys ≤ 2)
    × (sum ys ≡ round_score games few_count)
round_score_attained_example = round_score_attained few_count games counts_best

best_two : round_score games few_count ≡ 710
unfolding round_score best_sum sort_by text_eq with_defaults
best_two = refl

abbrev pub group : List Member
group =
    member (bytes "anna") 5000 12 1754300000
    ∷ member (bytes "ben") 4000 10 1754300500
    ∷ member (bytes "cleo") 4000 9 1754300900
    ∷ member (bytes "dora") 1200 15 1754301000
    ∷ member (bytes "emil") 0 0 0
    ∷ []

abbrev swapped : List Member
swapped =
    member (bytes "ben") 4000 10 1754300500
    ∷ member (bytes "anna") 5000 12 1754300000
    ∷ member (bytes "cleo") 4000 9 1754300900
    ∷ member (bytes "dora") 1200 15 1754301000
    ∷ member (bytes "emil") 0 0 0
    ∷ []

platinum-IsPercentages : IsPercentages platinum
platinum-IsPercentages = record {
  up = 15;
  is_up = refl;
  up_most = omega arith;
  down = 25;
  is_down = refl;
  down_most = omega arith;
}

counts-Fit_example : Fit 5 (counts exact 5 platinum config 5000 (negsuc 0))
counts-Fit_example =
    counts-Fit exact 5 platinum config 5000 (negsuc 0) exact-IsRounding platinum-IsPercentages
      (omega arith)

evaluate_counters_example :
    ((evaluate exact group platinum config (negsuc 0)).promote_count
      ≡ count_zone is_promote (evaluate exact group platinum config (negsuc 0)).members)
    × ((evaluate exact group platinum config (negsuc 0)).relegate_count
        ≡ pos (count_zone is_relegate (evaluate exact group platinum config (negsuc 0)).members))
evaluate_counters_example =
    evaluate_counters exact group platinum config (negsuc 0) exact-IsRounding platinum-IsPercentages
      (omega arith)

abbrev anna : Member
anna = record (member (bytes "anna") 5000 12 1754300000) { rank = 1; zone = some promote }

abbrev emil : Member
emil = record (member (bytes "emil") 0 0 0) { rank = 5; zone = some relegate }

abbrev cleo : Member
cleo = record (member (bytes "cleo") 4000 9 1754300900) { rank = 2; zone = some promote }

abbrev two_up : ℤ
two_up = pos 2

abbrev half_down : Tier
half_down = record platinum { down_pct = pos 50 }

abbrev dora : Member
dora = record (member (bytes "dora") 1200 15 1754301000) { rank = 4; zone = some relegate }

-- Two places of a group of `platinum` with two promotions, and two of one that relegates half.
standings :
    (get_elem? (evaluate exact group platinum config two_up).members 0 ≡ some anna)
    × (get_elem? (evaluate exact group platinum config two_up).members 1 ≡ some cleo)
    × (get_elem? (evaluate exact group half_down config (negsuc 0)).members 3 ≡ some dora)
    × (get_elem? (evaluate exact group half_down config (negsuc 0)).members 4 ≡ some emil)
unfolding evaluate counts percent sort_members member_less sort_by text_lt exact nearest quotient
    over ◌+ℤ◌ ◌-ℤ◌ ◌*ℤ◌ with_defaults assign_zones promo_score_of
standings = (refl, refl, refl, refl)

evaluate_places_example :
    let c = evaluate_counts exact group platinum config two_up in
    ((x : Member) × (get_elem? (sort_members group) 1 ≡ some x)
      × (cleo ≡ record x { rank = 2; zone = cleo.zone }))
    × ((cleo.zone ≡ some promote) ↔ ((pos 1 <ℤ c.up) × (0 < cleo.round_score)))
    × ((cleo.zone ≡ some relegate) ↔ (pos 5 ≤ℤ pos 1 +ℤ c.down))
evaluate_places_example =
    evaluate_places exact group platinum config two_up 1 cleo exact-IsRounding
      platinum-IsPercentages (omega arith) standings.1

evaluate_promotes_above_example : anna.zone ≡ some promote
evaluate_promotes_above_example =
    evaluate_promotes_above exact group platinum config two_up 0 1 anna cleo (omega arith)
      standings.0 standings.1 refl

evaluate_relegates_below_example : emil.zone ≡ some relegate
evaluate_relegates_below_example =
    evaluate_relegates_below exact group half_down config (negsuc 0) 3 4 dora emil (omega arith)
      standings.2 standings.3 refl

refute : (x y : Text) (l : List Text) → text_eq x y ≡ false → ¬ Mem x l → ¬ ((x ≡ y) ⊎ Mem x l)
refute x y l n a (inl e) = cc (subst (λ z. text_eq x z ≡ true) e (text_eq_refl x))
refute x y l n a (inr k) = a k

absent : (x : Text) (l : List Text) → All (λ y. text_eq x y ≡ false) l → ¬ Mem x l
absent x [] a = not-mem-nil
absent x (y ∷ l) (n, a) =
    λ m. ∥∥₁_elim (eq-or-mem_of_mem-cons m) ⊥_prop (refute x y l n (absent x l a))

pub ids_differ : Nodup (map (λ (m : Member). m.player_id) group)
unfolding text_eq
ids_differ = Nodup-cons.1 (
  absent (bytes "anna") _ (refl, (refl, (refl, (refl, tt)))),
  Nodup-cons.1 (
    absent (bytes "ben") _ (refl, (refl, (refl, tt))),
    Nodup-cons.1 (
      absent (bytes "cleo") _ (refl, (refl, tt)),
      Nodup-cons.1 (
        absent (bytes "dora") _ (refl, tt),
        Nodup-cons.1 (absent (bytes "emil") _ tt, Nodup-nil),
      ),
    ),
  ),
)

evaluate-perm_example :
    evaluate exact group platinum config (negsuc 0)
    ≡ evaluate exact swapped platinum config (negsuc 0)
evaluate-perm_example =
    evaluate-perm exact platinum config (negsuc 0) group swapped (Perm.swap _ _ _) ids_differ

openings_fill_example :
    pos 7
      -ℤ (counts exact 7 challenger config 0 (negsuc 0)).down
      +ℤ openings exact config challenger 93 7
    ≡ max_ℤ (slots challenger 93) (pos 7 -ℤ (counts exact 7 challenger config 0 (negsuc 0)).down)
unfolding slots clampi quot per_slot
openings_fill_example = openings_fill exact config challenger 93 7 (omega arith)
