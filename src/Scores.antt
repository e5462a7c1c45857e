-- ===== src/Scores.antt =====
-- server/internal/domain/league.go: `RoundScore` and `CutScore`. Game scores are never negative.
pub mod Best
use queens.Prelude.{
  ℕ, zero, suc, ◌+◌, ◌-◌, ◌*◌, ◌/◌, ◌%◌, ◌^◌, ◌≤◌, ◌<◌, min, max, ◌≡◌, refl, sym, ap, ap₂, subst,
  ◌∙◌, ◌≢◌, ◌↔◌, ◌⊎◌, inl, inr, Bool, true, false, not, ◌&&◌, ◌||◌, Option, none, some, List, [],
  ◌∷◌, ◌++◌, map, arith, dec_lt, ℕ_discrete, ltb, leb, ◌==◌, if◌then◌else◌, ltb→lt, lt→ltb, leb→le,
  ==_iff, Bool-cases, Option-cases, length, get_elem?, set, length-append, length-set, get_or, take,
  drop, replicate, length-take, length-drop, length-replicate, length-map, take-append-drop, All,
  sum,
}
use queens.Prelude.Sort.{sort_by}
use queens.Prelude.Int.{ℤ, pos, pos_part, leb_ℤ, ltb_ℤ}
use queens.Prelude.Text.{bytes, text_eq}
use queens.League.{LeagueConfig}

-- `sort.Reverse`
abbrev pub greater : ℕ → ℕ → Bool
greater a b = ltb b a

abbrev pub sorted_desc : List ℕ → List ℕ
sorted_desc = sort_by greater

abbrev pub is_sum_mode : LeagueConfig → Bool
is_sum_mode cfg = text_eq cfg.round_mode (bytes "sum")

-- The loop `for i := 0; i < n; i++` over the sorted scores, with `n` cut off at their number; a
-- negative `n` gives no round.
unfoldable pub best_sum : ℤ → List ℕ → ℕ
best_sum n scores = sum (take (pos_part n) (sorted_desc scores))

-- `sorted[n-1]` once `n` games are in.
unfoldable pub lowest_counted : ℤ → List ℕ → ℕ
lowest_counted n scores =
    if leb_ℤ n (pos 0) || ltb_ℤ (pos (length scores)) n
    then 0
    else get_or (sorted_desc scores) (pos_part n - 1) 0

unfoldable pub round_score : List ℕ → LeagueConfig → ℕ
round_score scores cfg = if is_sum_mode cfg then sum scores else best_sum cfg.round_best_n scores

unfoldable pub cut_score : List ℕ → LeagueConfig → ℕ
cut_score scores cfg = if is_sum_mode cfg then 0 else lowest_counted cfg.round_best_n scores
