-- ===== src/Credit/Untouched.antt =====
-- What a result is credited with leaves the table of results as it is.
use queens.Prelude.{
  ℕ, ◌≡◌, refl, sym, ap, ◌∙◌, inl, inr, Bool, not, ◌&&◌, Option, List, Bool-cases, if_true,
  if_false, if_both,
}
use queens.Prelude.Fallible.{done, >>=-done, done-injective}
use queens.Prelude.Int.{ℤ, pos, ltb_ℤ}
use queens.Prelude.Text.{Text, text_eq}
use queens.Float.{Float64}
use queens.League.{Tier, is_zero, promote_tier}
use queens.Round.{has_rounds}
use queens.Score.{ScoreBreakdown}
use queens.Absence.{Player, Summary, known_tier}
use queens.GroupTable.{MemberEntry}
use queens.Levels.{Level}
use queens.Transaction.{ok}
use queens.Transaction.Ends.{ok-injective}
use queens.World.{World, Server}
use queens.Payloads.{Payload, flag_when}
use queens.Payloads.Untouched.{flag_when-results, flag_and_fail-ok}
use queens.Credit.{
  ceiling_of, candidate_score, check_ceiling, record_bests, add_game_stats, update_member_score,
  soft_signals, apply_completed,
}
use queens.Promotion.{has_tier, move_promoted, promote_by_score}

module _ (fl : Float64) (sv : Server) where
  abbrev rows : World fl → List (queens.Results.Result fl)
  rows w = w.results

  pub check_ceiling-results :
      (w w' : World fl) (id : Text) (t : Tier) (idx score : ℤ) (u : Unit {0})
      → check_ceiling fl sv w id t idx score ≡ ok w' u
      → w'.results ≡ w.results
  unfolding check_ceiling
  check_ceiling-results w w' id t idx score u h =
      elim (Bool-cases
        (ltb_ℤ (ceiling_of fl sv w id t idx) (pos (candidate_score fl sv w id t idx score)))) [
          | inl y ↦ absurd (flag_and_fail-ok fl sv w w' id _ _ _ u (sym (if_true _ y) ∙ h))
          | inr n ↦ ap rows (sym (ok-injective (sym (if_false _ n) ∙ h)).0)
        ]

  record_bests-results :
      (w : World fl) (id : Text) (lv : Level fl) (p : Payload fl) (bd : ScoreBreakdown fl)
      (elapsed : fl.Float) (finished : ℤ) (verified : Bool)
      → (record_bests fl sv w id lv p bd elapsed finished verified).results ≡ w.results
  unfolding record_bests
  record_bests-results w id lv p bd elapsed finished verified =
      if_both rows (not verified) w _ refl (if_both rows (is_zero p.wrong_placements) _ _ refl refl)

  soft_signals-results :
      (w w' : World fl) (id : Text) (p : Payload fl) (elapsed par : fl.Float)
      → soft_signals fl sv w id p elapsed par ≡ done w'
      → w'.results ≡ w.results
  unfolding soft_signals
  soft_signals-results w w' id p elapsed par h =
      let (w1, one, h1) = >>=-done (flag_when fl sv _ w id _ _) _ h in
      let (w2, two, h2) = >>=-done (flag_when fl sv _ w1 id _ _) _ h1 in
      let (w3, three, h3) = >>=-done (flag_when fl sv _ w2 id _ _) _ h2 in
      ap rows (sym (done-injective h3))
      ∙ flag_when-results fl sv _ w2 w3 id _ _ three
      ∙ flag_when-results fl sv _ w1 w2 id _ _ two
      ∙ flag_when-results fl sv _ w w1 id _ _ one

  pub apply_completed-results :
      (w w' : World fl) (id : Text) (t : Tier) (idx : ℤ) (lv : Level fl) (p : Payload fl)
      (bd : ScoreBreakdown fl) (elapsed par : fl.Float) (finished : ℤ) (verified counted : Bool)
      → apply_completed fl sv w id t idx lv p bd elapsed par finished verified counted ≡ done w'
      → w'.results ≡ w.results
  unfolding apply_completed add_game_stats update_member_score
  apply_completed-results w w' id t idx lv p bd elapsed par finished verified counted h =
      soft_signals-results _ w' id p elapsed par h
      ∙ if_both rows (counted && has_rounds t) _ _
          (record_bests-results w id lv p bd elapsed finished verified)
          (record_bests-results w id lv p bd elapsed finished verified)

  move_promoted-results :
      (w w' : World fl) (p : Player) (t : Tier) (idx : ℤ) (above : Tier) (ss : List Summary)
      (m : Option MemberEntry)
      → move_promoted fl sv w p t idx above ss m ≡ done w'
      → w'.results ≡ w.results
  unfolding move_promoted
  move_promoted-results w w' p t idx above ss m h =
      elim (Bool-cases (has_tier w.league.players p.id t.id)) [
        | inl y ↦ ap rows (sym (done-injective (sym (if_true _ y) ∙ h)))
        | inr n ↦ absurd (cc (sym (if_false _ n) ∙ h))
      ]

  pub promote_by_score-results :
      (w w' : World fl) (p : Player) (t : Tier) (idx : ℤ) (m : Option MemberEntry) (size rank : ℕ)
      (to : Text)
      → promote_by_score fl sv w p t idx m size rank ≡ done (w', to)
      → w'.results ≡ w.results
  unfolding promote_by_score
  promote_by_score-results w w' p t idx m size rank to h =
      let above = promote_tier sv.league t.id in
      elim (Bool-cases (text_eq above t.id)) [
        | inl y ↦
            ap (λ (x : World fl × Text). x.0.results) (sym (done-injective (sym (if_true _ y) ∙ h)))
        | inr n ↦
            let (a, known, rest) =
              >>=-done (known_tier sv.league above) _ (sym (if_false _ n) ∙ h) in
            let (v, moved, e) = >>=-done (move_promoted fl sv w p t idx a _ m) _ rest in
            ap (λ (x : World fl × Text). x.0.results) (sym (done-injective e))
            ∙ move_promoted-results w v p t idx a _ m moved
      ]
