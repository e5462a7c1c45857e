-- ===== src/Submit/Untouched.antt =====
-- The stages up to the record of a result leave the table of results as it is.
use queens.Prelude.{
  ◌≡◌, sym, ap, ◌∙◌, inl, inr, not, ◌&&◌, Option, none, some, List, [], if◌then◌else◌, Bool,
  Bool-cases, if_true, if_false,
}
use queens.Prelude.Fallible.{◌>>=◌, >>=-done}
use queens.Prelude.Int.{ℤ}
use queens.Prelude.Text.{Text, text_eq}
use queens.Float.{Float64}
use queens.League.{Tier, is_empty}
use queens.Round.{has_rounds}
use queens.Absence.{Player, known_tier}
use queens.Membership.{ensure_membership}
use queens.GroupTable.{MemberEntry}
use queens.CatchUp.{catch_up}
use queens.Levels.{Level, get_level}
use queens.Transaction.{ok, chain}
use queens.Transaction.Ends.{ok-injective, try-ok, chain-ok}
use queens.Play.{ensure_round, join_tier, is_excluded}
use queens.World.{World, Server, tables_of}
use queens.Payloads.{
  Payload, SessionCheck, session_stage, flag_when, flag_elapsed, reject_impossible,
}
use queens.Payloads.Untouched.{
  flag_when-results, flag_and_fail-ok, session_stage-results, flag_elapsed-results,
  reject_impossible-results,
}
use queens.Credit.{check_ceiling}
use queens.Credit.Untouched.{check_ceiling-results}
use queens.Answers.{Accepted}
use queens.Submit.{join_stage, measure, level_stage, accept}

module _ (fl : Float64) (sv : Server) (payload_hash : Payload fl → Text) where
  abbrev rows : World fl → List (queens.Results.Result fl)
  rows w = w.results

  join_tier-results :
      (w w' : World fl) (id : Text) (excluded : Bool) (t : Tier) (idx : ℤ) (m : Option MemberEntry)
      → join_tier fl sv w id excluded t idx [] ≡ ok w' m
      → w'.results ≡ w.results
  unfolding join_tier
  join_tier-results w w' id excluded t idx m h =
      let (j, joined, e) =
        try-ok
          (ensure_membership fl sv.league w.signals (tables_of fl w) id excluded t idx [] sv.now) _
          h in
      ap rows (sym (ok-injective e).0)

  join_stage-results :
      (w w' : World fl) (id : Text) (p : Payload fl) (a b : Accepted fl)
      → join_stage fl sv payload_hash w id p a ≡ ok w' b
      → w'.results ≡ w.results
  unfolding join_stage ensure_round
  join_stage-results w w' id p a b h = elim (Bool-cases (has_rounds a.tier)) [
    | inr n ↦ ap rows (sym (ok-injective (sym (if_false _ n) ∙ h)).0)
    | inl y ↦
        let (v, m, joined, rest) =
          chain-ok
            (join_tier fl sv (ensure_round fl sv w a.tier a.idx) id a.excluded a.tier a.idx []) _
            (sym (if_true _ y) ∙ h) in
        ends v m rest
        ∙ join_tier-results (ensure_round fl sv w a.tier a.idx) v id a.excluded a.tier a.idx m
            joined
  ]
    where
      ends :
          (v : World fl) (m : Option MemberEntry)
          → (if p.completed && a.counted
              then chain
                  (check_ceiling fl sv v id a.tier a.idx a.bd.score)
                  (λ x u. ok x (record a { entry = m }))
              else ok v (record a { entry = m }))
            ≡ ok w' b
          → w'.results ≡ v.results
      ends v m k = elim (Bool-cases (p.completed && a.counted)) [
        | inr n ↦ ap rows (sym (ok-injective (sym (if_false _ n) ∙ k)).0)
        | inl y ↦
            let (x, u, below, e) =
              chain-ok (check_ceiling fl sv v id a.tier a.idx a.bd.score) _
                (sym (if_true _ y) ∙ k) in
            ap rows (sym (ok-injective e).0)
            ∙ check_ceiling-results fl sv v x id a.tier a.idx a.bd.score u below
      ]

  measure-results :
      (w w' : World fl) (player : Player) (excluded : Bool) (t : Tier) (p : Payload fl)
      (sc : SessionCheck fl) (lv : Level fl) (a : Accepted fl)
      → measure fl sv payload_hash w player excluded t p sc lv ≡ ok w' a
      → w'.results ≡ w.results
  unfolding measure
  measure-results w w' player excluded t p sc lv a h =
      let (w2, flagged, h1) =
        try-ok (flag_when fl sv _ w player.id _ _ >>= λ x. flag_elapsed fl sv x player.id _ _ _) _
          h in
      let (w1, one, two) = >>=-done (flag_when fl sv _ w player.id _ _) _ flagged in
      let (w3, u, possible, h2) = chain-ok (reject_impossible fl sv w2 player.id p lv _ _) _ h1 in
      let (w4, scored, h3) = try-ok (flag_when fl sv _ w3 player.id _ _) _ h2 in
      join_stage-results w4 w' player.id p _ a h3
      ∙ flag_when-results fl sv _ w3 w4 player.id _ _ scored
      ∙ reject_impossible-results fl sv w2 w3 player.id p lv _ _ u possible
      ∙ flag_elapsed-results fl sv w1 w2 player.id _ _ _ two
      ∙ flag_when-results fl sv _ w w1 player.id _ _ one

  level_stage-results :
      (w w' : World fl) (player : Player) (excluded : Bool) (t : Tier) (p : Payload fl)
      (sc : SessionCheck fl) (o : Option (Level fl)) (a : Accepted fl)
      → level_stage fl sv payload_hash w player excluded t p sc o ≡ ok w' a
      → w'.results ≡ w.results
  unfolding level_stage
  level_stage-results w w' player excluded t p sc none a h = absurd (cc h)
  level_stage-results w w' player excluded t p sc (some lv) a h =
      elim (Bool-cases (not (is_empty p.player_id) && not (text_eq p.player_id player.id))) [
        | inl y ↦ absurd (flag_and_fail-ok fl sv w w' player.id _ _ _ a (sym (if_true _ y) ∙ h))
        | inr n ↦ measure-results w w' player excluded t p sc lv a (sym (if_false _ n) ∙ h)
      ]

  pub accept-results :
      (id : Text) (p : Payload fl) (session : Text) (w w' : World fl) (a : Accepted fl)
      → accept fl sv payload_hash id p session w ≡ ok w' a
      → w'.results ≡ w.results
  unfolding accept
  accept-results id p session w w' a h =
      let (c, caught, h1) = try-ok (catch_up fl sv.names sv.league sv.now id w.league) _ h in
      let (t, known, h2) = try-ok (known_tier sv.league c.1.tier) _ h1 in
      let (v, sc, checked, h3) =
        chain-ok (session_stage fl sv (record w { league = c.0 }) id t p session) _ h2 in
      level_stage-results v w' c.1 (is_excluded fl w id) t p sc (get_level fl v.levels sc.level_id)
        a h3
      ∙ session_stage-results fl sv (record w { league = c.0 }) v id t p session sc checked
