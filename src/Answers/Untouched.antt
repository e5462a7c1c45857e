-- ===== src/Answers/Untouched.antt =====
-- The end of a request writes its response into the table of results, and nothing else.
use queens.Prelude.{
  ℕ, ◌≡◌, refl, sym, ap, ap₂, ◌∙◌, inl, inr, Bool, not, ◌&&◌, Option, none, some, Bool-cases,
  if_true, if_false, if_both,
}
use queens.Prelude.Fallible.{Fallible, done, ◌>>=◌, >>=-done, done-injective}
use queens.Prelude.Int.{ℤ, pos, ltb_ℤ, ◌-ℤ◌}
use queens.Prelude.Text.{Text, text_eq}
use queens.Float.{Float64}
use queens.League.{Tier, up_mode_openings, promote_tier, reaches_promo}
use queens.Absence.{Player, LeagueError, known_tier}
use queens.GroupTable.{GroupRow, MemberEntry, get_group, get_member}
use queens.CatchUp.{player_of}
use queens.Levels.{apply_result}
use queens.Results.{SubmitResponse, set_response}
use queens.World.{World, Server}
use queens.Payloads.{Payload}
use queens.Credit.{apply_completed}
use queens.Credit.Untouched.{apply_completed-results, promote_by_score-results}
use queens.Answers.{Accepted, has_session, promote_stage, respond, credit, level_result}
use queens.Placing.{
  Standing, cached_openings, up_count_for, standing_in, standing_found, standing_of, reread,
}

module _ (fl : Float64) (sv : Server) where
  cached_openings-results :
      (w : World fl) (below capped : Tier)
      → (cached_openings fl sv w below capped).0.results ≡ w.results
  unfolding cached_openings
  cached_openings-results w below capped =
      if_both (λ (x : World fl × ℤ). x.0.results)
        (text_eq w.openings.tier below.id && ltb_ℤ (sv.now -ℤ w.openings.computed) (pos 60)) _ _
        refl refl

  up_count_for-results :
      (w w' : World fl) (t : Tier) (u : ℤ)
      → up_count_for fl sv w t ≡ done (w', u)
      → w'.results ≡ w.results
  unfolding up_count_for
  up_count_for-results w w' t u h =
      let first =
        λ (e : ◌≡◌ {A = Fallible LeagueError (World fl × ℤ)} (done (w, _)) (done (w', u))).
          ap (λ (x : World fl × ℤ). x.0.results) (sym (done-injective e)) in
      elim (Bool-cases (text_eq t.up_mode up_mode_openings)) [
        | inr n ↦ first (sym (if_true _ (ap not n)) ∙ h)
        | inl y ↦
            let h1 = sym (if_false _ (ap not y)) ∙ h in
            elim (Bool-cases (text_eq (promote_tier sv.league t.id) t.id)) [
              | inl top ↦ first (sym (if_true _ top) ∙ h1)
              | inr below ↦
                  let (a, known, e) =
                    >>=-done (known_tier sv.league (promote_tier sv.league t.id)) _
                      (sym (if_false _ below) ∙ h1) in
                  ap (λ (x : World fl × ℤ). x.0.results) (sym (done-injective e))
                  ∙ cached_openings-results w t a
            ]
      ]

  standing_in-results :
      (w w' : World fl) (t : Tier) (me : MemberEntry) (o : Option GroupRow) (r : ℕ × Standing)
      → standing_in fl sv w t me o ≡ done (w', r)
      → w'.results ≡ w.results
  unfolding standing_in
  standing_in-results w w' t me none r h = absurd (cc h)
  standing_in-results w w' t me (some g) r h =
      let (u, counted, e) = >>=-done (up_count_for fl sv w t) _ h in
      ap (λ (x : World fl × (ℕ × Standing)). x.0.results) (sym (done-injective e))
      ∙ up_count_for-results w u.0 t u.1 counted

  standing_found-results :
      (w w' : World fl) (t : Tier) (o : Option MemberEntry) (r : ℕ × Standing)
      → standing_found fl sv w t o ≡ done (w', r)
      → w'.results ≡ w.results
  unfolding standing_found
  standing_found-results w w' t none r h = absurd (cc h)
  standing_found-results w w' t (some me) r h =
      standing_in-results w w' t me (get_group w.league.groups me.group_id) r h

  standing_of-results :
      (w w' : World fl) (id : Text) (t : Tier) (idx : ℤ) (o : Option MemberEntry) (r : ℕ × Standing)
      → standing_of fl sv w id t idx o ≡ done (w', r)
      → w'.results ≡ w.results
  unfolding standing_of
  standing_of-results w w' id t idx none r h =
      ap (λ (x : World fl × (ℕ × Standing)). x.0.results) (sym (done-injective h))
  standing_of-results w w' id t idx (some e) r h =
      standing_found-results w w' t (get_member w.league.entries id t.id idx) r h

  promote_stage-results :
      (w w' : World fl) (p : Payload fl) (a : Accepted fl) (player : Player) (r : ℕ × Standing)
      (to : Text)
      → promote_stage fl sv w p a player r ≡ done (w', to)
      → w'.results ≡ w.results
  unfolding promote_stage
  promote_stage-results w w' p a player (score, place) to h =
      elim (Bool-cases ((p.completed && a.counted) && reaches_promo a.tier player.tier_points)) [
        | inl y ↦
            promote_by_score-results fl sv w w' player a.tier a.idx
              (reread w.league.entries player.id a.tier.id a.idx a.entry) place.size place.rank to
              (sym (if_true _ y) ∙ h)
        | inr n ↦
            ap (λ (x : World fl × Text). x.0.results)
              (sym (done-injective (sym (if_false _ n) ∙ h)))
      ]

  respond-results :
      (w w' : World fl) (id : Text) (p : Payload fl) (a : Accepted fl) (body : SubmitResponse fl)
      → respond fl sv w id p a ≡ done (w', body)
      → w'.results ≡ set_response fl w.results p.result_id body
  unfolding respond
  respond-results w w' id p a body h =
      let (player, found, h1) = >>=-done (player_of w.league.players id) _ h in
      let (s, stood, h2) = >>=-done (standing_of fl sv w id a.tier a.idx a.entry) _ h1 in
      let (m, moved, h3) = >>=-done (promote_stage fl sv s.0 p a player s.1) _ h2 in
      let same : m.0.results ≡ w.results =
        promote_stage-results s.0 m.0 p a player s.1 m.1 moved
        ∙ standing_of-results w s.0 id a.tier a.idx a.entry s.1 stood in
      let made = done-injective h3 in
      ap (λ (x : World fl × SubmitResponse fl). x.0.results) (sym made)
      ∙ ap₂ (λ rs b. set_response fl rs p.result_id b) same
          (ap (λ (x : World fl × SubmitResponse fl). x.1) made)

  -- The results after a credit: those before it, with the response.
  pub credit-results :
      (w w' : World fl) (id : Text) (p : Payload fl) (a : Accepted fl) (replaces : Bool)
      (body : SubmitResponse fl)
      → credit fl sv w id p a replaces ≡ done (w', body)
      → w'.results ≡ set_response fl w.results p.result_id body
  unfolding credit
  credit-results w w' id p a replaces body h = elim (Bool-cases p.completed) [
    | inl y ↦
        let (v, applied, rest) =
          >>=-done
            (apply_completed fl sv _ id a.tier a.idx a.level p a.bd a.elapsed a.par_seconds
              a.finished (has_session a.session) a.counted)
            _ (ap (λ m. m >>= λ x. respond fl sv x id p a) (sym (if_true _ y)) ∙ h) in
        respond-results v w' id p a body rest
        ∙ ap (λ rs. set_response fl rs p.result_id body)
            (apply_completed-results fl sv _ v id a.tier a.idx a.level p a.bd a.elapsed
              a.par_seconds a.finished (has_session a.session) a.counted applied)
    | inr n ↦
        let levelled = record w {
          player_levels =
              apply_result fl w.player_levels id a.level.id (level_result fl sv p a replaces);
        } in
        respond-results levelled w' id p a body
          (ap (λ m. m >>= λ x. respond fl sv x id p a) (sym (if_false _ n)) ∙ h)
  ]
