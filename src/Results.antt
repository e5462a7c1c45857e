-- ===== src/Results.antt =====
-- The game results (store/sqlite/results.go): the table of results and what the league reads of it. The
-- stored response is the record that the service marshals, `none` where it is the empty text; of a
-- result the columns that the service reads.
pub mod Rows
use queens.Prelude.{
  ℕ, zero, suc, ◌+◌, ◌-◌, ◌*◌, ◌/◌, ◌%◌, ◌^◌, ◌≤◌, ◌<◌, min, max, ◌≡◌, refl, sym, ap, ap₂, subst,
  ◌∙◌, ◌≢◌, ◌↔◌, ◌⊎◌, inl, inr, Bool, true, false, not, ◌&&◌, ◌||◌, Option, none, some, List, [],
  ◌∷◌, ◌++◌, map, arith, dec_lt, ℕ_discrete, ltb, leb, ◌==◌, if◌then◌else◌, ltb→lt, lt→ltb, leb→le,
  ==_iff, Bool-cases, Option-cases, length, get_elem?, set, length-append, length-set, get_or, take,
  drop, replicate, length-take, length-drop, length-replicate, length-map, take-append-drop, All,
  sum, some-eq, if_true, if_false, and_false_left, and_false_right, and_true, both_true,
}
use queens.Prelude.Int.{ℤ, pos, pos_part, ltb_ℤ, is_neg}
use queens.Prelude.Sort.{sort_by}
use queens.Prelude.Text.{Text, text_eq, text_lt}
use queens.Float.{Float64}
use queens.League.{Zone}
use queens.Group.{eqb_ℤ}
use queens.Score.{ScoreBreakdown}
use queens.GroupTable.{is_none}

module _ (fl : Float64) where
  -- The body that is stored and replayed.
  pub record SubmitResponse : Type 0 where
    pub breakdown : ScoreBreakdown fl
    pub round_score : ℕ
    pub group_rank : ℕ
    pub group_size : ℕ
    pub zone : Option Zone
    pub tier : Text
    pub round_index : ℤ
    pub tier_points : ℤ
    pub promo_score : ℤ
    pub promoted_to : Text
    pub verified : Bool
    pub counted : Bool
    pub server_time : ℤ

  pub record Result : Type 0 where
    pub result_id : Text
    pub player_id : Text
    pub level_id : Text
    pub session_id : Option Text
    pub tier : Text
    pub round_index : ℤ
    pub completed : Bool
    pub verified : Bool
    pub counted : Bool
    pub finished_at : ℤ
    pub received_at : ℤ
    pub elapsed_seconds : fl.Float
    pub client_elapsed_seconds : fl.Float
    pub score : ℤ
    pub client_score : ℤ
    pub flawless : Bool
    pub payload_hash : Text
    pub response : Option SubmitResponse

  unfoldable pub get_result : List Result → Text → Option Result
  get_result [] id = none
  get_result (r ∷ rs) id = if text_eq r.result_id id then some r else get_result rs id

  -- `Insert`: `none` where the id is taken.
  unfoldable pub insert_result : List Result → Result → Option (List Result)
  insert_result rs x = if is_none (get_result rs x.result_id) then some (x ∷ rs) else none

  -- `ReplaceForfeit` as an `UPDATE`: the row of a forfeit becomes `x`, but for its player.
  unfoldable pub replace_row : Result → Result → Result
  replace_row x r =
      if text_eq r.result_id x.result_id && not r.completed
      then record x { result_id = r.result_id; player_id = r.player_id }
      else r

  -- A row was affected.
  unfoldable pub is_forfeit : List Result → Text → Bool
  is_forfeit [] id = false
  is_forfeit (r ∷ rs) id = (text_eq r.result_id id && not r.completed) || is_forfeit rs id

  abbrev pub replace_forfeit : List Result → Result → List Result × Bool
  replace_forfeit rs x = (map (replace_row x) rs, is_forfeit rs x.result_id)

  unfoldable pub response_row : Text → SubmitResponse → Result → Result
  response_row id body r = if text_eq r.result_id id then record r { response = some body } else r

  abbrev pub set_response : List Result → Text → SubmitResponse → List Result
  set_response rs id body = map (response_row id body) rs

  abbrev in_league : Text → Text → ℤ → Result → Bool
  in_league player tier idx r =
      (text_eq r.player_id player && (text_eq r.tier tier && eqb_ℤ r.round_index idx))
      && (r.completed && r.counted)

  -- The counted results of a round.
  unfoldable pub round_results : List Result → Text → Text → ℤ → List Result
  round_results [] player tier idx = []
  round_results (r ∷ rs) player tier idx =
      let rest = round_results rs player tier idx in
      if in_league player tier idx r then r ∷ rest else rest

  -- `ORDER BY score DESC`
  abbrev scores_more : Result → Result → Bool
  scores_more a b = ltb_ℤ b.score a.score

  -- SQLite's `LIMIT`: a negative number is no limit.
  abbrev limited : ℤ → List Result → List Result
  limited n rs = if is_neg n then rs else take (pos_part n) rs

  -- `RoundScores`: the best `best_n` of them.
  unfoldable pub round_scores : List Result → Text → Text → ℤ → ℤ → List ℕ
  round_scores rs player tier idx best_n =
      map (λ (r : Result). pos_part r.score)
        (limited best_n (sort_by scores_more (round_results rs player tier idx)))

  unfoldable pub count_round_games : List Result → Text → Text → ℤ → ℕ
  count_round_games rs player tier idx = length (round_results rs player tier idx)

  -- `ORDER BY score DESC, finished_at ASC, result_id ASC`
  unfoldable pub better_game : Result → Result → Bool
  better_game a b =
      if not (eqb_ℤ a.score b.score)
      then ltb_ℤ b.score a.score
      else if not (eqb_ℤ a.finished_at b.finished_at)
      then ltb_ℤ a.finished_at b.finished_at
      else text_lt a.result_id b.result_id

  abbrev pub head : List Result → Option Result
  head [] = none
  head (r ∷ rs) = some r

  -- `BestGame`
  unfoldable pub best_game : List Result → Text → Text → ℤ → Option Result
  best_game rs player tier idx = head (sort_by better_game (round_results rs player tier idx))

  abbrev in_runs : Text → Text → ℤ → Result → Bool
  in_runs player tier idx r =
      (text_eq r.player_id player && (text_eq r.tier tier && eqb_ℤ r.round_index idx))
      && r.completed

  unfoldable pub run_results : List Result → Text → Text → ℤ → List Result
  run_results [] player tier idx = []
  run_results (r ∷ rs) player tier idx =
      let rest = run_results rs player tier idx in
      if in_runs player tier idx r then r ∷ rest else rest

  -- `RoundRuns`: the completed games of a round, counted or not.
  unfoldable pub round_runs : List Result → Text → Text → ℤ → ℕ → List Result
  round_runs rs player tier idx limit =
      take limit (sort_by better_game (run_results rs player tier idx))
