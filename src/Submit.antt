-- ===== src/Submit.antt =====
-- server/internal/service/play.go: `SubmitResult` and `submitInTx`, which record the result of a game
-- once and answer with the stored response. The stages are those of Payloads and Credit, in the order
-- of the code.
pub mod Untouched
pub mod Stored
pub mod Replay
use queens.Prelude.{
  ℕ, zero, suc, ◌+◌, ◌-◌, ◌*◌, ◌/◌, ◌%◌, ◌^◌, ◌≤◌, ◌<◌, min, max, ◌≡◌, refl, sym, ap, ap₂, subst,
  ◌∙◌, ◌≢◌, ◌↔◌, ◌⊎◌, inl, inr, Bool, true, false, not, ◌&&◌, ◌||◌, Option, none, some, List, [],
  ◌∷◌, ◌++◌, map, arith, dec_lt, ℕ_discrete, ltb, leb, ◌==◌, if◌then◌else◌, ltb→lt, lt→ltb, leb→le,
  ==_iff, Bool-cases, Option-cases, length, get_elem?, set, length-append, length-set, get_or, take,
  drop, replicate, length-take, length-drop, length-replicate, length-map, take-append-drop, All,
  sum, some-eq, if_true, if_false, and_false_left, and_false_right, and_true, both_true,
}
use queens.Prelude.Fallible.{Fallible, fail, done, ◌>>=◌}
use queens.Prelude.Int.{ℤ, pos, negsuc, pos_part, ltb_ℤ, leb_ℤ, ◌-ℤ◌, ◌+ℤ◌, abs_ℕ}
use queens.Prelude.Text.{Text, bytes, text_eq}
use queens.Float.{Float64}
use queens.League.{
  Tier, LeagueConfig, Zone, is_empty, up_mode_openings, promote_tier, promo_score_of, reaches_promo,
}
use queens.Round.{has_rounds, round_index}
use queens.Group.{Member, evaluate}
use queens.Slots.{openings}
use queens.Score.{ScoreBreakdown, breakdown}
use queens.Absence.{Player, LeagueError, not_found, conflict, known_tier}
use queens.Freeze.{count_by_tier}
use queens.GroupTable.{GroupRow, MemberEntry, get_group, get_member}
use queens.Closer.{people_in, person, group_members}
use queens.Standing.{place_global}
use queens.CatchUp.{catch_up, player_of}
use queens.Sessions.{Session, verify_session_token}
use queens.Levels.{Level, PlayerLevelResult, get_level, par, elapsed_floor, apply_result}
use queens.Results.{
  Result, SubmitResponse, get_result, insert_result, replace_forfeit, set_response,
}
use queens.Transaction.{
  Attempt, ok, refused, kept, try, chain, in_tx, run_tx, ApiError, coded, internal, bad_request,
  level_unknown, session_invalid, session_mismatch,
}
use queens.Play.{ensure_round, join_tier, is_excluded}
use queens.World.{World, Server, OpeningsCache}
use queens.Payloads.{
  Payload, SessionCheck, is_malformed, flag_when, flag_and_fail, session_stage, differs_from,
  finished_of, wall_of, upper_of, clamp_elapsed, flag_elapsed, reject_impossible,
}
use queens.Credit.{check_ceiling, apply_completed}
use queens.Promotion.{promote_by_score}
use queens.Answers.{
  is_uuid_v4, SubmitResult, Accepted, has_session, session_id_of, level_result, credit,
  counts_for_league,
}

module _ (fl : Float64) (sv : Server) (payload_hash : Payload fl → Text) where
  -- `rec`
  abbrev pub result_of : Text → Payload fl → Accepted fl → Result fl
  result_of id p a = record {
    result_id = p.result_id;
    player_id = id;
    level_id = a.level.id;
    session_id = session_id_of a.session;
    tier = a.tier.id;
    round_index = a.idx;
    completed = p.completed;
    verified = has_session a.session;
    counted = a.counted;
    finished_at = a.finished;
    received_at = sv.now;
    elapsed_seconds = a.elapsed;
    client_elapsed_seconds = p.elapsed_seconds;
    score = a.bd.score;
    client_score = p.score;
    flawless = a.bd.flawless;
    payload_hash = payload_hash p;
    response = none;
  }

  abbrev pub fresh_result : World fl × SubmitResponse fl → Attempt (World fl) (SubmitResult fl)
  fresh_result (w, body) = ok w (record { body = some body; replay = false })

  -- The answer of an earlier request, as it is stored.
  abbrev replay_of : Result fl → SubmitResult fl
  replay_of r = record { body = r.response; replay = true }

  -- A forfeit that was completed in between.
  unfoldable pub not_replaced : World fl → Option (Result fl) → Attempt (World fl) (SubmitResult fl)
  not_replaced w none = refused (internal not_found)
  not_replaced w (some stored) = ok w (replay_of stored)

  unfoldable pub replaced :
      World fl
      → Text
      → Payload fl
      → Accepted fl
      → List (Result fl) × Bool
      → Attempt (World fl) (SubmitResult fl)
  replaced w id p a (results, true) =
      try (credit fl sv (record w { results = results }) id p a true) fresh_result
  replaced w id p a (results, false) = not_replaced w (get_result fl w.results p.result_id)

  unfoldable pub inserted :
      World fl
      → Text
      → Payload fl
      → Accepted fl
      → Option (List (Result fl))
      → Attempt (World fl) (SubmitResult fl)
  inserted w id p a none = refused (internal conflict)
  inserted w id p a (some results) =
      try (credit fl sv (record w { results = results }) id p a false) fresh_result

  -- The result takes the place of a forfeit, or is a new row.
  unfoldable pub record_result :
      World fl → Text → Payload fl → Bool → Accepted fl → Attempt (World fl) (SubmitResult fl)
  record_result w id p replaces a =
      if replaces
      then replaced w id p a (replace_forfeit fl w.results (result_of id p a))
      else inserted w id p a (insert_result fl w.results (result_of id p a))

  -- The round that is credited: the running one, or a later one of `finished`.
  abbrev credited_round : Tier → ℤ → ℤ
  credited_round t finished =
      let idx = queens.Round.round_index t sv.now in
      let fi = queens.Round.round_index t finished in if ltb_ℤ idx fi then fi else idx

  -- The round bookkeeping, in a tier with rounds.
  unfoldable pub join_stage :
      World fl → Text → Payload fl → Accepted fl → Attempt (World fl) (Accepted fl)
  join_stage w id p a =
      if has_rounds a.tier
      then chain (join_tier fl sv (ensure_round fl sv w a.tier a.idx) id a.excluded a.tier a.idx [])
          (λ joined entry.
            let b = record a { entry = entry } in
            if p.completed && a.counted
            then chain (check_ceiling fl sv joined id a.tier a.idx a.bd.score) (λ w' u. ok w' b)
            else ok joined b)
      else ok w a

  -- The overrides, the clamp of the elapsed time and the score.
  unfoldable pub measure :
      World fl
      → Player
      → Bool
      → Tier
      → Payload fl
      → SessionCheck fl
      → Level fl
      → Attempt (World fl) (Accepted fl)
  measure w player excluded t p sc lv =
      let id = player.id in
      let par_seconds = par fl lv in
      let finished = finished_of fl sv p in
      let floor = elapsed_floor fl lv.size in
      let upper = upper_of fl sv floor (wall_of fl sv p sc.session) in
      let elapsed = clamp_elapsed fl sv floor upper p.elapsed_seconds in
      let bd =
        breakdown fl (fl.of_int lv.difficulty) lv.size par_seconds elapsed p.wrong_placements
          p.hint_count p.completed in
      let a : Accepted fl = record {
        player = player;
        excluded = excluded;
        tier = t;
        session = sc.session;
        level = lv;
        par_seconds = par_seconds;
        finished = finished;
        elapsed = elapsed;
        bd = bd;
        idx = credited_round t finished;
        counted = counts_for_league sv.league t (has_session sc.session) finished sv.now;
        entry = none;
      } in
      try
        (flag_when fl sv (differs_from fl sv p lv par_seconds) w id (bytes "level_meta_mismatch")
            (fl.lit 1 0)
          >>= λ w1. flag_elapsed fl sv w1 id floor upper p.elapsed_seconds)
        (λ w2. chain (reject_impossible fl sv w2 id p lv finished elapsed) (λ w3 u.
          try
            (flag_when fl sv (p.completed && ltb 1 (abs_ℕ (p.score -ℤ bd.score))) w3 id
              (bytes "score_mismatch") (fl.lit 3 0))
            (λ w4. join_stage w4 id p a)))

  unfoldable pub level_stage :
      World fl
      → Player
      → Bool
      → Tier
      → Payload fl
      → SessionCheck fl
      → Option (Level fl)
      → Attempt (World fl) (Accepted fl)
  level_stage w player excluded t p sc none = refused (coded 404 level_unknown [])
  level_stage w player excluded t p sc (some lv) =
      if not (is_empty p.player_id) && not (text_eq p.player_id player.id)
      then flag_and_fail fl sv w player.id (bytes "payload_player_mismatch") (fl.lit 8 0)
          (coded 403 session_mismatch [])
      else measure w player excluded t p sc lv

  -- The stages up to the record of the result. The player is read with the flag of the exclusion before
  -- any signal of this request.
  unfoldable pub accept : Text → Payload fl → Text → World fl → Attempt (World fl) (Accepted fl)
  accept id p session w = try (catch_up fl sv.names sv.league sv.now id w.league) (λ c.
      try (known_tier sv.league c.1.tier) (λ t.
        chain (session_stage fl sv (record w { league = c.0 }) id t p session) (λ w' sc.
          level_stage w' c.1 (is_excluded fl w id) t p sc (get_level fl w'.levels sc.level_id))))

  -- `submitInTx`
  unfoldable pub submit_in_tx :
      Text → Payload fl → Text → Bool → World fl → Attempt (World fl) (SubmitResult fl)
  submit_in_tx id p session replaces w =
      chain (accept id p session w) (λ w' a. record_result w' id p replaces a)

  -- A signal in a transaction of its own, whose error is ignored.
  unfoldable pub flag_alone : World fl → Text → Text → fl.Float → World fl
  flag_alone w id signal weight =
      (in_tx {A = Unit {0}} w
        (λ v. try (flag_when fl sv true v id signal weight) (λ v'. ok v' tt))).0

  -- A result that is known; a completed one replaces a forfeit.
  unfoldable pub submit_known :
      World fl
      → Text
      → Payload fl
      → Text
      → Result fl
      → World fl × Fallible ApiError (SubmitResult fl)
  submit_known w id p session stored =
      let mismatch = flag_alone w id (bytes "payload_player_mismatch") (fl.lit 8 0) in
      let seen =
        if text_eq stored.payload_hash (payload_hash p)
        then w
        else flag_alone w id (bytes "replay_body_mismatch") (fl.lit 1 0) in
      if not (text_eq stored.player_id id)
      then (mismatch, fail (coded 403 session_mismatch []))
      else if stored.completed || not p.completed
      then (seen, done (replay_of stored))
      else in_tx w (submit_in_tx id p session true)

  unfoldable pub submit_checked :
      World fl
      → Text
      → Payload fl
      → Text
      → Option (Result fl)
      → World fl × Fallible ApiError (SubmitResult fl)
  submit_checked w id p session none = in_tx w (submit_in_tx id p session false)
  submit_checked w id p session (some stored) = submit_known w id p session stored

  -- The session id of the token; the empty text without a token, `none` for a forged one.
  unfoldable pub token_session : Text → Option Text
  token_session token =
      if is_empty token then some [] else verify_session_token sv.mac sv.token_pepper token

  unfoldable pub submit_verified :
      World fl → Text → Payload fl → Option Text → World fl × Fallible ApiError (SubmitResult fl)
  submit_verified w id p none = (w, fail (coded 422 session_invalid []))
  submit_verified w id p (some session) =
      submit_checked w id p session (get_result fl w.results p.result_id)

  -- `SubmitResult` for the player `id`.
  unfoldable pub submit_result :
      World fl → Text → Payload fl → World fl × Fallible ApiError (SubmitResult fl)
  submit_result w id p =
      if not (is_uuid_v4 p.result_id) || is_malformed fl p
      then (w, fail (coded 400 bad_request []))
      else submit_verified w id p (token_session p.session_token)
