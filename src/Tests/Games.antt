-- ===== src/Tests/Games.antt =====
-- A player of the bronze tier starts a game, and submits a result without a session.
use queens.Prelude.Sort.{sort_by}
use queens.League.{load_league_config, reaches_promo, apply}
use queens.Round.{round_index}
use queens.Score.{clampf, base, par_seconds, accuracy_factor, speed_factor, hint_factor, breakdown}
use queens.Anomaly.{read_anomaly, flag_found, flag}
use queens.Freeze.{due_rows, due_rounds}
use queens.Closing.{get_player}
use queens.Absence.{known_tier, settle_absence}
use queens.CatchUp.{player_of, close_due, catch_up}
use queens.Credit.{
  points_row, record_bests, add_game_stats, next_streak, soft_signals, apply_completed,
}
use queens.Results.{get_result, insert_result}
use queens.Prelude.{◌≡◌, ◌↔◌, refl, true, false, none, some, [], ◌∷◌}
use queens.Prelude.Fallible.{Fallible, done, fail}
use queens.Prelude.Int.{ℤ, pos, ◌+ℤ◌, ◌*ℤ◌, ◌+ℤ◌, ◌-ℤ◌}
use queens.Prelude.Text.{Text, bytes}
use queens.Float.Exact.{exact, over, quotient, whole_power, nearest, whole_part, towards_zero}
use queens.Sessions.{get_session, session_token, verify_session_token}
use queens.Sessions.Tokens.{IsDotless, verify_session_token_iff}
use queens.Levels.{Level, par, elapsed_floor, get_player_level, get_level}
use queens.Transaction.{Attempt, ok, refused, kept, ApiError, in_tx, in_tx_from, retried, run_tx}
use queens.Play.{StartGameResult, mint}
use queens.World.{World, Server}
use queens.Payloads.{
  Payload, SessionCheck, check_session, is_malformed, flag_when, no_session, session_stage,
  differs_from, wall_of, upper_of, clamp_elapsed, flag_elapsed, is_impossible, reject_impossible,
}
use queens.Answers.{SubmitResult, is_uuid_v4, counts_for_league, promote_stage, respond, credit}
use queens.Placing.{standing_of}
use queens.Submit.{
  submit_result, submit_verified, token_session, submit_checked, submit_in_tx, accept, inserted,
  record_result, join_stage, measure, level_stage,
}
use queens.Submit.Replay.{submit_result_replays}
use queens.Tests.Data.{config, bronze}
use queens.Tests.Closers.{names}
use queens.Tests.Freezes.{player}

abbrev mac : Text → Text → Text
mac pepper id = bytes "c2ln"

abbrev server_at : ℤ → Server
server_at now = record {
  names = names;
  league = config;
  token_pepper = bytes "pepper";
  cooldown_seconds = pos 604800;
  session_ttl = pos 21600;
  no_session_grace_until = pos 0;
  now = now;
  new_session_id = bytes "c2Vzc2lvbg";
  mac = mac;
}

abbrev server : Server
server = server_at (pos 1754000000)

abbrev level : Level exact
level = record {
  id = bytes "level-1";
  size = pos 6;
  difficulty = pos 8;
  stars = pos 3;
  par_override = none;
}

abbrev world : World exact
world = record {
  league = record {
    rounds = [];
    groups = [];
    entries = [];
    players = player (bytes "bronze") ∷ [];
    summaries = [];
    outcomes = [];
  };
  played = [];
  friends = [];
  signals = record {
    flags = [];
    scores =
        record {
          player_id = bytes "anna";
          score = exact.lit 0 0;
          updated_at = pos 0;
          shadow_excluded = false;
        }
        ∷ [];
  };
  sessions = [];
  levels = level ∷ [];
  player_levels = [];
  results = [];
  bests = [];
  flawless_bests = [];
  stats =
      record {
        player_id = bytes "anna";
        games = 0;
        flawless = 0;
        best_score = pos 0;
        perfect_streak = 0;
      }
      ∷ [];
  openings = record { tier = []; value = pos 0; computed = pos 0 };
}

abbrev payload : Text → Payload exact
payload result = record {
  result_id = result;
  player_id = [];
  level_id = bytes "level-1";
  size = pos 6;
  difficulty = exact.lit 8 0;
  stars = pos 3;
  par_seconds = exact.lit 0 0;
  started_at = pos 1753999000;
  finished_at = pos 1753999100;
  elapsed_seconds = exact.lit 90 0;
  completed = true;
  queens_placed = pos 7;
  wrong_placements = pos 1;
  queens_removed = pos 1;
  clear_count = pos 0;
  hint_count = pos 0;
  taps = pos 9;
  score = pos 0;
  session_token = [];
}

abbrev first_result : Text
first_result = bytes "0b7c2f3e-5d1a-4c8e-9f20-6a1b2c3d4e5f"

abbrev hash_of : Payload exact → Text
hash_of p = p.result_id

abbrev run : World exact × Fallible ApiError (SubmitResult exact)
run = submit_result exact server hash_of world (bytes "anna") (payload first_result)

abbrev answer_of : World exact × Fallible ApiError (SubmitResult exact) → SubmitResult exact
answer_of (w, fail e) = record { body = none; replay = true }
answer_of (w, done r) = r

records : run ≡ (run.0, done (answer_of run))
unfolding submit_result is_uuid_v4 is_malformed exact ◌*ℤ◌ over submit_verified token_session
    submit_checked get_result in_tx in_tx_from retried run_tx submit_in_tx accept inserted
    record_result join_stage measure level_stage counts_for_league standing_of promote_stage respond
    credit points_row record_bests add_game_stats next_streak soft_signals apply_completed flag_when
    no_session session_stage differs_from wall_of upper_of clamp_elapsed flag_elapsed is_impossible
    reject_impossible insert_result par elapsed_floor get_player_level get_level player_of close_due
    catch_up known_tier settle_absence get_player due_rows due_rounds read_anomaly flag_found flag
    clampf base par_seconds accuracy_factor speed_factor hint_factor breakdown round_index
    load_league_config reaches_promo apply quotient whole_power nearest whole_part towards_zero ◌+ℤ◌
    ◌-ℤ◌ sort_by
records = refl

is_recorded : (answer_of run).replay ≡ false
unfolding inserted record_result join_stage measure level_stage accept submit_in_tx submit_checked
    token_session submit_verified submit_result counts_for_league is_uuid_v4 standing_of
    promote_stage respond credit points_row record_bests add_game_stats next_streak soft_signals
    apply_completed is_malformed flag_when no_session session_stage differs_from wall_of upper_of
    clamp_elapsed flag_elapsed is_impossible reject_impossible get_result insert_result par
    elapsed_floor get_player_level get_level run_tx retried in_tx_from in_tx player_of close_due
    catch_up known_tier settle_absence get_player due_rows due_rounds read_anomaly flag_found flag
    clampf base par_seconds accuracy_factor speed_factor hint_factor breakdown round_index
    load_league_config reaches_promo apply over quotient whole_power nearest whole_part towards_zero
    exact ◌+ℤ◌ ◌-ℤ◌ ◌*ℤ◌ sort_by
is_recorded = refl

-- Months later, when the level was taken off.
abbrev months_later : World exact
months_later = record run.0 { levels = [] }

submit_result_replays_example :
    submit_result exact
      (server_at (pos 1764000000))
      hash_of
      months_later
      (bytes "anna")
      (payload first_result)
    ≡ (months_later, done (record { body = (answer_of run).body; replay = true }))
submit_result_replays_example =
    submit_result_replays exact server (server_at (pos 1764000000)) hash_of world run.0 months_later
      (bytes "anna") (payload first_result) (answer_of run) records is_recorded refl refl refl

abbrev start : Attempt (World exact) (StartGameResult exact)
start = mint exact server world (player (bytes "bronze")) level bronze (pos 0) (bytes "1.0")

abbrev world_of : {A : Type 0} → Attempt (World exact) A → World exact
world_of (ok w a) = w
world_of (refused e) = world
world_of (kept w e) = w

abbrev no_start : StartGameResult exact
no_start = record {
  round_index = pos 0;
  group_id = [];
  joined = false;
  tier = [];
  locked_until = pos 0;
  token = [];
  issued_at = pos 0;
  expires_at = pos 0;
  par_seconds = exact.lit 0 0;
  server_time = pos 0;
  reissued = false;
}

abbrev started : Attempt (World exact) (StartGameResult exact) → StartGameResult exact
started (ok w r) = r
started (refused e) = no_start
started (kept w e) = no_start

abbrev session_id : Text
session_id = bytes "c2Vzc2lvbg"

abbrev check_at : ℤ → World exact → Text → Attempt (World exact) (SessionCheck exact)
check_at now w result =
    check_session exact (server_at now) w (bytes "anna") (payload result) session_id
      (get_session w.sessions session_id)

abbrev passed : Attempt (World exact) (SessionCheck exact) → SessionCheck exact
passed (ok w c) = c
passed (refused e) = record { session = none; level_id = [] }
passed (kept w e) = record { session = none; level_id = [] }

dotless : IsDotless session_id
dotless = (refl, (refl, (refl, (refl, (refl, (refl, (refl, (refl, (refl, (refl, tt))))))))))

verify_session_token_iff_example :
    (verify_session_token mac (bytes "pepper") (bytes "c2Vzc2lvbg.c2ln") ≡ some session_id)
    ↔ (bytes "c2Vzc2lvbg.c2ln" ≡ session_token mac (bytes "pepper") session_id)
verify_session_token_iff_example =
    verify_session_token_iff mac (bytes "pepper") (bytes "c2Vzc2lvbg.c2ln") session_id dotless refl
      refl
