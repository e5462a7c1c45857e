-- ===== src/Credit.antt =====
-- server/internal/service/play.go: what a recorded result is credited with: `checkCeiling` and
-- `applyCompleted`, with the store operations on a player's counters (store/sqlite/players.go:
-- `AddGameStats`, `SetPerfectStreak`; store/sqlite/league.go: `UpdateMemberScore`). A result credits
-- `bd.score` points.
pub mod Untouched
use queens.Prelude.{
  ℕ, zero, suc, ◌+◌, ◌-◌, ◌*◌, ◌/◌, ◌%◌, ◌^◌, ◌≤◌, ◌<◌, min, max, ◌≡◌, refl, sym, ap, ap₂, subst,
  ◌∙◌, ◌≢◌, ◌↔◌, ◌⊎◌, inl, inr, Bool, true, false, not, ◌&&◌, ◌||◌, Option, none, some, List, [],
  ◌∷◌, ◌++◌, map, arith, dec_lt, ℕ_discrete, ltb, leb, ◌==◌, if◌then◌else◌, ltb→lt, lt→ltb, leb→le,
  ==_iff, Bool-cases, Option-cases, length, get_elem?, set, length-append, length-set, get_or, take,
  drop, replicate, length-take, length-drop, length-replicate, length-map, take-append-drop, All,
  sum, some-eq, if_true, if_false, and_false_left, and_false_right, and_true, both_true,
}
use queens.Prelude.Fallible.{Fallible, fail, done, ◌>>=◌}
use queens.Prelude.Int.{ℤ, pos, pos_part, ltb_ℤ, leb_ℤ, ◌-ℤ◌, ◌+ℤ◌}
use queens.Prelude.Sort.{sort_by}
use queens.Prelude.Text.{Text, bytes, text_eq}
use queens.Float.{Float64}
use queens.League.{Tier, LeagueConfig, promoted, promote_tier, is_zero}
use queens.Round.{has_rounds, round_start, round_end}
use queens.Scores.{round_score}
use queens.Group.{eqb_ℤ}
use queens.Score.{ScoreBreakdown}
use queens.Absence.{Player, Summary, LeagueError, retry, known_tier, insert_summary, set_tier}
use queens.Closing.{get_player, update_tier}
use queens.GroupTable.{MemberEntry, is_entry}
use queens.Closer.{LeagueTables}
use queens.Levels.{Level, base_points, eligible_levels}
use queens.Results.{Result, round_scores, count_round_games}
use queens.Bests.{LevelBest, FlawlessBest, upsert_best, upsert_flawless}
use queens.Transaction.{Attempt, ok, refused, kept, try, chain, ApiError, coded, result_invalid}
use queens.World.{World, Server, PlayerStats}
use queens.Payloads.{Payload, flag_when, flag_and_fail}
use queens.Promotion.{
  left_entry, has_tier, reason_score, promotion_summary, move_promoted, promote_by_score,
}

-- `AddGameStats` on the counters.
unfoldable pub stats_row : Text → Bool → ℤ → PlayerStats → PlayerStats
stats_row id flawless score r =
    if text_eq r.player_id id
    then record r {
      games = suc r.games;
      flawless = r.flawless + (if flawless then 1 else 0);
      best_score = if ltb_ℤ r.best_score score then score else r.best_score;
    }
    else r

-- `AddGameStats` on the tier points.
unfoldable pub points_row : Text → ℤ → ℤ → Player → Player
points_row id points now p =
    if text_eq p.id id
    then record p { tier_points = p.tier_points +ℤ points; updated_at = now }
    else p

unfoldable pub streak_row : Text → ℕ → PlayerStats → PlayerStats
streak_row id n r = if text_eq r.player_id id then record r { perfect_streak = n } else r

unfoldable pub perfect_streak_of : List PlayerStats → Text → ℕ
perfect_streak_of [] id = 0
perfect_streak_of (r ∷ rs) id =
    if text_eq r.player_id id then r.perfect_streak else perfect_streak_of rs id

-- `UpdateMemberScore`
unfoldable pub score_entry : Text → Text → ℤ → ℕ → ℕ → ℤ → MemberEntry → MemberEntry
score_entry id tier idx score games at e =
    if is_entry id tier idx e
    then record e { round_score = score; games = games; last_submit_at = at }
    else e

-- `sort.Reverse`
abbrev pub larger : ℤ → ℤ → Bool
larger a b = ltb_ℤ b a

-- Twice the sum of the bases.
abbrev twice_sum : List ℤ → ℤ
twice_sum [] = pos 0
twice_sum (b ∷ bs) = (b +ℤ b) +ℤ twice_sum bs

module _ (fl : Float64) (sv : Server) where
  -- Twice the `round_best_n` largest bases of the levels that the player can have started.
  unfoldable pub ceiling_of : World fl → Text → Tier → ℤ → ℤ
  ceiling_of w id t idx =
      let eligible =
        eligible_levels fl w.levels w.player_levels id (round_start t idx) (round_end t idx)
          sv.cooldown_seconds in
      let bases = sort_by larger (map (base_points fl) eligible) in
      twice_sum (take (pos_part sv.league.round_best_n) bases)

  -- The round score with the new game.
  unfoldable pub candidate_score : World fl → Text → Tier → ℤ → ℤ → ℕ
  candidate_score w id t idx new_score =
      round_score
        (round_scores fl w.results id t.id idx sv.league.round_best_n ++ (pos_part new_score ∷ []))
        sv.league

  unfoldable pub check_ceiling : World fl → Text → Tier → ℤ → ℤ → Attempt (World fl) (Unit {0})
  check_ceiling w id t idx new_score =
      if ltb_ℤ (ceiling_of w id t idx) (pos (candidate_score w id t idx new_score))
      then flag_and_fail fl sv w id (bytes "impossible_round_score") (fl.lit 20 0)
          (coded 422 result_invalid [])
      else ok w tt

  abbrev best_run : Text → Level fl → Payload fl → ScoreBreakdown fl → fl.Float → ℤ → LevelBest fl
  best_run id lv p bd elapsed finished = record {
    player_id = id;
    level_id = lv.id;
    result_id = p.result_id;
    score = bd.score;
    wrong_placements = p.wrong_placements;
    time_seconds = elapsed;
    achieved_at = finished;
  }

  abbrev flawless_run :
      Text → Level fl → Payload fl → ScoreBreakdown fl → fl.Float → ℤ → FlawlessBest fl
  flawless_run id lv p bd elapsed finished = record {
    player_id = id;
    level_id = lv.id;
    result_id = p.result_id;
    score = bd.score;
    time_seconds = elapsed;
    achieved_at = finished;
  }

  -- Only a verified result reaches a board; the flawless board takes the ones without a mistake.
  unfoldable pub record_bests :
      World fl → Text → Level fl → Payload fl → ScoreBreakdown fl → fl.Float → ℤ → Bool → World fl
  record_bests w id lv p bd elapsed finished verified =
      let with_best = record w {
        bests = upsert_best fl w.bests (best_run id lv p bd elapsed finished);
      } in
      let with_flawless = record with_best {
        flawless_bests =
            upsert_flawless fl w.flawless_bests (flawless_run id lv p bd elapsed finished);
      } in
      if not verified then w else if is_zero p.wrong_placements then with_flawless else with_best

  unfoldable pub add_game_stats : World fl → Text → Bool → ℤ → ℤ → World fl
  add_game_stats w id flawless score points = record w {
    stats = map (stats_row id flawless score) w.stats;
    league = record w.league { players = map (points_row id points sv.now) w.league.players };
  }

  -- The round score and the games of the member, from the stored results.
  unfoldable pub update_member_score : World fl → Text → Tier → ℤ → ℤ → World fl
  update_member_score w id t idx finished =
      let score =
        round_score (round_scores fl w.results id t.id idx sv.league.round_best_n) sv.league in
      let games = count_round_games fl w.results id t.id idx in
      record w {
        league = record w.league {
          entries = map (score_entry id t.id idx score games finished) w.league.entries;
        };
      }

  -- `elapsed < par/3`
  abbrev is_fast : fl.Float → fl.Float → Bool
  is_fast elapsed par = fl.lt elapsed (fl.div par (fl.lit 3 0))

  -- The streak of perfect games after this one.
  unfoldable pub next_streak : World fl → Text → Payload fl → fl.Float → fl.Float → ℕ
  next_streak w id p elapsed par =
      if is_zero p.wrong_placements && (is_zero p.hint_count && is_fast elapsed par)
      then suc (perfect_streak_of w.stats id)
      else 0

  -- The soft signals at the end of `applyCompleted`.
  unfoldable pub soft_signals :
      World fl → Text → Payload fl → fl.Float → fl.Float → Fallible LeagueError (World fl)
  soft_signals w id p elapsed par =
      let streak = next_streak w id p elapsed par in
      let within_cap = fl.le (fl.mul (fl.lit 5 1) (fl.of_int (pos streak))) (fl.lit 6 0) in
      let no_moves =
        is_zero p.queens_removed && (is_zero p.clear_count && is_zero p.wrong_placements) in
      flag_when fl sv (no_moves && is_fast elapsed par) w id (bytes "no_exploration") (fl.lit 4 0)
      >>= λ w1.
          flag_when fl sv (eqb_ℤ p.taps p.queens_placed && ltb_ℤ (pos 0) p.queens_placed) w1 id
            (bytes "taps_equal_placed") (fl.lit 2 0)
          >>= λ w2.
              flag_when fl sv (ltb 0 streak && within_cap) w2 id (bytes "perfect_streak")
                (fl.lit 5 1)
              >>= λ w3. done (record w3 { stats = map (streak_row id streak) w3.stats })

  -- `applyCompleted`
  unfoldable pub apply_completed :
      World fl
      → Text
      → Tier
      → ℤ
      → Level fl
      → Payload fl
      → ScoreBreakdown fl
      → fl.Float
      → fl.Float
      → ℤ
      → Bool
      → Bool
      → Fallible LeagueError (World fl)
  apply_completed w id t idx lv p bd elapsed par finished verified counted =
      let boards = record_bests w id lv p bd elapsed finished verified in
      let counters =
        add_game_stats boards id bd.flawless bd.score (if counted then bd.score else pos 0) in
      let scored =
        if counted && has_rounds t
        then update_member_score counters id t idx finished
        else counters in
      soft_signals scored id p elapsed par
