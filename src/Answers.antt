-- ===== src/Answers.antt =====
-- server/internal/service/play.go: the end of `submitInTx`, from the record of a result to its response,
-- with `CountsForLeague` (domain/league.go) and the pattern of a v4 UUID (service/identity.go).
pub mod Untouched
use queens.Prelude.{
  ℕ, zero, suc, ◌+◌, ◌-◌, ◌*◌, ◌/◌, ◌%◌, ◌^◌, ◌≤◌, ◌<◌, min, max, ◌≡◌, refl, sym, ap, ap₂, subst,
  ◌∙◌, ◌≢◌, ◌↔◌, ◌⊎◌, inl, inr, Bool, true, false, not, ◌&&◌, ◌||◌, Option, none, some, List, [],
  ◌∷◌, ◌++◌, map, arith, dec_lt, ℕ_discrete, ltb, leb, ◌==◌, if◌then◌else◌, ltb→lt, lt→ltb, leb→le,
  ==_iff, Bool-cases, Option-cases, length, get_elem?, set, length-append, length-set, get_or, take,
  drop, replicate, length-take, length-drop, length-replicate, length-map, take-append-drop, All,
  sum, some-eq, if_true, if_false, and_false_left, and_false_right, and_true, both_true,
}
use queens.Prelude.Fallible.{Fallible, fail, done, ◌>>=◌}
use queens.Prelude.Int.{ℤ, pos, negsuc, pos_part, ltb_ℤ, leb_ℤ, ◌-ℤ◌, ◌+ℤ◌, abs_ℕ}
use queens.Prelude.Text.{Text, bytes, text_eq}
use queens.Float.{Float64}
use queens.League.{
  Tier, LeagueConfig, Zone, is_empty, up_mode_openings, promote_tier, promo_score_of, reaches_promo,
}
use queens.Round.{has_rounds, round_index}
use queens.Group.{Member, evaluate}
use queens.Slots.{openings}
use queens.Score.{ScoreBreakdown, breakdown}
use queens.Absence.{Player, LeagueError, not_found, conflict, known_tier}
use queens.Freeze.{count_by_tier}
use queens.GroupTable.{GroupRow, MemberEntry, get_group, get_member}
use queens.Closer.{people_in, person, group_members}
use queens.Standing.{place_global}
use queens.CatchUp.{catch_up, player_of}
use queens.Sessions.{Session, verify_session_token}
use queens.Levels.{Level, PlayerLevelResult, get_level, par, elapsed_floor, apply_result}
use queens.Results.{
  Result, SubmitResponse, get_result, insert_result, replace_forfeit, set_response,
}
use queens.Transaction.{
  Attempt, ok, refused, kept, try, chain, in_tx, run_tx, ApiError, coded, internal, bad_request,
  level_unknown, session_invalid, session_mismatch,
}
use queens.Play.{ensure_round, join_tier}
use queens.World.{World, Server, OpeningsCache}
use queens.Payloads.{
  Payload, SessionCheck, is_malformed, flag_when, flag_and_fail, session_stage, differs_from,
  finished_of, wall_of, upper_of, clamp_elapsed, flag_elapsed, reject_impossible,
}
use queens.Credit.{check_ceiling, apply_completed}
use queens.Promotion.{promote_by_score}
use queens.Placing.{
  Standing, find_me, reread, cached_openings, up_count_for, place_member, standing_in,
  standing_found, standing_of,
}

-- `CountsForLeague`
unfoldable pub counts_for_league : LeagueConfig → Tier → Bool → ℤ → ℤ → Bool
counts_for_league cfg t has_session finished_at received_at =
    if not t.online_required
    then true
    else if not has_session
    then false
    else leb_ℤ (received_at -ℤ finished_at) cfg.online_grace_s

-- A class of characters of the pattern of a v4 UUID.
abbrev is_hex : ℕ → Bool
is_hex c = (leb 48 c && leb c 57) || (leb 97 c && leb c 102)

abbrev all_hex : ℕ → Text → Option Text
all_hex zero s = some s
all_hex (suc n) [] = none
all_hex (suc n) (c ∷ cs) = let rest = all_hex n cs in if is_hex c then rest else none

-- One character that satisfies a test, then the rest.
abbrev one_of : (ℕ → Bool) → Option Text → Option Text
one_of f none = none
one_of f (some []) = none
one_of f (some (c ∷ cs)) = if f c then some cs else none

abbrev hex_then : ℕ → Option Text → Option Text
hex_then n none = none
hex_then n (some s) = all_hex n s

abbrev is_dash : ℕ → Bool
is_dash c = c == 45

abbrev is_variant : ℕ → Bool
is_variant c = (c == 56 || c == 57) || (c == 97 || c == 98)

abbrev pub is_end : Option Text → Bool
is_end none = false
is_end (some s) = is_empty s

-- `uuidV4`
unfoldable pub is_uuid_v4 : Text → Bool
is_uuid_v4 s =
    let version =
      one_of (λ c. c == 52) (one_of is_dash (hex_then 4 (one_of is_dash (all_hex 8 s)))) in
    let variant = one_of is_variant (one_of is_dash (hex_then 3 version)) in
    is_end (hex_then 12 (one_of is_dash (hex_then 3 variant)))

abbrev pub has_session : Option Session → Bool
has_session none = false
has_session (some s) = true

abbrev pub session_id_of : Option Session → Option Text
session_id_of none = none
session_id_of (some s) = some s.id

module _ (fl : Float64) where
  pub record SubmitResult : Type 0 where
    pub body : Option (SubmitResponse fl)
    pub replay : Bool

  -- What the stages of `submitInTx` pass on.
  pub record Accepted : Type 0 where
    pub player : Player
    -- `player.ShadowExcluded`, as the catch-up has read it.
    pub excluded : Bool
    pub tier : Tier
    pub session : Option Session
    pub level : Level fl
    pub par_seconds : fl.Float
    pub finished : ℤ
    pub elapsed : fl.Float
    pub bd : ScoreBreakdown fl
    pub idx : ℤ
    pub counted : Bool
    pub entry : Option MemberEntry

  module _ (sv : Server) where
    abbrev pub level_result : Payload fl → Accepted → Bool → PlayerLevelResult fl
    level_result p a replaces = record {
      result_id = p.result_id;
      started_at = if ltb_ℤ sv.now p.started_at then sv.now else p.started_at;
      count_play = not (has_session a.session) && not replaces;
      completed = p.completed;
      finished_at = a.finished;
      elapsed = a.elapsed;
      score = a.bd.score;
      wrong = p.wrong_placements;
    }

    abbrev response_of : Accepted → Player → ℕ → Standing → Text → SubmitResponse fl
    response_of a p round_score place promoted_to = record {
      breakdown = a.bd;
      round_score = round_score;
      group_rank = place.rank;
      group_size = place.size;
      zone = place.zone;
      tier = a.tier.id;
      round_index = a.idx;
      tier_points = p.tier_points;
      promo_score = promo_score_of a.tier;
      promoted_to = promoted_to;
      verified = has_session a.session;
      counted = a.counted;
      server_time = sv.now;
    }

    -- The promotion by score, of a counted and completed game.
    unfoldable pub promote_stage :
        World fl
        → Payload fl
        → Accepted
        → Player
        → ℕ × Standing
        → Fallible LeagueError (World fl × Text)
    promote_stage w p a player (round_score, place) =
        let promoted =
          promote_by_score fl sv w player a.tier a.idx
            (reread w.league.entries player.id a.tier.id a.idx a.entry) place.size place.rank in
        if (p.completed && a.counted) && reaches_promo a.tier player.tier_points
        then promoted
        else done (w, [])

    -- The end of the transaction: the response is stored with the result.
    unfoldable pub respond :
        World fl
        → Text
        → Payload fl
        → Accepted
        → Fallible LeagueError (World fl × SubmitResponse fl)
    respond w id p a = do
      player ← player_of w.league.players id
      (w1, (round_score, place)) ← standing_of fl sv w id a.tier a.idx a.entry
      (w2, promoted_to) ← promote_stage w1 p a player (round_score, place)
      let body = response_of a player round_score place promoted_to
      done (record w2 { results = set_response fl w2.results p.result_id body }, body)

    -- What follows the record of the result.
    unfoldable pub credit :
        World fl
        → Text
        → Payload fl
        → Accepted
        → Bool
        → Fallible LeagueError (World fl × SubmitResponse fl)
    credit w id p a replaces =
        let levelled = record w {
          player_levels = apply_result fl w.player_levels id a.level.id (level_result p a replaces);
        } in
        let completed =
          apply_completed fl sv levelled id a.tier a.idx a.level p a.bd a.elapsed a.par_seconds
            a.finished (has_session a.session) a.counted in
        (if p.completed then completed else done levelled) >>= λ w'. respond w' id p a
