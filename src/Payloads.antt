-- ===== src/Payloads.antt =====
-- server/internal/service/play.go: the payload of `SubmitResult` and what the service does with it before
-- the result is recorded: the checks of its form, of its session, and of its numbers. A soft signal is
-- a flag and lets the result pass; the texts that flags carry are left out.
pub mod Untouched
pub mod Spent
use queens.Prelude.{
  ℕ, zero, suc, ◌+◌, ◌-◌, ◌*◌, ◌/◌, ◌%◌, ◌^◌, ◌≤◌, ◌<◌, min, max, ◌≡◌, refl, sym, ap, ap₂, subst,
  ◌∙◌, ◌≢◌, ◌↔◌, ◌⊎◌, inl, inr, Bool, true, false, not, ◌&&◌, ◌||◌, Option, none, some, List, [],
  ◌∷◌, ◌++◌, map, arith, dec_lt, ℕ_discrete, ltb, leb, ◌==◌, if◌then◌else◌, ltb→lt, lt→ltb, leb→le,
  ==_iff, Bool-cases, Option-cases, length, get_elem?, set, length-append, length-set, get_or, take,
  drop, replicate, length-take, length-drop, length-replicate, length-map, take-append-drop, All,
  sum, some-eq, if_true, if_false, and_false_left, and_false_right, and_true, both_true,
}
use queens.Prelude.Fallible.{Fallible, fail, done, ◌>>=◌}
use queens.Prelude.Int.{ℤ, pos, ltb_ℤ, leb_ℤ, is_neg, ◌-ℤ◌}
use queens.Prelude.Text.{Text, bytes, text_eq}
use queens.Float.{Float64}
use queens.League.{Tier, LeagueConfig, is_empty}
use queens.Group.{eqb_ℤ}
use queens.Absence.{LeagueError}
use queens.Anomaly.{flag}
use queens.Sessions.{Session, get_session, consume, spent_by}
use queens.Levels.{Level, PlayerLevel, get_player_level, elapsed_floor}
use queens.Transaction.{
  Attempt, ok, refused, kept, try, chain, ApiError, coded, session_invalid, session_expired,
  session_used, session_mismatch, result_invalid,
}
use queens.Play.{sig_cooldown_violation}
use queens.World.{World, Server}

-- 30 days.
abbrev pub session_acceptance : ℤ
session_acceptance = pos 2592000

module _ (fl : Float64) where
  pub record Payload : Type 0 where
    pub result_id : Text
    pub player_id : Text
    pub level_id : Text
    pub size : ℤ
    pub difficulty : fl.Float
    pub stars : ℤ
    pub par_seconds : fl.Float
    pub started_at : ℤ
    pub finished_at : ℤ
    pub elapsed_seconds : fl.Float
    pub completed : Bool
    pub queens_placed : ℤ
    pub wrong_placements : ℤ
    pub queens_removed : ℤ
    pub clear_count : ℤ
    pub hint_count : ℤ
    pub taps : ℤ
    pub score : ℤ
    pub session_token : Text

  -- A counter is negative.
  unfoldable pub is_malformed : Payload → Bool
  is_malformed p =
      (is_neg p.queens_placed || (is_neg p.wrong_placements || is_neg p.queens_removed))
      || ((is_neg p.clear_count || (is_neg p.hint_count || is_neg p.taps))
          || fl.lt p.elapsed_seconds (fl.lit 0 0))

  -- What the session says of a result.
  pub record SessionCheck : Type 0 where
    pub session : Option Session
    pub level_id : Text

  module _ (sv : Server) where
    -- A signal, when the test holds.
    unfoldable pub flag_when :
        Bool → World fl → Text → Text → fl.Float → Fallible LeagueError (World fl)
    flag_when b w id signal weight =
        let signalled =
          flag fl sv.now id signal weight w.signals >>= λ s. done (record w { signals = s }) in
        if b then signalled else done w

    -- A signal that is kept while the request fails.
    unfoldable pub flag_and_fail :
        {A : Type 0} → World fl → Text → Text → fl.Float → ApiError → Attempt (World fl) A
    flag_and_fail w id signal weight error =
        try (flag_when true w id signal weight) (λ w'. kept w' error)

    -- A session that backs the result; the signals that it still gives.
    unfoldable pub accept_session :
        World fl → Text → Payload → Session → Attempt (World fl) SessionCheck
    accept_session w player p s =
        try
          (flag_when (not (text_eq s.level_id p.level_id)) w player (bytes "session_level_mismatch")
              (fl.lit 2 0)
            >>= λ w'.
                flag_when (ltb_ℤ sv.session_ttl (sv.now -ℤ s.issued_at)) w' player
                  (bytes "session_stale") (fl.lit 1 0))
          (λ w'. ok w' (record { session = some s; level_id = s.level_id }))

    unfoldable pub spend_session :
        World fl → Text → Payload → Session → List Session × Bool → Attempt (World fl) SessionCheck
    spend_session w player p s (sessions, consumed) =
        if not consumed && not (spent_by s p.result_id)
        then flag_and_fail w player (bytes "session_reuse") (fl.lit 2 0) (coded 409 session_used [])
        else accept_session (record w { sessions = sessions }) player p s

    unfoldable pub check_session :
        World fl → Text → Payload → Text → Option Session → Attempt (World fl) SessionCheck
    check_session w player p id none = refused (coded 422 session_invalid [])
    check_session w player p id (some s) =
        if not (text_eq s.player_id player)
        then flag_and_fail w player (bytes "payload_player_mismatch") (fl.lit 8 0)
            (coded 403 session_mismatch [])
        else if ltb_ℤ session_acceptance (sv.now -ℤ s.issued_at)
        then refused (coded 410 session_expired [])
        else spend_session w player p s (consume w.sessions id p.result_id sv.now)

    -- The level was started after the game, inside its cooldown.
    abbrev pub breaks_cooldown : Payload → Option (PlayerLevel fl) → Bool
    breaks_cooldown p none = false
    breaks_cooldown p (some r) =
        ltb_ℤ p.started_at r.last_started_at
        && ltb_ℤ (sv.now -ℤ r.last_started_at) sv.cooldown_seconds

    -- A result without a session.
    unfoldable pub no_session : World fl → Text → Tier → Payload → Attempt (World fl) SessionCheck
    no_session w player t p =
        try
          (flag_when (t.online_required && leb_ℤ sv.no_session_grace_until p.finished_at) w player
              (bytes "no_session") (fl.lit 8 0)
            >>= λ w'.
                flag_when
                  (breaks_cooldown p (get_player_level fl w.player_levels player p.level_id)) w'
                  player sig_cooldown_violation (fl.lit 3 0))
          (λ w'. ok w' (record { session = none; level_id = p.level_id }))

    -- The stage that decides on the session; an empty id stands for no session.
    unfoldable pub session_stage :
        World fl → Text → Tier → Payload → Text → Attempt (World fl) SessionCheck
    session_stage w player t p id =
        if is_empty id
        then no_session w player t p
        else check_session w player p id (get_session w.sessions id)

    -- |x|
    abbrev abs_float : fl.Float → fl.Float
    abs_float x = if fl.lt x (fl.lit 0 0) then fl.sub (fl.lit 0 0) x else x

    -- The client's level file differs from the level.
    unfoldable pub differs_from : Payload → Level fl → fl.Float → Bool
    differs_from p lv par =
        (not (eqb_ℤ p.size lv.size) || not (eqb_ℤ (fl.trunc p.difficulty) lv.difficulty))
        || (not (eqb_ℤ p.stars lv.stars)
            || (fl.lt (fl.lit 0 0) p.par_seconds
                && fl.lt (fl.lit 1 3) (abs_float (fl.sub p.par_seconds par))))

    -- `finished`: the claimed end, at most now.
    abbrev pub finished_of : Payload → ℤ
    finished_of p = if ltb_ℤ sv.now p.finished_at then sv.now else p.finished_at

    -- The time that can have passed.
    unfoldable pub wall_of : Payload → Option Session → ℤ
    wall_of p (some s) = sv.now -ℤ s.issued_at
    wall_of p none =
        let finished = finished_of p in
        if ltb_ℤ p.started_at finished then finished -ℤ p.started_at else pos 0

    -- The upper bound of the clamp, at least its lower bound.
    unfoldable pub upper_of : fl.Float → ℤ → fl.Float
    upper_of floor wall =
        let upper = fl.add (fl.of_int wall) (fl.lit 2 0) in
        let day = if fl.lt (fl.lit 86400 0) upper then fl.lit 86400 0 else upper in
        if fl.lt day floor then floor else day

    -- The elapsed time that is scored.
    unfoldable pub clamp_elapsed : fl.Float → fl.Float → fl.Float → fl.Float
    clamp_elapsed floor upper elapsed =
        if fl.lt elapsed floor then floor else if fl.lt upper elapsed then upper else elapsed

    unfoldable pub flag_elapsed :
        World fl → Text → fl.Float → fl.Float → fl.Float → Fallible LeagueError (World fl)
    flag_elapsed w player floor upper elapsed =
        if fl.lt elapsed floor
        then flag_when true w player (bytes "elapsed_below_floor") (fl.lit 5 0)
        else flag_when (fl.lt upper elapsed) w player (bytes "elapsed_above_wall") (fl.lit 2 0)

    -- A completed result that cannot be.
    unfoldable pub is_impossible : Payload → Level fl → ℤ → fl.Float → Bool
    is_impossible p lv finished elapsed =
        (ltb_ℤ p.queens_placed lv.size
          || (ltb_ℤ p.taps p.queens_placed || ltb_ℤ p.queens_placed p.wrong_placements))
        || ((ltb_ℤ lv.size p.hint_count || fl.lt (fl.lit 86400 0) p.elapsed_seconds)
            || ltb_ℤ (finished -ℤ p.started_at) (fl.trunc elapsed -ℤ pos 2))

    -- The numbers of a result that passes, with the elapsed time.
    unfoldable pub reject_impossible :
        World fl → Text → Payload → Level fl → ℤ → fl.Float → Attempt (World fl) (Unit {0})
    reject_impossible w player p lv finished elapsed =
        let early = ltb_ℤ (pos 0) p.finished_at && ltb_ℤ p.finished_at p.started_at in
        if p.completed && is_impossible p lv finished elapsed
        then refused (coded 422 result_invalid [])
        else try
            (flag_when (not p.completed && early) w player (bytes "finished_before_started")
              (fl.lit 4 0))
            (λ w'. ok w' tt)
