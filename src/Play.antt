-- ===== src/Play.antt =====
-- server/internal/service/play.go: `StartGame`, which starts a game on a level and issues its session, in
-- one transaction on the database.
pub mod Locked
use queens.Prelude.{
  ℕ, zero, suc, ◌+◌, ◌-◌, ◌*◌, ◌/◌, ◌%◌, ◌^◌, ◌≤◌, ◌<◌, min, max, ◌≡◌, refl, sym, ap, ap₂, subst,
  ◌∙◌, ◌≢◌, ◌↔◌, ◌⊎◌, inl, inr, Bool, true, false, not, ◌&&◌, ◌||◌, Option, none, some, List, [],
  ◌∷◌, ◌++◌, map, arith, dec_lt, ℕ_discrete, ltb, leb, ◌==◌, if◌then◌else◌, ltb→lt, lt→ltb, leb→le,
  ==_iff, Bool-cases, Option-cases, length, get_elem?, set, length-append, length-set, get_or, take,
  drop, replicate, length-take, length-drop, length-replicate, length-map, take-append-drop, All,
  sum, some-eq, if_true, if_false, and_false_left, and_false_right, and_true, both_true,
}
use queens.Prelude.Fallible.{Fallible, fail, done}
use queens.Prelude.Int.{ℤ, pos, ltb_ℤ, ◌-ℤ◌, ◌+ℤ◌}
use queens.Prelude.Text.{Text, bytes}
use queens.Float.{Float64}
use queens.League.{Tier, LeagueConfig}
use queens.Round.{has_rounds, round_index, round_start, round_end}
use queens.Absence.{Player, LeagueError, not_found, known_tier}
use queens.Anomaly.{Signals, read_anomaly, flag, refresh_exclusion}
use queens.Freeze.{Round, ensure_round_row}
use queens.Membership.{Joining, ensure_membership}
use queens.GroupTable.{GroupRow, MemberEntry, RoundsPlayed, FriendLink, Tables}
use queens.Closer.{LeagueTables, Names}
use queens.CatchUp.{catch_up}
use queens.Sessions.{Session, find_reusable, session_token}
use queens.Levels.{
  Level, PlayerLevel, par, get_level, get_player_level, record_start, cooldown_remaining,
}
use queens.Results.{Result}
use queens.Bests.{LevelBest, FlawlessBest}
use queens.Transaction.{
  Attempt, ok, refused, kept, try, chain, in_tx, ApiError, coded, level_unknown, level_locked,
}
use queens.World.{PlayerStats, OpeningsCache, World, Server, with_tables, tables_of}

abbrev group_of : Option MemberEntry → Text
group_of none = []
group_of (some m) = m.group_id

abbrev is_some : {A : Type 0} → Option A → Bool
is_some none = false
is_some (some a) = true

abbrev pub sig_cooldown_violation : Text
sig_cooldown_violation = bytes "cooldown_violation_attempt"

module _ (fl : Float64) where
  pub record StartGameResult : Type 0 where
    pub round_index : ℤ
    pub group_id : Text
    pub joined : Bool
    pub tier : Text
    pub locked_until : ℤ
    pub token : Text
    pub issued_at : ℤ
    pub expires_at : ℤ
    pub par_seconds : fl.Float
    pub server_time : ℤ
    pub reissued : Bool

  -- `p.ShadowExcluded`
  unfoldable pub is_excluded : World fl → Text → Bool
  is_excluded w id = elim (read_anomaly fl w.signals.scores id) [
    | none ↦ false
    | some r ↦ r.shadow_excluded
  ]

  module _ (sv : Server) where
    -- `ensureRound`
    unfoldable pub ensure_round : World fl → Tier → ℤ → World fl
    ensure_round w t idx =
        let rounds =
          ensure_round_row w.league.rounds t.id idx (round_start t idx) (round_end t idx) sv.now in
        record w { league = record w.league { rounds = rounds } }

    -- The membership of a player in a tier with rounds; `excluded` is the flag of the player that the
    -- catch-up has read.
    unfoldable pub join_tier :
        World fl → Text → Bool → Tier → ℤ → Text → Attempt (World fl) (Option MemberEntry)
    join_tier w id excluded t idx prefer =
        try
          (ensure_membership fl sv.league w.signals (tables_of fl w) id excluded t idx prefer
            sv.now)
          (λ j. ok (with_tables fl (record w { signals = j.signals }) j.tables) (some j.entry))

    -- The exclusion alone, in a tier without rounds.
    unfoldable pub join_none : World fl → Text → Attempt (World fl) (Option MemberEntry)
    join_none w id =
        try (refresh_exclusion fl sv.now id (is_excluded w id) w.signals)
          (λ r. ok (record w { signals = r.0 }) none)

    -- The closure `join`. No signal comes between the catch-up and its call, so the flag that was read is
    -- still the one of the table.
    unfoldable pub join : World fl → Text → Tier → ℤ → Attempt (World fl) (Option MemberEntry)
    join w id t idx =
        if not (has_rounds t) then join_none w id else join_tier w id (is_excluded w id) t idx []

    unfoldable pub start_result :
        Player → Level fl → Session → Option MemberEntry → ℤ → Bool → StartGameResult
    start_result p lv s m idx reissued = record {
      round_index = idx;
      group_id = group_of m;
      joined = is_some m;
      tier = p.tier;
      locked_until = sv.now +ℤ sv.cooldown_seconds;
      token = session_token sv.mac sv.token_pepper s.id;
      issued_at = s.issued_at;
      expires_at = s.expires_at;
      par_seconds = par fl lv;
      server_time = sv.now;
      reissued = reissued;
    }

    abbrev new_session : Text → Text → Tier → ℤ → Option MemberEntry → Text → Session
    new_session id level t idx m version = record {
      id = sv.new_session_id;
      player_id = id;
      level_id = level;
      issued_at = sv.now;
      expires_at = sv.now +ℤ sv.session_ttl;
      consumed_at = none;
      result_id = none;
      tier_at_issue = t.id;
      round_index_at_issue = idx;
      group_id = group_of m;
      client_version = version;
    }

    -- The start is recorded and the session is minted.
    unfoldable pub mint :
        World fl → Player → Level fl → Tier → ℤ → Text → Attempt (World fl) StartGameResult
    mint w p lv t idx version =
        let started = record w {
          player_levels = record_start fl w.player_levels p.id lv.id sv.now;
        } in
        chain (join started p.id t idx) (λ joined m.
          let s = new_session p.id lv.id t idx m version in
          ok (record joined { sessions = s ∷ joined.sessions }) (start_result p lv s m idx false))

    -- A level that is locked for `remaining` seconds; more than a minute is flagged, and the flag is
    -- kept.
    unfoldable pub reject_locked : World fl → Text → ℤ → Attempt (World fl) StartGameResult
    reject_locked w id remaining =
        let error = coded 409 level_locked (remaining ∷ []) in
        if ltb_ℤ (pos 60) remaining
        then try (flag fl sv.now id sig_cooldown_violation (fl.lit 3 0) w.signals)
            (λ signals. kept (record w { signals = signals }) error)
        else refused error

    -- The seconds that a level is locked for; 0 for a level that the player never started.
    abbrev pub locked_for : Option (PlayerLevel fl) → ℤ
    locked_for none = pos 0
    locked_for (some r) = cooldown_remaining r.last_started_at sv.now sv.cooldown_seconds

    unfoldable pub start_fresh :
        World fl → Player → Level fl → Tier → ℤ → Text → Attempt (World fl) StartGameResult
    start_fresh w p lv t idx version =
        let remaining = locked_for (get_player_level fl w.player_levels p.id lv.id) in
        if ltb_ℤ (pos 0) remaining
        then reject_locked w p.id remaining
        else mint w p lv t idx version

    -- An open session of the level is handed back.
    unfoldable pub start_with :
        World fl
        → Player
        → Level fl
        → Tier
        → ℤ
        → Text
        → Option Session
        → Attempt (World fl) StartGameResult
    start_with w p lv t idx version none = start_fresh w p lv t idx version
    start_with w p lv t idx version (some s) =
        chain (join w p.id t idx) (λ joined m. ok joined (start_result p lv s m idx true))

    -- After the catch-up.
    unfoldable pub start_round :
        World fl → Player → Level fl → Tier → Text → Attempt (World fl) StartGameResult
    start_round w p lv t version =
        let idx = queens.Round.round_index t sv.now in
        let ready = if has_rounds t then ensure_round w t idx else w in
        start_with ready p lv t idx version
          (find_reusable ready.sessions p.id lv.id (sv.now -ℤ sv.session_ttl))

    -- The closure of the transaction.
    unfoldable pub start_in_tx :
        Text → Level fl → Text → World fl → Attempt (World fl) StartGameResult
    start_in_tx id lv version w = try (catch_up fl sv.names sv.league sv.now id w.league) (λ c.
        try (known_tier sv.league c.1.tier)
          (λ t. start_round (record w { league = c.0 }) c.1 lv t version))

    unfoldable pub start_level :
        World fl → Text → Text → Option (Level fl) → World fl × Fallible ApiError StartGameResult
    start_level w id version none = (w, fail (coded 404 level_unknown []))
    start_level w id version (some lv) = in_tx w (start_in_tx id lv version)

    -- `StartGame` for the player `id` whose client has the version `version`.
    unfoldable pub start_game :
        World fl → Text → Text → Text → World fl × Fallible ApiError StartGameResult
    start_game w id level version = start_level w id version (get_level fl w.levels level)
