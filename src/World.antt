-- ===== src/World.antt =====
-- The database of the server (store/store.go `Repos`), as a record of its tables, and what the service holds
-- (service/service.go): the configuration, the clock and what comes from other packages.
use queens.Prelude.{ℕ, List}
use queens.Prelude.Int.{ℤ}
use queens.Prelude.Text.{Text}
use queens.Float.{Float64}
use queens.League.{LeagueConfig}
use queens.Anomaly.{Signals}
use queens.GroupTable.{RoundsPlayed, FriendLink, Tables}
use queens.Closer.{LeagueTables, Names}
use queens.Sessions.{Session}
use queens.Levels.{Level, PlayerLevel}
use queens.Results.{Result}
use queens.Bests.{LevelBest, FlawlessBest}

-- The counters of a row of `players`.
pub record PlayerStats : Type 0 where
  pub player_id : Text
  pub games : ℕ
  pub flawless : ℕ
  pub best_score : ℤ
  pub perfect_streak : ℕ

-- The cache of the promotions of an openings tier (`openingsCache`); a rollback keeps it in the program.
pub record OpeningsCache : Type 0 where
  pub tier : Text
  pub value : ℤ
  pub computed : ℤ

pub record World (fl : Float64) : Type 0 where
  pub league : LeagueTables
  pub played : List RoundsPlayed
  pub friends : List FriendLink
  pub signals : Signals fl
  pub sessions : List Session
  pub levels : List (Level fl)
  pub player_levels : List (PlayerLevel fl)
  pub results : List (Result fl)
  pub bests : List (LevelBest fl)
  pub flawless_bests : List (FlawlessBest fl)
  pub stats : List PlayerStats
  pub openings : OpeningsCache

pub record Server : Type 0 where
  pub names : Names
  pub league : LeagueConfig
  pub token_pepper : Text
  pub cooldown_seconds : ℤ
  pub session_ttl : ℤ
  pub no_session_grace_until : ℤ
  -- The clock.
  pub now : ℤ
  -- The id that the random source gives a new session.
  pub new_session_id : Text
  pub mac : Text → Text → Text

module _ (fl : Float64) where
  abbrev pub with_tables : World fl → Tables → World fl
  with_tables w t = record w {
    league = record w.league { rounds = t.rounds; groups = t.groups; entries = t.entries };
    played = t.played;
    friends = t.friends;
  }

  abbrev pub tables_of : World fl → Tables
  tables_of w = record {
    rounds = w.league.rounds;
    groups = w.league.groups;
    entries = w.league.entries;
    played = w.played;
    friends = w.friends;
  }
