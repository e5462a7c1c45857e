-- ===== src/Anomaly.antt =====
-- server/internal/service/service.go: `flag`, which adds an anti-cheat signal and its weight to the
-- anomaly score of a player, and server/internal/service/league.go: `refreshExclusion`, with
-- `DecayAnomaly` (domain/types.go) and the store operations on the three columns (store/sqlite/misc.go:
-- `ReadAnomaly`, `WriteAnomaly`). The texts that a signal carries are left out.
pub mod Signalled
use queens.Prelude.{
  Bool, true, false, not, ◌||◌, Option, none, some, List, [], ◌∷◌, map, if◌then◌else◌,
}
use queens.Prelude.Fallible.{Fallible, fail, done}
use queens.Prelude.Int.{ℤ, pos, leb_ℤ, ◌-ℤ◌}
use queens.Prelude.Text.{Text, text_eq}
use queens.Float.{Float64}
use queens.Absence.{LeagueError, not_found}

-- The columns of `players` that the score stands in.
pub record AnomalyRow (fl : Float64) : Type 0 where
  pub player_id : Text
  pub score : fl.Float
  pub updated_at : ℤ
  pub shadow_excluded : Bool

pub record Flag (fl : Float64) : Type 0 where
  pub player_id : Text
  pub signal : Text
  pub weight : fl.Float
  pub created_at : ℤ

pub record Signals (fl : Float64) : Type 0 where
  pub flags : List (Flag fl)
  pub scores : List (AnomalyRow fl)

module _ (fl : Float64) where
  abbrev half_life : fl.Float
  half_life = fl.lit 2592000 0

  abbrev shadow_at : fl.Float
  shadow_at = fl.lit 15 0

  abbrev clear_at : fl.Float
  clear_at = fl.lit 5 0

  -- `pow2(-float64(now-updatedAt) / AnomalyHalfLife)` times the score.
  unfoldable pub decay_anomaly : fl.Float → ℤ → ℤ → fl.Float
  decay_anomaly score updated_at now =
      let exponent = fl.div (fl.of_int (updated_at -ℤ now)) half_life in
      if (fl.le score (fl.lit 0 0) || leb_ℤ updated_at (pos 0)) || leb_ℤ now updated_at
      then score
      else fl.mul score (fl.pow (fl.lit 2 0) exponent)

  unfoldable pub read_anomaly : List (AnomalyRow fl) → Text → Option (AnomalyRow fl)
  read_anomaly [] id = none
  read_anomaly (r ∷ rs) id = if text_eq r.player_id id then some r else read_anomaly rs id

  unfoldable pub anomaly_row : Text → fl.Float → ℤ → Bool → AnomalyRow fl → AnomalyRow fl
  anomaly_row id score updated_at shadow r =
      if text_eq r.player_id id
      then record r { score = score; updated_at = updated_at; shadow_excluded = shadow }
      else r

  abbrev write_anomaly : List (AnomalyRow fl) → Text → fl.Float → ℤ → Bool → List (AnomalyRow fl)
  write_anomaly rs id score updated_at shadow = map (anomaly_row id score updated_at shadow) rs

  unfoldable pub flag_found :
      ℤ
      → Text
      → Text
      → fl.Float
      → Signals fl
      → Option (AnomalyRow fl)
      → Fallible LeagueError (Signals fl)
  flag_found now id signal weight st none = fail not_found
  flag_found now id signal weight st (some r) =
      let next = fl.add (decay_anomaly r.score r.updated_at now) weight in
      let shadow = r.shadow_excluded || fl.le shadow_at next in
      done (record {
        flags =
            record { player_id = id; signal = signal; weight = weight; created_at = now }
            ∷ st.flags;
        scores = write_anomaly st.scores id next now shadow;
      })

  unfoldable pub flag : ℤ → Text → Text → fl.Float → Signals fl → Fallible LeagueError (Signals fl)
  flag now id signal weight st = flag_found now id signal weight st (read_anomaly st.scores id)

  unfoldable pub refresh_found :
      ℤ → Text → Signals fl → Option (AnomalyRow fl) → Fallible LeagueError (Signals fl × Bool)
  refresh_found now id st none = fail not_found
  refresh_found now id st (some r) =
      let cleared = record st { scores = write_anomaly st.scores id r.score r.updated_at false } in
      if fl.le clear_at (decay_anomaly r.score r.updated_at now)
      then done (st, true)
      else done (cleared, false)

  -- `excluded` is the flag of the player as it was read; the answer is the flag now.
  unfoldable pub refresh_exclusion :
      ℤ → Text → Bool → Signals fl → Fallible LeagueError (Signals fl × Bool)
  refresh_exclusion now id excluded st =
      if not excluded then done (st, false) else refresh_found now id st (read_anomaly st.scores id)
