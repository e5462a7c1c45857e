-- ===== src/CatchUp.antt =====
-- server/internal/service/league.go: `catchUp`, which settles what a player missed before a request
-- goes on, with `closeRoundInTx`: the rounds of the player's tier that are due are closed, then
-- Absence settles the rounds that the player was away.
use queens.Prelude.{none, some, List, [], ◌∷◌, map, if◌then◌else◌}
use queens.Prelude.Fallible.{Fallible, fail, done, ◌>>=◌}
use queens.Prelude.Int.{ℤ}
use queens.Prelude.Text.{Text, text_eq}
use queens.Float.{Float64}
use queens.League.{LeagueConfig}
use queens.Absence.{Player, LeagueError, not_found, settle_absence}
use queens.Closing.{get_player}
use queens.Freeze.{Round, claim_round, due_rounds, finish_rows}
use queens.Closer.{LeagueTables, Names, open_groups, close_listed}

unfoldable pub player_of : List Player → Text → Fallible LeagueError Player
player_of ps id = elim (get_player ps id) [ none ↦ fail not_found | some p ↦ done p ]

-- The row of a player as the statements on it left it.
abbrev put_player : List Player → Player → List Player
put_player ps q = map (λ (p : Player). if text_eq p.id q.id then q else p) ps

module _ (fl : Float64) (names : Names) (cfg : LeagueConfig) where
  unfoldable pub close_round_in_tx : ℤ → LeagueTables → Round → Fallible LeagueError LeagueTables
  close_round_in_tx now w round =
      claim_round fl cfg now w.players w.rounds round.tier round.round_index >>= λ rounds.
      let claimed = record w { rounds = rounds } in
      close_listed fl names cfg round.tier round.round_index round.ends_at now
        (open_groups w.groups round.tier round.round_index) claimed
      >>= λ closed.
          done
            (record closed { rounds = finish_rows closed.rounds round.tier round.round_index now })

  -- The loop over the rounds that are due.
  unfoldable pub close_due : ℤ → LeagueTables → List Round → Fallible LeagueError LeagueTables
  close_due now w [] = done w
  close_due now w (r ∷ rs) = close_round_in_tx now w r >>= λ w'. close_due now w' rs

  -- The player afterwards, with the tables.
  unfoldable pub catch_up : ℤ → Text → LeagueTables → Fallible LeagueError (LeagueTables × Player)
  catch_up now id w = player_of w.players id >>= λ p.
      close_due now w (due_rounds w.rounds now p.tier) >>= λ closed.
      player_of closed.players id >>= λ q. settle_absence cfg now q closed.summaries >>= λ settled.
      done (
        record closed { players = put_player closed.players settled.0; summaries = settled.1 },
        settled.0,
      )
