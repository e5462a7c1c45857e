-- ===== src/Tests/Robots.antt =====
-- A bot of the gold tier over a week.
use queens.Prelude.{◌*◌, ◌^◌, ◌≤◌, ◌<◌, arith, length}
use queens.Prelude.Int.{ℤ, pos, ◌≤ℤ◌, ◌<ℤ◌, ◌+ℤ◌, ◌-ℤ◌}
use queens.League.{with_defaults}
use queens.Round.{rem}
use queens.Bots.{pm, posmod, plan, plays_at, bot_games, bot_progress, games_max_of, game_score_of}
use queens.Bots.Stream.{IsState, pm-IsState}
use queens.Bots.Progress.{bot_progress_in_round, bot_progress_games, bot_progress_mono}
use queens.Tests.Data.{config, gold}

abbrev week_start : ℤ
week_start = pos 1754265600

abbrev week_end : ℤ
week_end = pos 1754870400

abbrev noon : ℤ
noon = pos 1754568000

pm-IsState_example : IsState (pm 2147483646) × (2147483646 * 48271 < 2 ^ 63)
pm-IsState_example = pm-IsState 2147483646 (omega arith, omega arith)

has_played : 0 < (bot_progress gold config (pos 77) week_start week_end noon).games
unfolding bot_progress plan pm posmod rem games_max_of game_score_of bot_games plays_at ◌+ℤ◌ ◌-ℤ◌
has_played = omega arith

bot_progress_in_round_example :
    (week_start ≤ℤ (bot_progress gold config (pos 77) week_start week_end noon).last_submit_at)
    × ((bot_progress gold config (pos 77) week_start week_end noon).last_submit_at <ℤ week_end)
    × ((bot_progress gold config (pos 77) week_start week_end noon).last_submit_at ≤ℤ noon)
bot_progress_in_round_example =
    bot_progress_in_round gold config (pos 77) week_start week_end noon (omega arith) has_played

bot_progress_games_example :
    (bot_progress gold config (pos 77) week_start week_end noon).games ≤ games_max_of gold
bot_progress_games_example = bot_progress_games gold config (pos 77) week_start week_end noon

bot_progress_mono_example :
    ((bot_progress gold config (pos 77) week_start week_end noon).games
      ≤ (bot_progress gold config (pos 77) week_start week_end week_end).games)
    × ((bot_progress gold config (pos 77) week_start week_end noon).round_score
        ≤ (bot_progress gold config (pos 77) week_start week_end week_end).round_score)
    × ((bot_progress gold config (pos 77) week_start week_end noon).last_submit_at
        ≤ℤ (bot_progress gold config (pos 77) week_start week_end week_end).last_submit_at)
bot_progress_mono_example =
    bot_progress_mono gold config (pos 77) week_start week_end noon week_end (omega arith)
      (omega arith)

three_names : 0 < length config.bot_names
unfolding with_defaults
three_names = omega arith
