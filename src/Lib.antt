-- ===== src/Lib.antt =====
-- The server of a puzzle game with leagues, in Go (server/internal). Players solve boards of the queens
-- puzzle; their game scores add up to a round score, and at the end of a round the groups of a league
-- tier are ranked, and members move up and down a ladder of tiers.
--
-- Parts, by file:
-- - Board (server/internal/domain/board.go): `validate_board` is `ValidateBoard` and `count_solutions`
--   is `countSolutions`, whose closure `rec` is three definitions: `rec` for a row, `columns` for its
--   loop and `visit` for the loop's body, over the state `Search` of the two flag arrays and the
--   counter. `Board.Rules` says independently what a puzzle is.
-- - League (league.go): the configuration with its defaults, the ladder (`promote_tier`,
--   `relegate_tier`) and the outcomes of a round (`apply`).
-- - Round (scoring.go `floorDiv` and weeks, league.go rounds): the calendar.
-- - Scores (league.go): `round_score` and `cut_score`.
-- - Group (league.go): `Member`, its order, `counts` and `evaluate`. It takes the round scores of its
--   members and calls `League` for the promotion score of its tier.
-- - Slots (league.go): the size of the capped top tier and its openings, which `counts` takes.
-- - Bots (league.go): the bots that fill a group, whose progress is a function of a seed and the clock.
-- - Score (scoring.go): the score of a single game, `breakdown`, over the interface of floats.
-- - Absence (server/internal/service/league.go `catchUp`, its second step, with `SetTier` and
--   `InsertSummary` of the store): the rounds that a player was absent for. It calls League and Round.
-- - Standing (service/league.go `placeMember`, service/standing.go `zoneFor`, the ranking queries of
--   server/internal/store/sqlite/league.go): the place of a member of a global group, `place_global`.
-- - Closing (service/league.go `closeGroup` with the store operations that it calls): the settling of
--   a group's members at the end of a round, over the rows of players, members and summaries. It
--   takes the evaluation of the group, which `Group` computes.
-- - Freeze (service/league.go `claimRound`, `freezeCounts`, with the table of rounds): who owns the
--   closing of a round, and the population counts that are fixed for it. It calls Slots.
-- - Anomaly (service/service.go `flag`, service/league.go `refreshExclusion`): the anti-cheat score.
-- - GroupTable (store/sqlite/league.go): the tables of groups and memberships.
-- - Membership (service/league.go `ensureMembership`, over GroupTable): the seat
--   of a player in a group of the running round. It asks Anomaly whether the player is excluded.
-- - Closer (service/league.go `CloseRound`, `groupMembers`): the claim of a round by Freeze, its groups
--   settled by Closing, and its finish; each transaction of the code is a step on the tables.
-- - CatchUp (service/league.go `catchUp`, `closeRoundInTx`): what a request settles before it goes on: the
--   due rounds of the player's tier by Freeze and Closer, then the missed rounds by Absence.
-- - Transaction (store/sqlite/db.go `InTx`, store/store.go `CommitAndFail`, domain/errors.go): a closure on
--   the database that commits, is rolled back, or commits and fails, with its attempts.
-- - Sessions (store/sqlite/sessions.go, server/internal/auth/auth.go): the table of sessions, each of which
--   backs one result, and the signed tokens that carry a session's id.
-- - Friends (server/internal/service/friends.go, store/sqlite/misc.go): who follows whom, on `Network`, the
--   tables that friends need and the counter of probed codes.
-- - Nickname (server/internal/domain/nickname.go): the names that players give themselves.
-- - Levels (store/sqlite/levels.go, domain/types.go): the levels and a player's state on each.
-- - Results (store/sqlite/results.go) and Bests (store/sqlite/bests.go): the tables of results and of the
--   best runs.
-- - World (store/store.go `Repos`, service/service.go `Service`): the database as a record of its tables, and
--   what the service holds.
-- - Play (server/internal/service/play.go `StartGame`): the start of a game, on the whole database:
--   CatchUp, then Membership, Levels and Sessions, in one transaction.
-- - Payloads (play.go `submitInTx`): what is checked of a submitted result: its session, its level, its
--   time; suspicious values raise the score of Anomaly.
-- - Credit (play.go `checkCeiling`, `applyCompleted`): what a completed game adds to the counters, the boards
--   and the league.
-- - Promotion (play.go `promoteByScore`): the move to the next tier by points.
-- - Placing (service/league.go `placeMember`, service/service.go `upCountFor`): where the player stands.
-- - Answers (play.go, the end of `submitInTx`): the response that is stored with the result; it calls Credit,
--   Promotion and Placing.
-- - Submit (play.go `SubmitResult`, `submitInTx`): the submission of a result, which composes CatchUp,
--   Payloads, Score, Membership, Credit and Answers in one transaction, with the replay of a stored answer.
-- - Float: Go's `float64` as an interface, with exact fractions as the instance of the examples.
-- - Prelude: strings as bytes (`Text`), `(T, error)` (`Fallible`), signed integers
--   (`Int`), the trimming of spaces (`Runes`), sorting (`Sort`), lists and tests.
-- - Tests: the definitions on concrete inputs.
--
-- Numbers: sizes, counts and scores that the code keeps non-negative are ℕ, all others ℤ. Neither
-- wraps: instants, seeds and configured numbers are far below 2^63, and the product of the
-- pseudo-random step has a bound here. Go's `/` and `%` on signed numbers are `quot` and `rem`.
--
-- Loops: each is a structural recursion, on the list that it runs over or on the number of iterations
-- that are left (`columns`, `rec`, `bot_games`, `walk_down`, whose number of steps is the code's own),
-- so there is no fuel, but for the loop of `close_round`: it runs until no group is open, and fuel for
-- two passes is enough, since the first closes every group that was listed. `in_tx_from` counts the
-- attempts of a transaction, at most three. `sort.Slice` is insertion sort: the order of members is total
-- on players with different ids, so every sort gives one result.
--
-- Given from outside: the tables of Unicode, the mac of a session token, the hash of a payload, the
-- random id of a new session and the clock. A table is a list of rows with the columns that the code
-- reads; ids that the random source makes are new, so an insert under such an id is not refused.
--
-- Not modelled: the views of the league, boards, devices; the clean-up of old rows; the
-- HTTP layer and its rate limits; JSON, whose records the definitions start from and end with; the
-- details of a signal; the index of levels in memory, which is a lookup in the table; failures of the
-- database itself; the Godot client.
pub mod Prelude
pub mod Board
pub mod League
pub mod Round
pub mod Scores
pub mod Float
pub mod Group
pub mod Slots
pub mod Bots
pub mod Score
pub mod Absence
pub mod Standing
pub mod Closing
pub mod Anomaly
pub mod Freeze
pub mod GroupTable
pub mod Membership
pub mod Closer
pub mod Nickname
pub mod Friends
pub mod CatchUp
pub mod Transaction
pub mod Sessions
pub mod Levels
pub mod Results
pub mod Bests
pub mod World
pub mod Play
pub mod Payloads
pub mod Credit
pub mod Promotion
pub mod Placing
pub mod Answers
pub mod Submit
pub mod Tests
