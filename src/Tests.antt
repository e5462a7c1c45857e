-- ===== src/Tests.antt =====
-- Runs of the definitions on concrete inputs: a level of the catalogue, the
-- shipped configuration of the league, and small groups.
mod Data
mod Puzzles
mod Ladders
mod Calendars
mod Groups
mod Robots
mod Absences
mod Standings
mod Closings
mod Freezes
mod Memberships
mod Closers
mod Friendships
mod Names
mod Games
