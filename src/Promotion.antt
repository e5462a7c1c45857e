-- ===== src/Promotion.antt =====
-- server/internal/service/play.go: `promoteByScore`, with the store operations that it calls
-- (store/sqlite/league.go `MarkMemberLeft`, store/sqlite/players.go `SetTier`).
use queens.Prelude.{
  ℕ, Bool, false, ◌&&◌, ◌||◌, Option, none, some, List, [], ◌∷◌, map, if◌then◌else◌,
}
use queens.Prelude.Fallible.{Fallible, fail, done, ◌>>=◌}
use queens.Prelude.Int.{ℤ}
use queens.Prelude.Text.{Text, bytes, text_eq}
use queens.Float.{Float64}
use queens.League.{Tier, promoted, promote_tier}
use queens.Round.{has_rounds, round_start, round_end}
use queens.Absence.{Player, Summary, LeagueError, retry, known_tier, insert_summary}
use queens.Closing.{update_tier}
use queens.GroupTable.{MemberEntry, is_entry}
use queens.World.{World, Server}

-- `MarkMemberLeft`
unfoldable pub left_entry : Text → Text → ℤ → ℤ → MemberEntry → MemberEntry
left_entry id tier idx now e = if is_entry id tier idx e then record e { left_at = some now } else e

-- A player's tier is in the table.
unfoldable pub has_tier : List Player → Text → Text → Bool
has_tier [] id tier = false
has_tier (p ∷ ps) id tier = (text_eq p.id id && text_eq p.tier tier) || has_tier ps id tier

module _ (fl : Float64) (sv : Server) where
  abbrev pub reason_score : Text
  reason_score = bytes "score"

  abbrev pub promotion_summary : Player → Tier → ℤ → Text → Option MemberEntry → ℕ → ℕ → Summary
  promotion_summary p t idx above m size rank = record {
    player_id = p.id;
    tier_before = t.id;
    round_index = idx;
    tier_after = above;
    outcome = promoted;
    reason = reason_score;
    rank = rank;
    group_size = size;
    round_score = elim m [ none ↦ 0 | some e ↦ e.round_score ];
    tier_points = p.tier_points;
    created_at = sv.now;
  }

  -- The move, after the summary is stored and the new tier is read.
  unfoldable pub move_promoted :
      World fl
      → Player
      → Tier
      → ℤ
      → Tier
      → List Summary
      → Option MemberEntry
      → Fallible LeagueError (World fl)
  move_promoted w p t idx above summaries m =
      let settled = round_start above (queens.Round.round_index above sv.now) in
      let players = update_tier w.league.players p.id t.id above.id sv.now settled in
      let entries = elim m as (λ _. List MemberEntry) [
        | none ↦ w.league.entries
        | some e ↦ map (left_entry p.id t.id idx sv.now) w.league.entries
      ] in
      if has_tier w.league.players p.id t.id
      then done (record w {
        league = record w.league { players = players; summaries = summaries; entries = entries };
      })
      else fail retry

  -- `promoteByScore`: the tier that the player is promoted to, empty at the top of the ladder.
  unfoldable pub promote_by_score :
      World fl
      → Player
      → Tier
      → ℤ
      → Option MemberEntry
      → ℕ
      → ℕ
      → Fallible LeagueError (World fl × Text)
  promote_by_score w p t idx m size rank =
      let above = promote_tier sv.league t.id in
      let stored =
        insert_summary w.league.summaries (promotion_summary p t idx above m size rank) in
      let moved = known_tier sv.league above >>= λ a.
      move_promoted w p t idx a stored.0 m >>= λ w'. done (w', above) in
      if text_eq above t.id then done (w, []) else moved
