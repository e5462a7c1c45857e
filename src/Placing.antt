-- ===== src/Placing.antt =====
-- Where a player stands for the response of a submission: server/internal/service/league.go
-- `placeMember`, service/service.go `upCountFor` and `cachedOpenings`, and their use in play.go.
use queens.Prelude.{ℕ, not, ◌&&◌, Option, none, some, List, [], ◌∷◌, if◌then◌else◌, length}
use queens.Prelude.Fallible.{Fallible, fail, done, ◌>>=◌}
use queens.Prelude.Int.{ℤ, pos, negsuc, ltb_ℤ, ◌-ℤ◌}
use queens.Prelude.Text.{Text, text_eq}
use queens.Float.{Float64}
use queens.League.{Tier, Zone, up_mode_openings, promote_tier}
use queens.Group.{Member, evaluate}
use queens.Slots.{openings}
use queens.Absence.{LeagueError, not_found, known_tier}
use queens.Freeze.{count_by_tier}
use queens.GroupTable.{GroupRow, MemberEntry, get_group, get_member}
use queens.Closer.{people_in, person, group_members}
use queens.Standing.{place_global}
use queens.World.{World, Server}

-- Where the player stands: rank and size, and the zone.
pub record Standing : Type 0 where
  pub rank : ℕ
  pub size : ℕ
  pub zone : Option Zone

-- The player among the evaluated members; the bots are passed over.
unfoldable pub find_me : List Member → Text → ℕ → Standing
find_me [] id size = record { rank = 0; size = size; zone = none }
find_me (m ∷ ms) id size =
    let rest = find_me ms id size in
    if not m.bot && text_eq m.player_id id
    then record { rank = m.rank; size = size; zone = m.zone }
    else rest

-- The membership read again; none in a tier without rounds.
abbrev pub reread : List MemberEntry → Text → Text → ℤ → Option MemberEntry → Option MemberEntry
reread es id tier idx none = none
reread es id tier idx (some joined) = get_member es id tier idx

module _ (fl : Float64) where
  module _ (sv : Server) where
    -- `cachedOpenings`: the count of at most a minute ago.
    unfoldable pub cached_openings : World fl → Tier → Tier → World fl × ℤ
    cached_openings w below capped =
        let below_players = count_by_tier w.league.players below.id in
        let members = count_by_tier w.league.players capped.id in
        let v = openings fl sv.league capped below_players members in
        if text_eq w.openings.tier below.id && ltb_ℤ (sv.now -ℤ w.openings.computed) (pos 60)
        then (w, w.openings.value)
        else (record w { openings = record { tier = below.id; value = v; computed = sv.now } }, v)

    unfoldable pub up_count_for : World fl → Tier → Fallible LeagueError (World fl × ℤ)
    up_count_for w t =
        let above = promote_tier sv.league t.id in
        let counted = known_tier sv.league above >>= λ a. done (cached_openings w t a) in
        if not (text_eq t.up_mode up_mode_openings)
        then done (w, negsuc 0)
        else if text_eq above t.id
        then done (w, negsuc 0)
        else counted

    -- `placeMember` without the list of members.
    unfoldable pub place_member : World fl → Tier → GroupRow → MemberEntry → ℤ → Standing
    place_member w t g me up_count =
        let rows = people_in sv.names w.league.entries g.id in
        let place = place_global fl rows g.member_count t sv.league (person sv.names me) up_count in
        let all = group_members sv.names sv.league t w.league.entries g sv.now in
        let ev = evaluate fl all t sv.league up_count in
        if t.global
        then record { rank = place.rank; size = place.size; zone = some place.zone }
        else find_me ev.members me.player_id (length ev.members)

    unfoldable pub standing_in :
        World fl
        → Tier
        → MemberEntry
        → Option GroupRow
        → Fallible LeagueError (World fl × (ℕ × Standing))
    standing_in w t me none = fail not_found
    standing_in w t me (some g) =
        up_count_for w t >>= λ u. done (u.0, (me.round_score, place_member u.0 t g me u.1))

    unfoldable pub standing_found :
        World fl → Tier → Option MemberEntry → Fallible LeagueError (World fl × (ℕ × Standing))
    standing_found w t none = fail not_found
    standing_found w t (some me) = standing_in w t me (get_group w.league.groups me.group_id)

    -- The player's round score and standing that the response reports; none in a tier without rounds.
    unfoldable pub standing_of :
        World fl
        → Text
        → Tier
        → ℤ
        → Option MemberEntry
        → Fallible LeagueError (World fl × (ℕ × Standing))
    standing_of w id t idx none = done (w, (0, record { rank = 0; size = 0; zone = none }))
    standing_of w id t idx (some joined) =
        standing_found w t (get_member w.league.entries id t.id idx)
