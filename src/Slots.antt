-- ===== src/Slots.antt =====
-- server/internal/domain/league.go: the capped top tier. `Slots` is its size and `Openings` the number
-- of places that the tier below fills. Populations are counts of players.
use queens.Prelude.{ℕ, ◌≡◌, none, some, arith, if◌then◌else◌}
use queens.Prelude.Int.{ℤ, pos, negsuc, ltb_ℤ, ◌≤ℤ◌, ◌+ℤ◌, ◌-ℤ◌, max_ℤ}
use queens.Float.{Float64}
use queens.League.{Tier, LeagueConfig}
use queens.Round.{quot}
use queens.Group.{counts}

unfoldable pub clampi : ℤ → ℤ → ℤ → ℤ
clampi v lo hi = if ltb_ℤ v lo then lo else if ltb_ℤ hi v then hi else v

-- 10 unless the tier says otherwise.
unfoldable pub per_slot : Tier → ℤ
per_slot t = elim t.players_per_slot [
  | none ↦ pos 10
  | some p ↦ if ltb_ℤ (pos 1) p then p else pos 10
]

abbrev min_slots_of : Tier → ℤ
min_slots_of t = elim t.min_slots [ none ↦ pos 1 | some m ↦ m ]

-- -1 when the tier is not capped.
unfoldable pub slots : Tier → ℕ → ℤ
slots t below_players = elim t.max_slots [
  | none ↦ negsuc 0
  | some most ↦ clampi (quot (pos below_players) (per_slot t)) (min_slots_of t) most
]

unfoldable pub openings : Float64 → LeagueConfig → Tier → ℕ → ℕ → ℤ
openings fl cfg capped below_players members_in_tier =
    let total = slots capped below_players in
    let leaving = (counts fl members_in_tier capped cfg 0 (negsuc 0)).down in
    let v = total -ℤ (pos members_in_tier -ℤ leaving) in
    if ltb_ℤ total (pos 0) then pos 0 else if ltb_ℤ v (pos 0) then pos 0 else v

-- A gap between two integers, filled from below.
fill :
    (total staying : ℤ)
    → pos 0 ≤ℤ total
    → staying
        +ℤ (if ltb_ℤ total (pos 0)
            then pos 0
            else if ltb_ℤ (total -ℤ staying) (pos 0)
            then pos 0
            else total -ℤ staying)
      ≡ max_ℤ total staying
unfolding ◌+ℤ◌ ◌-ℤ◌
fill (pos t) (pos s) h = ground arith
fill (pos t) (negsuc s) h = ground arith
fill (negsuc t) s h = ground arith

-- The openings fill the capped tier to its slots, its own relegations counted off, and add nobody to
-- a tier that is full without them.
pub openings_fill :
    (fl : Float64) (cfg : LeagueConfig) (t : Tier) (below members : ℕ)
    → pos 0 ≤ℤ slots t below
    → let staying = pos members -ℤ (counts fl members t cfg 0 (negsuc 0)).down in
      staying +ℤ openings fl cfg t below members ≡ max_ℤ (slots t below) staying
unfolding openings
openings_fill fl cfg t below members h =
    fill (slots t below) (pos members -ℤ (counts fl members t cfg 0 (negsuc 0)).down) h
