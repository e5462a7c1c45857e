-- ===== src/League/Defaults.antt =====
-- What a configuration satisfies once `LoadLeagueConfig` has put the defaults in.
use queens.Prelude.{
  ◌<◌, ◌≡◌, refl, subst, inl, inr, false, some, List, [], ◌∷◌, map, arith, if◌then◌else◌,
  Bool-cases, length, length-map, All,
}
use queens.Prelude.Int.{ℤ, pos, ◌≤ℤ◌, ltb_ℤ}
use queens.Prelude.Text.{Text, bytes}
use queens.League.{
  Tier, LeagueConfig, RawConfig, or_default, is_empty, is_zero, text_or, default_tier,
  with_defaults, load_league_config,
}

-- A tier with its defaults.
pub record IsDefaulted (t : Tier) : Type 0 where
  has_mode : is_empty t.up_mode ≡ false
  has_inactive : is_empty t.inactive ≡ false

-- What the server relies on.
pub record IsLoaded (raw : RawConfig) (c : LeagueConfig) : Type 0 where
  sized : pos 1 ≤ℤ c.group_size
  roomy : c.group_size ≤ℤ c.group_max
  min_set : is_zero c.min_group_size ≡ false
  has_round_mode : is_empty c.round_mode ≡ false
  has_tiers : 0 < length c.tiers
  tiers_defaulted : All IsDefaulted c.tiers
  best_n_kept : c.round_best_n ≡ or_default raw.round_best_n (pos 15)
  grace_kept : c.online_grace_s ≡ or_default raw.online_grace_s (pos 600)

text_or-is_empty : (s d : Text) → is_empty d ≡ false → is_empty (text_or s d) ≡ false
text_or-is_empty [] d h = h
text_or-is_empty (x ∷ s) d h = refl

default_tier-IsDefaulted : (t : Tier) → IsDefaulted (default_tier t)
unfolding default_tier
default_tier-IsDefaulted t = record {
  has_mode = text_or-is_empty t.up_mode (bytes "pct") refl;
  has_inactive = text_or-is_empty t.inactive (bytes "stay") refl;
}

All-default_tier : (ts : List Tier) → All IsDefaulted (map default_tier ts)
All-default_tier [] = tt
All-default_tier (t ∷ ts) = (default_tier-IsDefaulted t, All-default_tier ts)

group_bounds :
    (size most : ℤ)
    → let g = if ltb_ℤ size (pos 1) then pos 30 else size in
      (pos 1 ≤ℤ g) × (g ≤ℤ (if ltb_ℤ most g then g else most))
group_bounds size most = elim (Bool-cases (ltb_ℤ size (pos 1))) [
  | inl h ↦ rw h (ground arith)
  | inr h ↦ rw h (ground arith)
]

min_group : (m : ℤ) → is_zero (if is_zero m then pos 5 else m) ≡ false
min_group m = ground arith

with_defaults-IsLoaded : (raw : RawConfig) → 0 < length raw.tiers → IsLoaded raw (with_defaults raw)
unfolding with_defaults
with_defaults-IsLoaded raw h = record {
  sized = (group_bounds raw.group_size raw.group_max).0;
  roomy = (group_bounds raw.group_size raw.group_max).1;
  min_set = min_group raw.min_group_size;
  has_round_mode = text_or-is_empty raw.round_mode (bytes "best_n") refl;
  has_tiers = omega (arith, length-map {0, 0} raw.tiers default_tier);
  tiers_defaulted = All-default_tier raw.tiers;
  best_n_kept = refl;
  grace_kept = refl;
}

load_cases :
    (raw : RawConfig) (c : LeagueConfig)
    → load_league_config raw ≡ some c
    → (with_defaults raw ≡ c) × (0 < length raw.tiers)
unfolding load_league_config
load_cases raw c h = ground arith

-- A configuration that `LoadLeagueConfig` returns has groups of at least one place and at least as
-- many places for friends, a minimal group size, a round mode and at least one tier, each with a
-- mode and an inactivity rule; `round_best_n` and `online_grace_s` are what the file says, an
-- explicit 0 too, and 15 and 600 where it says nothing.
pub load_league_config-IsLoaded :
    (raw : RawConfig) (c : LeagueConfig) → load_league_config raw ≡ some c → IsLoaded raw c
load_league_config-IsLoaded raw c h =
    let (e, some_tier) = load_cases raw c h in
    subst (IsLoaded raw) e (with_defaults-IsLoaded raw some_tier)
