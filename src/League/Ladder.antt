-- ===== src/League/Ladder.antt =====
-- The ladder of tiers: where promotions and relegations lead.
use queens.Prelude.{
  ℕ, zero, suc, ◌+◌, ◌-◌, ◌≤◌, ◌<◌, min, ◌≡◌, refl, sym, ap, ◌∙◌, inl, inr, Bool, false, some, List,
  [], ◌∷◌, arith, if◌then◌else◌, Bool-cases, length, All,
}
use queens.Prelude.Text.{Text, text_eq, text_eq_refl, text_eq→eq}
use queens.League.{
  Tier, LeagueConfig, Outcome, promoted, stayed, relegated, inactive_frozen, inactive_relegated,
  tier_in, index_in, id_at, tier_index, promote_tier, relegate_tier, is_floor, apply,
}

-- No two tiers have one id.
abbrev pub DistinctIds : List Tier → Type 0
DistinctIds [] = Unit
DistinctIds (t ∷ ts) = All (λ u. text_eq t.id u.id ≡ false) ts × DistinctIds ts

abbrev pub floor_at : List Tier → ℕ → Bool
floor_at [] i = false
floor_at (t ∷ ts) zero = t.floor
floor_at (t ∷ ts) (suc i) = floor_at ts i

differs_at :
    (t : Tier) (ts : List Tier) (k : ℕ)
    → All (λ u. text_eq t.id u.id ≡ false) ts
    → k < length ts
    → text_eq t.id (id_at ts k) ≡ false
differs_at t [] k a h = absurd (omega arith)
differs_at t (u ∷ ts) zero (p, a) h = p
differs_at t (u ∷ ts) (suc k) (p, a) h = differs_at t ts k a (omega arith)

index_in-id_at :
    (ts : List Tier) (i k : ℕ)
    → DistinctIds ts
    → k < length ts
    → index_in ts i (id_at ts k) ≡ some (i + k)
unfolding index_in
index_in-id_at [] i k d h = absurd (omega arith)
index_in-id_at (t ∷ ts) i zero d h = rw (text_eq_refl t.id) (ap some (omega arith))
index_in-id_at (t ∷ ts) i (suc k) (a, d) h =
    rw (differs_at t ts k a (omega arith))
      (index_in-id_at ts (suc i) k d (omega arith) ∙ ap some (omega arith))

tier_in-floor_at :
    (ts : List Tier) (k : ℕ)
    → DistinctIds ts
    → k < length ts
    → is_floor (tier_in ts (id_at ts k)) ≡ floor_at ts k
unfolding tier_in
tier_in-floor_at [] k d h = absurd (omega arith)
tier_in-floor_at (t ∷ ts) zero d h = rw (text_eq_refl t.id)
tier_in-floor_at (t ∷ ts) (suc k) (a, d) h =
    rw (differs_at t ts k a (omega arith)) (tier_in-floor_at ts k d (omega arith))

-- A tier that is found stands at some place of the ladder.
pub tier_in-place :
    (ts : List Tier) (id : Text) (t : Tier)
    → tier_in ts id ≡ some t
    → (k : ℕ) × (k < length ts) × (id ≡ id_at ts k) × (t.id ≡ id)
unfolding tier_in
tier_in-place [] id t h = cc
tier_in-place (u ∷ ts) id t h = elim (Bool-cases (text_eq u.id id)) [
  | inl e ↦ let same : u.id ≡ id = text_eq→eq u.id id e in (0, omega arith, sym same, ground arith)
  | inr n ↦ let (k, lt, e, e') = tier_in-place ts id t (ground arith) in (suc k, omega arith, e, e')
]

-- A known tier id has its tier.
pub tier_in-id_at :
    (ts : List Tier) (k : ℕ) → k < length ts → (t : Tier) × (tier_in ts (id_at ts k) ≡ some t)
unfolding tier_in
tier_in-id_at [] k h = absurd (omega arith)
tier_in-id_at (t ∷ ts) zero h = (t, rw (text_eq_refl t.id))
tier_in-id_at (t ∷ ts) (suc k) h = elim (Bool-cases (text_eq t.id (id_at ts k))) [
  | inl e ↦ (t, rw e)
  | inr n ↦ let (u, e) = tier_in-id_at ts k (omega arith) in (u, rw n e)
]

module _ (c : LeagueConfig) (d : DistinctIds c.tiers) (k : ℕ) (h : k < length c.tiers) where
  tier_index-id_at : tier_index c (id_at c.tiers k) ≡ k
  unfolding tier_index
  tier_index-id_at = ground (arith, index_in-id_at c.tiers 0 k d h)

  -- In a ladder whose tier ids differ, `PromoteTier` leads from a tier to the next one up, and from the
  -- top tier nowhere.
  promote_tier-id_at :
      promote_tier c (id_at c.tiers k) ≡ id_at c.tiers (min (suc k) (length c.tiers - 1))
  unfolding promote_tier
  promote_tier-id_at =
      let e : tier_index c (id_at c.tiers k) ≡ k = tier_index-id_at in
      ap (id_at c.tiers) (ground (arith, e))

  -- In a ladder whose tier ids differ, `RelegateTier` leads from a tier to the next one down, but from
  -- the bottom and from a floor tier nowhere.
  pub relegate_tier-id_at :
      relegate_tier c (id_at c.tiers k) ≡ id_at c.tiers (if floor_at c.tiers k then k else k - 1)
  unfolding relegate_tier
  relegate_tier-id_at = elim (Bool-cases (floor_at c.tiers k)) [
    | inl f ↦ ground (arith, tier_in-floor_at c.tiers k d h, tier_index-id_at)
    | inr f ↦ ground (arith, tier_in-floor_at c.tiers k d h, tier_index-id_at)
  ]

abbrev down_place : List Tier → ℕ → ℕ
down_place ts k = if floor_at ts k then k else k - 1

-- Where an outcome leads from the tier at place `k`.
place_after : LeagueConfig → ℕ → Outcome → ℕ
place_after c k promoted = min (suc k) (length c.tiers - 1)
place_after c k relegated = down_place c.tiers k
place_after c k inactive_relegated = down_place c.tiers k
place_after c k stayed = k
place_after c k inactive_frozen = k

apply-id_at :
    (c : LeagueConfig) (k : ℕ) (o : Outcome)
    → DistinctIds c.tiers
    → k < length c.tiers
    → apply c (id_at c.tiers k) o ≡ id_at c.tiers (place_after c k o)
unfolding apply place_after
apply-id_at c k promoted d h = promote_tier-id_at c d k h
apply-id_at c k relegated d h = relegate_tier-id_at c d k h
apply-id_at c k inactive_relegated d h = relegate_tier-id_at c d k h
apply-id_at c k stayed d h = refl
apply-id_at c k inactive_frozen d h = refl

down_place-near : (ts : List Tier) (k : ℕ) → (down_place ts k ≤ k) × (k ≤ suc (down_place ts k))
down_place-near ts k = elim (Bool-cases (floor_at ts k)) [
  | inl f ↦ rw f (omega arith)
  | inr f ↦ rw f (omega arith)
]

-- The highest floor at or below a place; the bottom where there is none.
abbrev pub floor_below : List Tier → ℕ → ℕ
floor_below ts zero = 0
floor_below ts (suc k) =
    let below = floor_below ts k in if floor_at ts (suc k) then suc k else below

floor_below-le : (ts : List Tier) (k : ℕ) → floor_below ts k ≤ k
floor_below-le ts zero = omega arith
floor_below-le ts (suc k) = elim (Bool-cases (floor_at ts (suc k))) [
  | inl g ↦ rw g (omega arith)
  | inr g ↦ rw g (omega (arith, floor_below-le ts k))
]

down_place-floor : (ts : List Tier) (k : ℕ) → floor_below ts k ≤ down_place ts k
down_place-floor ts zero = omega arith
down_place-floor ts (suc k) = elim (Bool-cases (floor_at ts (suc k))) [
  | inl g ↦ rw g (omega arith)
  | inr g ↦ rw g (omega (arith, floor_below-le ts k))
]

place_after-near :
    (c : LeagueConfig) (k : ℕ) (o : Outcome)
    → k < length c.tiers
    → (place_after c k o < length c.tiers)
      × (place_after c k o ≤ suc k)
      × (k ≤ suc (place_after c k o))
unfolding place_after
place_after-near c k promoted h = omega arith
place_after-near c k relegated h =
    let (lo, hi) = down_place-near c.tiers k in (omega arith, omega arith, hi)
place_after-near c k inactive_relegated h =
    let (lo, hi) = down_place-near c.tiers k in (omega arith, omega arith, hi)
place_after-near c k stayed h = omega arith
place_after-near c k inactive_frozen h = omega arith

place_after-floor :
    (c : LeagueConfig) (k : ℕ) (o : Outcome)
    → k < length c.tiers
    → floor_below c.tiers k ≤ place_after c k o
unfolding place_after
place_after-floor c k promoted h = omega (arith, floor_below-le c.tiers k)
place_after-floor c k relegated h = down_place-floor c.tiers k
place_after-floor c k inactive_relegated h = down_place-floor c.tiers k
place_after-floor c k stayed h = floor_below-le c.tiers k
place_after-floor c k inactive_frozen h = floor_below-le c.tiers k

-- In a ladder whose tier ids differ, every outcome leads from a tier to a tier of the ladder that is
-- at most one place away, and never below the highest floor at or below the tier it starts from.
pub apply_keeps_floor :
    (c : LeagueConfig) (k : ℕ) (o : Outcome)
    → DistinctIds c.tiers
    → k < length c.tiers
    → (j : ℕ) × (apply c (id_at c.tiers k) o ≡ id_at c.tiers j)
      × (j < length c.tiers)
      × (j ≤ suc k)
      × (k ≤ suc j)
      × (floor_below c.tiers k ≤ j)
apply_keeps_floor c k o d h =
    let (in_ladder, up, down) = place_after-near c k o h in
    (place_after c k o, apply-id_at c k o d h, in_ladder, up, down, place_after-floor c k o h)

-- In a ladder whose tier ids differ, a promotion to a tier that is no floor, from a tier that has one above it, is undone by a
-- relegation.
pub relegate-promote :
    (c : LeagueConfig) (k : ℕ)
    → DistinctIds c.tiers
    → suc k < length c.tiers
    → floor_at c.tiers (suc k) ≡ false
    → relegate_tier c (promote_tier c (id_at c.tiers k)) ≡ id_at c.tiers k
relegate-promote c k d h fl =
    let up : min (suc k) (length c.tiers - 1) ≡ suc k = omega arith in
    rw (promote_tier-id_at c d k (omega arith), up, relegate_tier-id_at c d (suc k) h, fl)
      (ap (id_at c.tiers) (omega arith))
