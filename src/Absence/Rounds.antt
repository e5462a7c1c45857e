-- ===== src/Absence/Rounds.antt =====
-- The loop over the missed rounds does what settling them one by one does.
use queens.Prelude.{
  ℕ, zero, suc, ◌-◌, ◌<◌, ◌≡◌, refl, sym, ap, subst, ◌∙◌, ◌⊎◌, inl, inr, true, false, none, some,
  arith, Bool-cases, length, some-eq,
}
use queens.Prelude.Fallible.{done}
use queens.Prelude.Text.{Text, text_eq, text_eq_refl, text_eq→eq}
use queens.League.{
  Tier, LeagueConfig, inactive_frozen, inactive_relegated, inactive_outcome, relegate_tier,
  tier_by_id, id_at, apply,
}
use queens.League.Ladder.{DistinctIds, floor_at, tier_in-place, tier_in-id_at, relegate_tier-id_at}
use queens.Absence.{known_tier, is_inactive_relegated, walk_down, tier_after_absence}

-- One missed round, by the rules of the league.
unfoldable pub miss : LeagueConfig → Text → Text
miss cfg id = elim (tier_by_id cfg id) [ none ↦ id | some t ↦ apply cfg id (inactive_outcome t) ]

-- `n` missed rounds, one after the other.
unfoldable pub miss_all : LeagueConfig → ℕ → Text → Text
miss_all cfg zero id = id
miss_all cfg (suc n) id = miss_all cfg n (miss cfg id)

miss_all-fixed :
    (cfg : LeagueConfig) (n : ℕ) (id : Text) → miss cfg id ≡ id → miss_all cfg n id ≡ id
unfolding miss_all
miss_all-fixed cfg zero id h = refl
miss_all-fixed cfg (suc n) id h = rw h (miss_all-fixed cfg n id h)

miss-apply :
    (cfg : LeagueConfig) (id : Text) (t : Tier)
    → tier_by_id cfg id ≡ some t
    → miss cfg id ≡ apply cfg id (inactive_outcome t)
unfolding miss
miss-apply cfg id t e = rw (e, miss) refl

inactive_cases :
    (t : Tier) → (inactive_outcome t ≡ inactive_frozen) ⊎ (inactive_outcome t ≡ inactive_relegated)
unfolding inactive_outcome
inactive_cases t = ground arith

-- A missed round keeps the tier, or relegates.
miss_cases :
    (cfg : LeagueConfig) (id : Text) (t : Tier)
    → tier_by_id cfg id ≡ some t
    → ((is_inactive_relegated (inactive_outcome t) ≡ false) × (miss cfg id ≡ id))
      ⊎ ((is_inactive_relegated (inactive_outcome t) ≡ true) × (miss cfg id ≡ relegate_tier cfg id))
unfolding apply
miss_cases cfg id t e = elim (inactive_cases t) [
  | inl f ↦ inl (ap is_inactive_relegated f, miss-apply cfg id t e ∙ ap (apply cfg id) f)
  | inr r ↦ inr (ap is_inactive_relegated r, miss-apply cfg id t e ∙ ap (apply cfg id) r)
]

pub known_tier-done :
    (cfg : LeagueConfig) (id : Text) (t : Tier)
    → tier_by_id cfg id ≡ some t
    → known_tier cfg id ≡ done t
unfolding known_tier
known_tier-done cfg id t e = rw (e, known_tier) refl

-- The tier with the id `id` is `t`, which carries that id.
abbrev pub Has : LeagueConfig → Text → Tier → Type 0
Has cfg id t = (tier_by_id cfg id ≡ some t) × (t.id ≡ id)

Has-place :
    (cfg : LeagueConfig) (k : ℕ) → k < length cfg.tiers → (t : Tier) × Has cfg (id_at cfg.tiers k) t
unfolding tier_by_id
Has-place cfg k h =
    let (t, e) = tier_in-id_at cfg.tiers k h in
    let (j, lt, e', same) = tier_in-place cfg.tiers (id_at cfg.tiers k) t e in (t, (e, same))

pub place_of :
    (cfg : LeagueConfig) (id : Text) (t : Tier)
    → tier_by_id cfg id ≡ some t
    → (k : ℕ) × (k < length cfg.tiers) × (id ≡ id_at cfg.tiers k)
unfolding tier_by_id
place_of cfg id t e = let (k, lt, place, same) = tier_in-place cfg.tiers id t e in (k, lt, place)

-- Where a relegation leads: nowhere, or one place down to another tier.
abbrev Down : LeagueConfig → ℕ → Type 0
Down cfg k =
    (relegate_tier cfg (id_at cfg.tiers k) ≡ id_at cfg.tiers k)
    ⊎ ((j : ℕ) × (k ≡ suc j)
        × (relegate_tier cfg (id_at cfg.tiers k) ≡ id_at cfg.tiers j)
        × (text_eq (id_at cfg.tiers j) (id_at cfg.tiers k) ≡ false))

Down-by :
    (cfg : LeagueConfig) (k : ℕ)
    → relegate_tier cfg (id_at cfg.tiers k) ≡ id_at cfg.tiers (k - 1)
    → Down cfg k
Down-by cfg zero e = inl (e ∙ ap (id_at cfg.tiers) (omega arith))
Down-by cfg (suc j) e =
    let low : relegate_tier cfg (id_at cfg.tiers (suc j)) ≡ id_at cfg.tiers j =
      e ∙ ap (id_at cfg.tiers) (omega arith) in
    elim (Bool-cases (text_eq (id_at cfg.tiers j) (id_at cfg.tiers (suc j)))) [
      | inl same ↦ inl (low ∙ text_eq→eq _ _ same)
      | inr differ ↦ inr (j, refl, low, differ)
    ]

relegate_cases :
    (cfg : LeagueConfig) (k : ℕ) → DistinctIds cfg.tiers → k < length cfg.tiers → Down cfg k
relegate_cases cfg k d h = elim (Bool-cases (floor_at cfg.tiers k)) [
  | inl f ↦ inl (relegate_tier-id_at cfg d k h ∙ rw f refl)
  | inr n ↦ Down-by cfg k (relegate_tier-id_at cfg d k h ∙ rw n refl)
]

-- The walk reaches the tier of the missed rounds one by one, and `left` steps above the place suffice.
walk_down-miss_all :
    (cfg : LeagueConfig) (left missed k : ℕ) (t : Tier)
    → DistinctIds cfg.tiers
    → k < length cfg.tiers
    → k < left
    → Has cfg (id_at cfg.tiers k) t
    → (u : Tier) × (walk_down cfg left missed t ≡ done u)
      × Has cfg (miss_all cfg missed (id_at cfg.tiers k)) u
unfolding walk_down miss_all
walk_down-miss_all cfg zero missed k t d h l v = absurd (omega arith)
walk_down-miss_all cfg (suc left) zero k t d h l v = (t, refl, v)
walk_down-miss_all cfg (suc left) (suc missed) k t d h l (e, same) =
    elim (miss_cases cfg (id_at cfg.tiers k) t e) [
      | inl (stays, m) ↦ (
        t,
        rw stays refl,
        rw m (
            subst (λ i. Has cfg i t) (sym (miss_all-fixed cfg missed (id_at cfg.tiers k) m))
              (e, same)),
      )
      | inr (moves, m) ↦ elim (relegate_cases cfg k d h) [
        | inl stuck ↦ (
          t,
          rw (moves, same, stuck, text_eq_refl (id_at cfg.tiers k)) refl,
          rw m (
              rw stuck (
                subst (λ i. Has cfg i t)
                  (sym (miss_all-fixed cfg missed (id_at cfg.tiers k) (m ∙ stuck))) (e, same))),
        )
        | inr (j, up, lower, differ) ↦
            let (t', v) = Has-place cfg j (omega arith) in
            let (u, walked, w) =
              walk_down-miss_all cfg left missed j t' d (omega arith) (omega arith) v in
            (
              u,
              rw (moves, same, lower, differ, known_tier-done cfg (id_at cfg.tiers j) t' v.0)
                  walked,
              rw (m, lower) w,
            )
      ]
    ]

-- Settling an absence at once leads to the tier that settling it round by round leads to, and it
-- always finds one: in a ladder with different tier ids, from any of its tiers.
pub tier_after_absence-miss_all :
    (cfg : LeagueConfig) (missed k : ℕ) (t : Tier)
    → DistinctIds cfg.tiers
    → k < length cfg.tiers
    → tier_by_id cfg (id_at cfg.tiers k) ≡ some t
    → (u : Tier) × (tier_after_absence cfg t missed ≡ done u)
      × Has cfg (miss_all cfg missed (id_at cfg.tiers k)) u
unfolding tier_after_absence
tier_after_absence-miss_all cfg missed k t d h e =
    let (t', v) = Has-place cfg k h in
    let same : t.id ≡ id_at cfg.tiers k = ap (λ (x : Tier). x.id) (some-eq (sym e ∙ v.0)) ∙ v.1 in
    elim (miss_cases cfg (id_at cfg.tiers k) t e) [
      | inl (stays, m) ↦ (
        t,
        rw stays refl,
        subst (λ i. Has cfg i t) (sym (miss_all-fixed cfg missed (id_at cfg.tiers k) m)) (e, same),
      )
      | inr (moves, m) ↦
          rw moves (walk_down-miss_all cfg (length cfg.tiers) missed k t d h h (e, same))
    ]
