-- ===== src/Freeze/Siblings.antt =====
-- The two tiers of a pair: the lower one, whose places above are counted, and the capped one.
use queens.Prelude.{
  ℕ, ◌≡◌, refl, sym, ap, ap₂, subst, ◌∙◌, ◌≢◌, ◌⊎◌, inl, inr, true, false, some, List, [], ◌∷◌,
  if◌then◌else◌, Bool-cases, some-eq, if_true, if_false, and_false_left, and_false_right,
}
use mathlib.Core.Option
use queens.Prelude.Fallible.{done, >>=-done, done-injective}
use queens.Prelude.Int.{ℤ}
use queens.Prelude.Text.{Text, text_eq, text_eq→eq, text_eq_ne, eq_text_eq}
use queens.Float.{Float64}
use queens.League.{Tier, LeagueConfig, up_mode_openings, is_capped, tier_by_id, tier_in}
use queens.Absence.{Player, known_tier}
use queens.Freeze.{
  Round, FrozenCounts, is_open, is_round, get_round, round_ending_at, claim_row, claimed_row,
  frozen_pair, frozen_of, pair_counts, sibling_counts, freeze_pair, freeze_counts, claim_round,
  both, counts_or, count_by_tier,
}
use queens.Freeze.Rows.{
  get_round-update, round_ending_at-update, claim_row-SameKeys, get_round-is_round,
}
use queens.Freeze.Claim.{claim_row-claims, get_round-claim_rows, claim_round-done}

known_tier-done :
    (cfg : LeagueConfig) (id : Text) (t : Tier)
    → tier_by_id cfg id ≡ some t
    → known_tier cfg id ≡ done t
unfolding known_tier
known_tier-done cfg id t h = rw (h, known_tier) refl

tier_in-id : (ts : List Tier) (id : Text) (t : Tier) → tier_in ts id ≡ some t → t.id ≡ id
unfolding tier_in
tier_in-id [] id t h = cc
tier_in-id (x ∷ ts) id t h = elim (Bool-cases (text_eq x.id id)) [
  | inl e ↦ ap (λ (y : Tier). y.id) (sym (some-eq (sym (if_true _ e) ∙ h))) ∙ text_eq→eq x.id id e
  | inr n ↦ tier_in-id ts id t (sym (if_false _ n) ∙ h)
]

tier_by_id-id : (cfg : LeagueConfig) (id : Text) (t : Tier) → tier_by_id cfg id ≡ some t → t.id ≡ id
unfolding tier_by_id
tier_by_id-id cfg id t h = tier_in-id cfg.tiers id t h

-- A tier of a pair is one of the two.
frozen_pair-id :
    (cfg : LeagueConfig) (t : Tier) (below capped : Text)
    → frozen_pair cfg t ≡ some (below, capped)
    → (t.id ≡ below) ⊎ (t.id ≡ capped)
unfolding frozen_pair
frozen_pair-id cfg t below capped h = elim (Bool-cases (text_eq t.up_mode up_mode_openings)) [
  | inl e ↦ inl (ap (λ (p : Text × Text). p.0) (some-eq (sym (if_true _ e) ∙ h)))
  | inr n ↦ elim (Bool-cases (is_capped t)) [
    | inl e ↦ inr (ap (λ (p : Text × Text). p.1) (some-eq (sym (if_false _ n ∙ if_true _ e) ∙ h)))
    | inr m ↦ absurd (cc (sym (if_false _ n ∙ if_false _ m) ∙ h))
  ]
]

-- The sibling that one of the two looks for is the other.
other_of_pair :
    (x y below capped : Text)
    → (x ≡ below) ⊎ (x ≡ capped)
    → (y ≡ below) ⊎ (y ≡ capped)
    → x ≢ y
    → below ≢ capped
    → (if text_eq y below then capped else below) ≡ x
other_of_pair x y below capped (inl e) (inl k) differ apart = absurd (differ (e ∙ sym k))
other_of_pair x y below capped (inl e) (inr k) differ apart =
    if_false _ (text_eq_ne (λ same. apart (sym same ∙ k))) ∙ sym e
other_of_pair x y below capped (inr e) (inl k) differ apart = if_true _ (eq_text_eq k) ∙ sym e
other_of_pair x y below capped (inr e) (inr k) differ apart = absurd (differ (e ∙ sym k))

claim_row-keeps :
    (tier : Text) (idx now : ℤ) (f : FrozenCounts) (r : Round)
    → is_open r.state ≡ false
    → claim_row tier idx now f r ≡ r
unfolding claim_row
claim_row-keeps tier idx now f r n = if_false _ (and_false_right (is_round tier idx r) n)

claim_row-keeps_other :
    (tier : Text) (idx now : ℤ) (f : FrozenCounts) (r : Round)
    → is_round tier idx r ≡ false
    → claim_row tier idx now f r ≡ r
unfolding claim_row
claim_row-keeps_other tier idx now f r n = if_false _ (and_false_left (is_open r.state) n)

is_round-tier : (tier : Text) (idx : ℤ) (r : Round) → r.tier ≢ tier → is_round tier idx r ≡ false
unfolding is_round
is_round-tier tier idx r differ = rw (text_eq_ne differ) refl

-- A claimed row hands its counts on.
sibling_pair_counts :
    (ps : List Player) (now : ℤ) (f : FrozenCounts) (r : Round) (below capped : Text) {c : ℕ × ℕ}
    → f.below_players ≡ some c.0
    → f.members_in_tier ≡ some c.1
    → pair_counts ps (some (claimed_row now f r)) below capped ≡ c
unfolding pair_counts sibling_counts
sibling_pair_counts ps now f r below capped h k =
    ap₂ (λ x y. counts_or (both x y) (count_by_tier ps below, count_by_tier ps capped)) h k

module _ (fl : Float64) (cfg : LeagueConfig) where
  -- The counts of a tier of a pair.
  freeze_counts-pair :
      (ps : List Player) (rs : List Round) (r : Round) (t : Tier) (below capped : Text)
      (f : FrozenCounts)
      → tier_by_id cfg r.tier ≡ some t
      → frozen_pair cfg t ≡ some (below, capped)
      → below ≢ capped
      → freeze_counts fl cfg ps rs r ≡ done f
      → let sibling = if text_eq t.id below then capped else below in
        let counted = pair_counts ps (round_ending_at rs sibling r.ends_at) below capped in
        (f.below_players ≡ some counted.0) × (f.members_in_tier ≡ some counted.1)
  unfolding freeze_counts freeze_pair frozen_of
  freeze_counts-pair ps rs r t below capped f tier pair apart h =
      let (t', read, rest) = >>=-done (known_tier cfg r.tier) _ h in
      let same : t' ≡ t = done-injective (sym read ∙ known_tier-done cfg r.tier t tier) in
      let of_pair : freeze_pair fl cfg ps rs r t (some (below, capped)) ≡ done f =
        ap (freeze_pair fl cfg ps rs r t) (sym pair)
        ∙ subst (λ x. freeze_pair fl cfg ps rs r x (frozen_pair cfg x) ≡ done f) same rest in
      let (c, known, made) =
        >>=-done (known_tier cfg capped) _ (sym (if_false _ (text_eq_ne apart)) ∙ of_pair) in
      let made_f = done-injective made in
      (
        ap (λ (x : FrozenCounts). x.below_players) (sym made_f),
        ap (λ (x : FrozenCounts). x.members_in_tier) (sym made_f),
      )

  -- The open rounds `a` and `b` of the two tiers of a pair end at the same instant. Whichever of them
  -- is claimed first, and whatever the table of players is when the other one is claimed, both rows
  -- hold the same two counts in the end.
  pub siblings_agree :
      (now later : ℤ) (ps qs : List Player) (rs rs' rs'' : List Round) (a b : Round) (ta tb : Tier)
      (below capped : Text)
      → get_round rs a.tier a.round_index ≡ some a
      → round_ending_at rs a.tier a.ends_at ≡ some a
      → get_round rs b.tier b.round_index ≡ some b
      → is_open a.state ≡ true
      → is_open b.state ≡ true
      → b.ends_at ≡ a.ends_at
      → a.tier ≢ b.tier
      → tier_by_id cfg a.tier ≡ some ta
      → tier_by_id cfg b.tier ≡ some tb
      → frozen_pair cfg ta ≡ some (below, capped)
      → frozen_pair cfg tb ≡ some (below, capped)
      → below ≢ capped
      → claim_round fl cfg now ps rs a.tier a.round_index ≡ done rs'
      → claim_round fl cfg later qs rs' b.tier b.round_index ≡ done rs''
      → (x : Round) × (y : Round) × (get_round rs'' a.tier a.round_index ≡ some x)
        × (get_round rs'' b.tier b.round_index ≡ some y)
        × (x.below_players ≡ y.below_players)
        × (x.members_in_tier ≡ y.members_in_tier)
  unfolding pair_counts sibling_counts
  siblings_agree now later ps qs rs rs' rs'' a b ta tb below capped found_a last_a found_b open_a
        open_b ends differ tier_a tier_b pair_a pair_b apart claim_a claim_b =
      let (fa, frozen_a, made_a) =
        claim_round-done fl cfg now ps rs rs' a.tier a.round_index a found_a open_a claim_a in
      let ga = claim_row a.tier a.round_index now fa in
      let keys_a = claim_row-SameKeys a.tier a.round_index now fa in
      let a_claimed : ga a ≡ claimed_row now fa a =
        claim_row-claims a.tier a.round_index now fa a
          (get_round-is_round rs a.tier a.round_index a found_a) open_a in
      let b_kept : get_round rs' b.tier b.round_index ≡ some b =
        subst (λ x. get_round x b.tier b.round_index ≡ some b) made_a
          (get_round-update ga keys_a rs b.tier b.round_index
            ∙ ap (Option.map ga) found_b
            ∙ ap some (
                claim_row-keeps_other a.tier a.round_index now fa b
                  (is_round-tier a.tier a.round_index b (λ e. differ (sym e))))) in
      let (fb, frozen_b, made_b) =
        claim_round-done fl cfg later qs rs' rs'' b.tier b.round_index b b_kept open_b claim_b in
      let gb = claim_row b.tier b.round_index later fb in
      let keys_b = claim_row-SameKeys b.tier b.round_index later fb in
      let counts_a = freeze_counts-pair ps rs a ta below capped fa tier_a pair_a apart frozen_a in
      let counts_b = freeze_counts-pair qs rs' b tb below capped fb tier_b pair_b apart frozen_b in
      let sibling : (if text_eq tb.id below then capped else below) ≡ a.tier =
        other_of_pair a.tier tb.id below capped
          (subst (λ x. (x ≡ below) ⊎ (x ≡ capped)) (tier_by_id-id cfg a.tier ta tier_a)
            (frozen_pair-id cfg ta below capped pair_a))
          (frozen_pair-id cfg tb below capped pair_b)
          (λ e. differ (e ∙ tier_by_id-id cfg b.tier tb tier_b)) apart in
      let seen : round_ending_at rs' (if text_eq tb.id below then capped else below) b.ends_at
          ≡ some (claimed_row now fa a) =
        ap₂ (round_ending_at rs') sibling ends
        ∙ subst (λ x. round_ending_at x a.tier a.ends_at ≡ some (claimed_row now fa a)) made_a
            (round_ending_at-update ga keys_a rs a.tier a.ends_at
              ∙ ap (Option.map ga) last_a
              ∙ ap some a_claimed) in
      let same_counts =
        ap (λ o. pair_counts qs o below capped) seen
        ∙ sibling_pair_counts qs now fa a below capped counts_a.0 counts_a.1 in
      let a_found : get_round rs' a.tier a.round_index ≡ some (claimed_row now fa a) =
        subst (λ x. get_round x a.tier a.round_index ≡ some (claimed_row now fa a)) made_a
          (get_round-claim_rows rs a.tier a.round_index now fa a found_a open_a) in
      (
        claimed_row now fa a,
        claimed_row later fb b,
        subst (λ x. get_round x a.tier a.round_index ≡ some (claimed_row now fa a)) made_b
            (get_round-update gb keys_b rs' a.tier a.round_index
              ∙ ap (Option.map gb) a_found
              ∙ ap some
                  (claim_row-keeps b.tier b.round_index later fb (claimed_row now fa a) refl)),
        subst (λ x. get_round x b.tier b.round_index ≡ some (claimed_row later fb b)) made_b
            (get_round-claim_rows rs' b.tier b.round_index later fb b b_kept open_b),
        counts_a.0 ∙ ap some (ap (λ (c : ℕ × ℕ). c.0) (sym same_counts)) ∙ sym counts_b.0,
        counts_a.1 ∙ ap some (ap (λ (c : ℕ × ℕ). c.1) (sym same_counts)) ∙ sym counts_b.1,
      )
