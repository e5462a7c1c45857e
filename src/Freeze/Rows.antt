-- ===== src/Freeze/Rows.antt =====
-- The table of rounds under an update that keeps the keys.
use queens.Prelude.{
  ◌≡◌, refl, sym, ap, ap₂, subst, inl, inr, Bool, true, false, ◌&&◌, Option, none, some, List, [],
  ◌∷◌, map, if◌then◌else◌, Bool-cases, some-eq,
}
use mathlib.Core.Option
use queens.Prelude.Int.{ℤ, ltb_ℤ}
use queens.Prelude.Text.{Text, text_eq}
use queens.Group.{eqb_ℤ}
use queens.Freeze.{
  Round, FrozenCounts, is_open, is_round, get_round, later_round, round_ending_at, claim_row,
  claimed_row, finish_row, finished_row, is_closing,
}

-- The columns that the lookups read.
abbrev pub SameKeys : Round → Round → Type 0
SameKeys q r = (q.tier ≡ r.tier) × (q.round_index ≡ r.round_index) × (q.ends_at ≡ r.ends_at)

branch-SameKeys : (b : Bool) (q r : Round) → SameKeys q r → SameKeys (if b then q else r) r
branch-SameKeys true q r h = h
branch-SameKeys false q r h = (refl, refl, refl)

pub claim_row-SameKeys :
    (tier : Text) (idx now : ℤ) (f : FrozenCounts) (r : Round)
    → SameKeys (claim_row tier idx now f r) r
unfolding claim_row
claim_row-SameKeys tier idx now f r =
    branch-SameKeys (is_round tier idx r && is_open r.state) (claimed_row now f r) r
      (refl, refl, refl)

pub finish_row-SameKeys :
    (tier : Text) (idx now : ℤ) (r : Round) → SameKeys (finish_row tier idx now r) r
unfolding finish_row
finish_row-SameKeys tier idx now r =
    branch-SameKeys (is_round tier idx r && is_closing r.state) (finished_row now r) r
      (refl, refl, refl)

module _ (g : Round → Round) (keeps : (r : Round) → SameKeys (g r) r) where
  is_round-update :
      (tier : Text) (idx : ℤ) (r : Round) → is_round tier idx (g r) ≡ is_round tier idx r
  unfolding is_round
  is_round-update tier idx r = ap₂ (λ t i. text_eq t tier && eqb_ℤ i idx) (keeps r).0 (keeps r).1

  pub get_round-update :
      (rs : List Round) (tier : Text) (idx : ℤ)
      → get_round (map g rs) tier idx ≡ Option.map g (get_round rs tier idx)
  unfolding get_round
  get_round-update [] tier idx = refl
  get_round-update (r ∷ rs) tier idx = elim (Bool-cases (is_round tier idx r)) [
    | inl e ↦ rw (is_round-update tier idx r, e) refl
    | inr n ↦ rw (is_round-update tier idx r, n) (get_round-update rs tier idx)
  ]

  later-update :
      (r : Round) (o : Option Round) → later_round (g r) (Option.map g o) ≡ g (later_round r o)
  later-update r none = refl
  later-update r (some q) =
      let same = ap₂ ltb_ℤ (keeps r).1 (keeps q).1 in
      elim (Bool-cases (ltb_ℤ r.round_index q.round_index)) [
        | inl e ↦ rw (same, e) refl
        | inr n ↦ rw (same, n) refl
      ]

  pub round_ending_at-update :
      (rs : List Round) (tier : Text) (ends_at : ℤ)
      → round_ending_at (map g rs) tier ends_at ≡ Option.map g (round_ending_at rs tier ends_at)
  unfolding round_ending_at
  round_ending_at-update [] tier ends_at = refl
  round_ending_at-update (r ∷ rs) tier ends_at =
      let same = ap₂ (λ t e. text_eq t tier && eqb_ℤ e ends_at) (keeps r).0 (keeps r).2 in
      elim (Bool-cases (text_eq r.tier tier && eqb_ℤ r.ends_at ends_at)) [
        | inl e ↦
            rw (same, e) (rw (round_ending_at-update rs tier ends_at) (ap some (later-update r _)))
        | inr n ↦ rw (same, n) (round_ending_at-update rs tier ends_at)
      ]

-- What a lookup finds has the key that was looked up.
pub get_round-is_round :
    (rs : List Round) (tier : Text) (idx : ℤ) (r : Round)
    → get_round rs tier idx ≡ some r
    → is_round tier idx r ≡ true
unfolding get_round
get_round-is_round [] tier idx r h = cc
get_round-is_round (q ∷ rs) tier idx r h = elim (Bool-cases (is_round tier idx q)) [
  | inl e ↦
      rw (sym (some-eq (subst (λ b. (if b then some q else get_round rs tier idx) ≡ some r) e h))) e
  | inr n ↦
      get_round-is_round rs tier idx r
        (subst (λ b. (if b then some q else get_round rs tier idx) ≡ some r) n h)
]
