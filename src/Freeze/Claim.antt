-- ===== src/Freeze/Claim.antt =====
-- The claim of a round: a resumed closing finds the same counts.
use queens.Prelude.{
  ◌≡◌, refl, sym, ap, subst, ◌∙◌, inl, inr, true, false, none, some, List, Bool-cases, Option-cases,
  if_true, if_false,
}
use mathlib.Core.Option
use queens.Prelude.Fallible.{fail, done, >>=-done, done-injective}
use queens.Prelude.Int.{ℤ}
use queens.Prelude.Text.{Text}
use queens.Float.{Float64}
use queens.League.{LeagueConfig}
use queens.Absence.{Player, not_found}
use queens.Freeze.{
  Round, FrozenCounts, is_open, is_round, get_round, claim_row, claim_rows, claimed_row,
  freeze_counts, claim_round, claim_found,
}
use queens.Freeze.Rows.{get_round-update, claim_row-SameKeys, get_round-is_round}

pub claim_row-claims :
    (tier : Text) (idx now : ℤ) (f : FrozenCounts) (r : Round)
    → is_round tier idx r ≡ true
    → is_open r.state ≡ true
    → claim_row tier idx now f r ≡ claimed_row now f r
unfolding claim_row
claim_row-claims tier idx now f r key o = rw (key, o) refl

pub get_round-claim_rows :
    (rs : List Round) (tier : Text) (idx now : ℤ) (f : FrozenCounts) (r : Round)
    → get_round rs tier idx ≡ some r
    → is_open r.state ≡ true
    → get_round (claim_rows rs tier idx now f) tier idx ≡ some (claimed_row now f r)
get_round-claim_rows rs tier idx now f r found o =
    get_round-update (claim_row tier idx now f) (claim_row-SameKeys tier idx now f) rs tier idx
    ∙ ap (Option.map (claim_row tier idx now f)) found
    ∙ ap some (claim_row-claims tier idx now f r (get_round-is_round rs tier idx r found) o)

module _ (fl : Float64) (cfg : LeagueConfig) where
  -- A claim of an open round writes the counts that `freeze_counts` gives.
  pub claim_round-done :
      (now : ℤ) (ps : List Player) (rs rs' : List Round) (tier : Text) (idx : ℤ) (r : Round)
      → get_round rs tier idx ≡ some r
      → is_open r.state ≡ true
      → claim_round fl cfg now ps rs tier idx ≡ done rs'
      → (f : FrozenCounts) × (freeze_counts fl cfg ps rs r ≡ done f)
        × (claim_rows rs tier idx now f ≡ rs')
  unfolding claim_round claim_found
  claim_round-done now ps rs rs' tier idx r found o h =
      let (f, frozen, e) =
        >>=-done (freeze_counts fl cfg ps rs r) (λ f. done (claim_rows rs tier idx now f))
          (sym (if_true _ o) ∙ ap (claim_found fl cfg now ps rs tier idx) (sym found) ∙ h) in
      (f, frozen, done-injective e)

  claim_round-skips :
      (now : ℤ) (ps : List Player) (rs : List Round) (tier : Text) (idx : ℤ) (r : Round)
      → get_round rs tier idx ≡ some r
      → is_open r.state ≡ false
      → claim_round fl cfg now ps rs tier idx ≡ done rs
  unfolding claim_round claim_found
  claim_round-skips now ps rs tier idx r found o =
      ap (claim_found fl cfg now ps rs tier idx) found ∙ if_false _ o

  claim_round-fails :
      (now : ℤ) (ps : List Player) (rs : List Round) (tier : Text) (idx : ℤ)
      → get_round rs tier idx ≡ none
      → claim_round fl cfg now ps rs tier idx ≡ fail not_found
  unfolding claim_round claim_found
  claim_round-fails now ps rs tier idx missing = ap (claim_found fl cfg now ps rs tier idx) missing

  -- A claim that succeeds is final: claimed again at any later time and with any table of players,
  -- as a resumed closing does, the round keeps its row, the frozen counts included.
  pub claim_round_resumed :
      (now later : ℤ) (ps qs : List Player) (rs rs' : List Round) (tier : Text) (idx : ℤ)
      → claim_round fl cfg now ps rs tier idx ≡ done rs'
      → claim_round fl cfg later qs rs' tier idx ≡ done rs'
  claim_round_resumed now later ps qs rs rs' tier idx h =
      elim (Option-cases (get_round rs tier idx)) [
        | inl missing ↦ absurd (cc (sym (claim_round-fails now ps rs tier idx missing) ∙ h))
        | inr (r, found) ↦ elim (Bool-cases (is_open r.state)) [
          | inl o ↦
              let (f, frozen, e) = claim_round-done now ps rs rs' tier idx r found o h in
              subst (λ x. claim_round fl cfg later qs x tier idx ≡ done x) e
                (claim_round-skips later qs (claim_rows rs tier idx now f) tier idx
                  (claimed_row now f r) (get_round-claim_rows rs tier idx now f r found o) refl)
          | inr n ↦
              let e = done-injective (sym (claim_round-skips now ps rs tier idx r found n) ∙ h) in
              subst (λ x. claim_round fl cfg later qs x tier idx ≡ done x) e
                (claim_round-skips later qs rs tier idx r found n)
        ]
      ]

  -- A claim leaves the row of the round, no longer open.
  pub claim_round-closing :
      (now : ℤ) (ps : List Player) (rs rs' : List Round) (tier : Text) (idx : ℤ)
      → claim_round fl cfg now ps rs tier idx ≡ done rs'
      → (r : Round) × (get_round rs' tier idx ≡ some r) × (is_open r.state ≡ false)
  claim_round-closing now ps rs rs' tier idx h = elim (Option-cases (get_round rs tier idx)) [
    | inl missing ↦ absurd (cc (sym (claim_round-fails now ps rs tier idx missing) ∙ h))
    | inr (r, found) ↦ elim (Bool-cases (is_open r.state)) [
      | inl o ↦
          let (f, frozen, e) = claim_round-done now ps rs rs' tier idx r found o h in
          (
            claimed_row now f r,
            ap (λ x. get_round x tier idx) (sym e)
                ∙ get_round-claim_rows rs tier idx now f r found o,
            refl,
          )
      | inr n ↦
          let e = done-injective (sym (claim_round-skips now ps rs tier idx r found n) ∙ h) in
          (r, ap (λ x. get_round x tier idx) (sym e) ∙ found, n)
    ]
  ]
