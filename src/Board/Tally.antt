-- ===== src/Board/Tally.antt =====
-- Sums over the columns that the search does not pass over: which columns make them positive.
use queens.Prelude.{
  ℕ, zero, suc, ◌+◌, ◌≤◌, ◌<◌, ◌≡◌, subst, ◌⊎◌, inl, inr, Bool, true, false, arith, ℕ_discrete,
  Bool-cases,
}
use queens.Board.Count.{tally}

module _ (skip : ℕ → Bool) (part : ℕ → ℕ) where
  tally_skip :
      (left c : ℕ) → skip c ≡ true → tally skip part (suc left) c ≡ tally skip part left (suc c)
  unfolding tally
  tally_skip left c h = rw h (omega arith)

  tally_take :
      (left c : ℕ)
      → skip c ≡ false
      → tally skip part (suc left) c ≡ part c + tally skip part left (suc c)
  unfolding tally
  tally_take left c h = rw h

  tally_rest : (left c : ℕ) → tally skip part left (suc c) ≤ tally skip part (suc left) c
  unfolding tally
  tally_rest left c = omega arith

  pub tally_one :
      (left c d : ℕ) → c ≤ d → d < c + left → skip d ≡ false → part d ≤ tally skip part left c
  tally_one zero c d h k f = absurd (omega arith)
  tally_one (suc left) c d h k f = elim (ℕ_discrete c d) [
    | yes e ↦
        subst (λ x. part x ≤ tally skip part (suc left) c) e
          (omega (arith, tally_take left c (rw e f)))
    | no ne ↦
        omega (arith, tally_rest left c, tally_one left (suc c) d (omega arith) (omega arith) f)
  ]

  pub tally_two :
      (left c d e : ℕ)
      → c ≤ d
      → d < e
      → e < c + left
      → skip d ≡ false
      → skip e ≡ false
      → part d + part e ≤ tally skip part left c
  tally_two zero c d e h k m f g = absurd (omega arith)
  tally_two (suc left) c d e h k m f g = elim (ℕ_discrete c d) [
    | yes q ↦
        subst (λ x. part x + part e ≤ tally skip part (suc left) c) q
          (omega (
            arith,
            tally_take left c (rw q f),
            tally_one left (suc c) e (omega arith) (omega arith) g,
          ))
    | no ne ↦
        omega
          (arith, tally_rest left c, tally_two left (suc c) d e (omega arith) k (omega arith) f g)
  ]

  -- A column that contributes.
  pub tally_some :
      (left c : ℕ)
      → 1 ≤ tally skip part left c
      → (d : ℕ) × (c ≤ d) × (d < c + left) × (skip d ≡ false) × (1 ≤ part d)
  unfolding tally
  tally_some zero c h = absurd (omega arith)
  tally_some (suc left) c h = elim (Bool-cases (skip c)) [
    | inl b ↦
        let (d, lo, hi, f, one) = tally_some left (suc c) (omega (arith, tally_skip left c b)) in
        (d, omega arith, omega arith, f, one)
    | inr f ↦ elim (ℕ_discrete (part c) 0) [
      | yes z ↦
          let (d, lo, hi, g, one) = tally_some left (suc c) (omega (arith, tally_take left c f)) in
          (d, omega arith, omega arith, g, one)
      | no nz ↦ (c, omega arith, omega arith, f, omega arith)
    ]
  ]

  -- One column that contributes two, or two columns.
  abbrev pub Several : ℕ → ℕ → Type 0
  Several left c =
      ((d : ℕ) × (c ≤ d) × (d < c + left) × (skip d ≡ false) × (2 ≤ part d))
      ⊎ ((d : ℕ) × (e : ℕ) × (c ≤ d)
          × (d < e)
          × (e < c + left)
          × (skip d ≡ false)
          × (skip e ≡ false)
          × (1 ≤ part d)
          × (1 ≤ part e))

  Several-suc : (left c : ℕ) → Several left (suc c) → Several (suc left) c
  Several-suc left c (inl (d, lo, hi, f, two)) = inl (d, omega arith, omega arith, f, two)
  Several-suc left c (inr (d, e, lo, lt, hi, f, g, one, one')) =
      inr (d, e, omega arith, lt, omega arith, f, g, one, one')

  pub tally-Several : (left c : ℕ) → 2 ≤ tally skip part left c → Several left c
  unfolding tally
  tally-Several zero c h = absurd (omega arith)
  tally-Several (suc left) c h = elim (Bool-cases (skip c)) [
    | inl b ↦ Several-suc left c (tally-Several left (suc c) (omega (arith, tally_skip left c b)))
    | inr f ↦ elim (ℕ_discrete (part c) 0) [
      | yes z ↦ Several-suc left c (tally-Several left (suc c) (omega (arith, tally_take left c f)))
      | no nz ↦ elim (ℕ_discrete (part c) 1) [
        | yes u ↦
            let (e, lo, hi, g, one) =
              tally_some left (suc c) (omega (arith, tally_take left c f)) in
            inr (c, e, omega arith, lo, omega arith, f, g, omega arith, one)
        | no nu ↦ inl (c, omega arith, omega arith, f, omega arith)
      ]
    ]
  ]
