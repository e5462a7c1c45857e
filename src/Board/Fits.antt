-- ===== src/Board/Fits.antt =====
-- The placements that the search counts, row by row against the flags set so far, and the number of
-- completions: none, one or several, exactly as there are such placements.
use queens.Prelude.{
  ℕ, zero, suc, ◌≤◌, ◌<◌, ◌≡◌, ◌≢◌, refl, ap₂, subst, inl, inr, Bool, true, false, List, [], ◌∷◌,
  arith, set, dec_lt,
}
use queens.Prelude.Int.{ℤ, pos}
use queens.Board.{region_at}
use queens.Board.Count.{blocked, completions}
use queens.Board.Tally.{tally_one, tally_two, tally_some, tally-Several}

module _ (regions : List (List ℤ)) (size : ℕ) where
  -- The queens `qs` fill the last `left` rows, each in a free column and region.
  abbrev pub Fits : ℕ → ℕ → ℤ → List Bool → List Bool → List ℕ → Type 0
  Fits zero r prev cols regs [] = Unit {0}
  Fits zero r prev cols regs (c ∷ cs) = ⊥
  Fits (suc left) r prev cols regs [] = ⊥
  Fits (suc left) r prev cols regs (c ∷ cs) =
      (c < size)
      × (blocked regions r prev cols regs c ≡ false)
      × Fits left (suc r) (pos c) (set cols c true) (set regs (region_at regions r c) true) cs

head-eq : {x y : ℕ} {xs ys : List ℕ} → x ∷ xs ≡ y ∷ ys → x ≡ y
head-eq h = cc

tail-eq : {x y : ℕ} {xs ys : List ℕ} → x ∷ xs ≡ y ∷ ys → xs ≡ ys
tail-eq h = cc

module _ (regions : List (List ℤ)) (size : ℕ) where
  abbrev pub Filled : ℕ → ℕ → ℤ → List Bool → List Bool → Type 0
  Filled left r prev cols regs = (qs : List ℕ) × Fits regions size left r prev cols regs qs

  -- A placement is counted.
  pub Fits→completions :
      (left r : ℕ) (prev : ℤ) (cols regs : List Bool) (qs : List ℕ)
      → Fits regions size left r prev cols regs qs
      → 1 ≤ completions regions size left r prev cols regs
  unfolding completions
  Fits→completions zero r prev cols regs qs f = omega arith
  Fits→completions (suc left) r prev cols regs [] f = absurd f
  Fits→completions (suc left) r prev cols regs (c ∷ cs) (lt, free, f) = omega (
    arith,
    tally_one (blocked regions r prev cols regs) _ size 0 c (omega arith) (omega arith) free,
    Fits→completions left (suc r) (pos c) _ _ cs f,
  )

  -- Two placements are counted twice.
  pub Fits→completions_two :
      (left r : ℕ) (prev : ℤ) (cols regs : List Bool) (qs ps : List ℕ)
      → Fits regions size left r prev cols regs qs
      → Fits regions size left r prev cols regs ps
      → qs ≢ ps
      → 2 ≤ completions regions size left r prev cols regs
  unfolding completions
  Fits→completions_two zero r prev cols regs [] [] f g ne = absurd (ne refl)
  Fits→completions_two zero r prev cols regs [] (d ∷ ds) f g ne = absurd g
  Fits→completions_two zero r prev cols regs (c ∷ cs) ps f g ne = absurd f
  Fits→completions_two (suc left) r prev cols regs [] ps f g ne = absurd f
  Fits→completions_two (suc left) r prev cols regs (c ∷ cs) [] f g ne = absurd g
  Fits→completions_two (suc left) r prev cols regs (c ∷ cs) (d ∷ ds) (lt, free, f) (lt', free', g)
        ne =
      elim (dec_lt c d) [
        | yes p ↦ omega (
          arith,
          tally_two (blocked regions r prev cols regs) _ size 0 c d (omega arith) p (omega arith)
              free free',
          Fits→completions left (suc r) (pos c) _ _ cs f,
          Fits→completions left (suc r) (pos d) _ _ ds g,
        )
        | no np ↦ elim (dec_lt d c) [
          | yes p ↦ omega (
            arith,
            tally_two (blocked regions r prev cols regs) _ size 0 d c (omega arith) p (omega arith)
                free' free,
            Fits→completions left (suc r) (pos c) _ _ cs f,
            Fits→completions left (suc r) (pos d) _ _ ds g,
          )
          | no np' ↦
              let e : c ≡ d = omega arith in
              let f' =
                subst
                  (λ x.
                    Fits regions size left (suc r) (pos x) (set cols x true)
                      (set regs (region_at regions r x) true) cs)
                  e f in
              omega (
                arith,
                tally_one (blocked regions r prev cols regs) _ size 0 d (omega arith) (omega arith)
                    free',
                Fits→completions_two left (suc r) (pos d) _ _ cs ds f' g (λ q. ne (ap₂ ◌∷◌ e q)),
              )
        ]
      ]

  -- What is counted is a placement.
  pub completions→Filled :
      (left r : ℕ) (prev : ℤ) (cols regs : List Bool)
      → 1 ≤ completions regions size left r prev cols regs
      → Filled left r prev cols regs
  unfolding completions
  completions→Filled zero r prev cols regs h = ([], tt)
  completions→Filled (suc left) r prev cols regs h =
      let (c, lo, hi, free, one) = tally_some (blocked regions r prev cols regs) _ size 0 h in
      let (qs, f) = completions→Filled left (suc r) (pos c) _ _ one in
      (c ∷ qs, (omega arith, free, f))

  abbrev pub FilledTwice : ℕ → ℕ → ℤ → List Bool → List Bool → Type 0
  FilledTwice left r prev cols regs =
      (qs : List ℕ) × (ps : List ℕ) × Fits regions size left r prev cols regs qs
      × Fits regions size left r prev cols regs ps
      × (qs ≢ ps)

  -- What is counted twice are two placements.
  pub completions→FilledTwice :
      (left r : ℕ) (prev : ℤ) (cols regs : List Bool)
      → 2 ≤ completions regions size left r prev cols regs
      → FilledTwice left r prev cols regs
  unfolding completions
  completions→FilledTwice zero r prev cols regs h = absurd (omega arith)
  completions→FilledTwice (suc left) r prev cols regs h =
      elim (tally-Several (blocked regions r prev cols regs) _ size 0 h) [
        | inl (c, lo, hi, free, two) ↦
            let (qs, ps, f, g, ne) = completions→FilledTwice left (suc r) (pos c) _ _ two in
            (c ∷ qs, c ∷ ps, (omega arith, free, f), (omega arith, free, g), λ e. ne (tail-eq e))
        | inr (c, d, lo, lt, hi, free, free', one, one') ↦
            let (qs, f) = completions→Filled left (suc r) (pos c) _ _ one in
            let (ps, g) = completions→Filled left (suc r) (pos d) _ _ one' in
            (
              c ∷ qs,
              d ∷ ps,
              (omega arith, free, f),
              (omega arith, free', g),
              λ e. absurd (omega (arith, head-eq e)),
            )
      ]
