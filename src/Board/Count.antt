-- ===== src/Board/Count.antt =====
-- What `countSolutions` counts: it restores its two flag arrays, and `found` is the number of
-- completions, cut off at the limit.
use queens.Prelude.{
  ℕ, zero, suc, ◌+◌, ◌≤◌, ◌≡◌, refl, ap, sym, inl, inr, Bool, true, false, ◌||◌, List, [], ◌∷◌,
  arith, leb, if◌then◌else◌, set, replicate, min, Bool-cases,
}
use native.Mathlib.Nat.{zero-add}
use queens.Prelude.Int.{ℤ, pos, negsuc}
use queens.Board.{Search, flag, region_at, touches, mark, visit, columns, rec, count_solutions}

-- Taking a mark back restores the flags.
set_restore : (fs : List Bool) (i : ℕ) → flag fs i ≡ false → set (set fs i true) i false ≡ fs
set_restore [] i h = refl
set_restore (b ∷ fs) zero h = ap (λ x. x ∷ fs) (sym h)
set_restore (b ∷ fs) (suc i) h = ap (◌∷◌ b) (set_restore fs i h)

-- A cell that the search passes over.
abbrev pub blocked : List (List ℤ) → ℕ → ℤ → List Bool → List Bool → ℕ → Bool
blocked regions r prev cols regs c =
    flag cols c || (flag regs (region_at regions r c) || touches r prev (pos c))

-- The sum of `part` over the columns `c`, …, `c + left - 1` that are not passed over.
unfoldable pub tally : (ℕ → Bool) → (ℕ → ℕ) → ℕ → ℕ → ℕ
tally skip part zero c = 0
tally skip part (suc left) c = (if skip c then 0 else part c) + tally skip part left (suc c)

-- The number of ways to fill the last `left` rows.
unfoldable pub completions : List (List ℤ) → ℕ → ℕ → ℕ → ℤ → List Bool → List Bool → ℕ
completions regions size zero r prev cols regs = 1
completions regions size (suc left) r prev cols regs =
    tally (blocked regions r prev cols regs)
      (λ c.
        completions regions size left (suc r) (pos c) (set cols c true)
          (set regs (region_at regions r c) true))
      size 0

-- The state after a search that found `n` more.
abbrev found_more : ℕ → ℕ → Search → Search
found_more limit n s = record s { found = min limit (s.found + n) }

module _ (regions : List (List ℤ)) (limit : ℕ) (next : ℕ → Search → Search)
    (below : ℕ → List Bool → List Bool → ℕ)
    (step : (c : ℕ) (s : Search)
      → s.found ≤ limit
      → next c s ≡ found_more limit (below c s.cols s.regs) s) where
  visit_lem :
      (r : ℕ) (prev : ℤ) (c : ℕ) (s : Search)
      → s.found ≤ limit
      → visit regions next r prev c s
        ≡ found_more limit
            (if blocked regions r prev s.cols s.regs c
              then 0
              else below c (set s.cols c true) (set s.regs (region_at regions r c) true))
            s
  unfolding visit
  visit_lem r prev c s h = ground (
    arith,
    step c (mark c (region_at regions r c) true s),
    set_restore s.cols c,
    set_restore s.regs (region_at regions r c),
  )

  columns_lem :
      (r : ℕ) (prev : ℤ) (left c : ℕ) (s : Search)
      → s.found ≤ limit
      → columns regions next r prev left c s
        ≡ found_more limit
            (tally
              (blocked regions r prev s.cols s.regs)
              (λ d. below d (set s.cols d true) (set s.regs (region_at regions r d) true))
              left
              c)
            s
  unfolding columns tally
  columns_lem r prev zero c s h = ground arith
  columns_lem r prev (suc left) c s h =
      let x : ℕ =
        if blocked regions r prev s.cols s.regs c
        then 0
        else below c (set s.cols c true) (set s.regs (region_at regions r c) true) in
      rw
        (
          visit_lem r prev c s h,
          columns_lem r prev left (suc c) (found_more limit x s) (omega arith),
        )
        (ground arith)

module _ (regions : List (List ℤ)) (size limit : ℕ) where
  rec_lem :
      (left r : ℕ) (prev : ℤ) (s : Search)
      → s.found ≤ limit
      → rec regions size limit left r prev s
        ≡ found_more limit (completions regions size left r prev s.cols s.regs) s
  unfolding rec completions
  rec_lem zero r prev s h = ground arith
  rec_lem (suc left) r prev s h = elim (Bool-cases (leb limit s.found)) [
    | inl full ↦ rw full (ground arith)
    | inr room ↦ rw room (
        columns_lem regions limit _ (λ c cs rs. completions regions size left (suc r) (pos c) cs rs)
          (λ c t. rec_lem left (suc r) (pos c) t) r prev size 0 s h)
  ]

-- No flag is set.
abbrev pub clear : ℕ → List Bool
clear size = replicate size false

-- The loop stops early only at the limit: it returns the number of completions of the empty board.
pub count_solutions_lem :
    (size : ℕ) (regions : List (List ℤ)) (limit : ℕ)
    → count_solutions size regions limit
      ≡ min limit (completions regions size size 0 (negsuc 1) (clear size) (clear size))
unfolding count_solutions
count_solutions_lem size regions limit =
    let s : Search = record { cols = clear size; regs = clear size; found = 0 } in
    rw zero-add at
      (ap (λ (t : Search). t.found) (rec_lem regions size limit size 0 (negsuc 1) s (omega arith)))
