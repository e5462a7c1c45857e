-- ===== src/Board/Solution.antt =====
-- The loop of `ValidateBoard` over the stored solution accepts exactly the placements that the search
-- would count.
use queens.Prelude.{
  ℕ, suc, ◌≡◌, refl, ap, Bool, true, false, ◌&&◌, List, [], ◌∷◌, arith, if◌then◌else◌, set, length,
  map,
}
use queens.Prelude.Int.{ℤ, pos, negsuc, ltb_ℤ, leb_ℤ}
use queens.Prelude.Fallible.{done}
use queens.Board.{flag, region_at, touches, check_queens}
use queens.Board.Fits.{Fits}
use queens.Prelude.Fallible.{check-bind}

module _ (size : ℕ) (regions : List (List ℤ)) where
  -- The solution is a list of columns that fit.
  abbrev pub FitsAs : List Bool → List Bool → ℕ → ℤ → List ℤ → Type 0
  FitsAs cols regs r prev solution =
      (qs : List ℕ) × (solution ≡ map pos qs)
      × Fits regions size (length solution) r prev cols regs qs

  pub check_queens→FitsAs :
      (cols regs : List Bool) (r : ℕ) (prev : ℤ) (solution : List ℤ)
      → check_queens size regions cols regs r prev solution ≡ done tt
      → FitsAs cols regs r prev solution
  unfolding check_queens
  check_queens→FitsAs cols regs r prev [] h = ([], refl, tt)
  check_queens→FitsAs cols regs r prev (negsuc k ∷ cs) h = absurd (ground arith)
  check_queens→FitsAs cols regs r prev (pos c ∷ cs) h =
      let reg = region_at regions r c in
      let (a, h1) = check-bind (leb_ℤ (pos 0) (pos c) && ltb_ℤ (pos c) (pos size)) _ _ h in
      let (b, h2) = check-bind (if flag cols c then false else true) _ _ h1 in
      let (d, h3) = check-bind (if flag regs reg then false else true) _ _ h2 in
      let (t, h4) = check-bind (if touches r prev (pos c) then false else true) _ _ h3 in
      let (qs, e, f) =
        check_queens→FitsAs (set cols c true) (set regs reg true) (suc r) (pos c) cs h4 in
      (c ∷ qs, ap (◌∷◌ (pos c)) e, (ground arith, ground arith, f))

  pub Fits→check_queens :
      (cols regs : List Bool) (r : ℕ) (prev : ℤ) (qs : List ℕ)
      → Fits regions size (length (map pos qs)) r prev cols regs qs
      → check_queens size regions cols regs r prev (map pos qs) ≡ done tt
  unfolding check_queens
  Fits→check_queens cols regs r prev [] f = refl
  Fits→check_queens cols regs r prev (c ∷ cs) (lt, free, f) = ground (
    arith,
    Fits→check_queens (set cols c true) (set regs (region_at regions r c) true) (suc r) (pos c) cs
        f,
  )
