-- ===== src/Board/Rules.antt =====
-- The rules of the puzzle, stated without the program: what a placement of queens is, and what makes
-- a board a puzzle with one solution. A placement gives the column of the queen of each row, from
-- the top.
use queens.Prelude.{ℕ, suc, ◌+◌, ◌≤◌, ◌<◌, ◌≡◌, ◌≢◌, ◌⊎◌, List, [], ◌∷◌, All, length, map}
use queens.Prelude.Int.{ℤ, pos}
use queens.Board.{region_at}

-- No value occurs twice.
abbrev pub Distinct : List ℕ → Type 0
Distinct [] = Unit
Distinct (x ∷ xs) = All (λ y. x ≢ y) xs × Distinct xs

-- Queens of neighbouring rows do not touch.
abbrev pub Apart : List ℕ → Type 0
Apart [] = Unit
Apart (c ∷ []) = Unit
Apart (c ∷ d ∷ cs) = ((c + 1 < d) ⊎ (d + 1 < c)) × Apart (d ∷ cs)

-- The regions that the queens stand in, from row `r` on.
abbrev pub regions_of : List (List ℤ) → ℕ → List ℕ → List ℕ
regions_of regions r [] = []
regions_of regions r (c ∷ cs) = region_at regions r c ∷ regions_of regions (suc r) cs

-- One queen in each row, none outside the board, no two in a column or a region, none touching.
pub record IsPlacement (size : ℕ) (regions : List (List ℤ)) (qs : List ℕ) : Type 0 where
  pub one_each_row : length qs ≡ size
  pub inside : All (λ c. c < size) qs
  pub columns_differ : Distinct qs
  pub regions_differ : Distinct (regions_of regions 0 qs)
  pub apart : Apart qs

-- A region id of a board of the given size.
abbrev pub IsId : ℕ → ℤ → Type 0
IsId size id = (k : ℕ) × (id ≡ pos k) × (k < size)

-- A square of region ids in which every region has a cell.
pub record IsPartition (size : ℕ) (regions : List (List ℤ)) : Type 0 where
  pub rows : length regions ≡ size
  pub cells : All (λ row. (length row ≡ size) × All (IsId size) row) regions
  pub nonempty :
      (k : ℕ) → k < size → (r : ℕ) × (c : ℕ) × (r < size) × (c < size) × (region_at regions r c ≡ k)

-- A puzzle: a sensible size, a partition, and a solution that is the only placement.
pub record IsPuzzle (size : ℤ) (regions : List (List ℤ)) (solution : List ℤ) : Type 0 where
  pub n : ℕ
  pub is_n : size ≡ pos n
  pub at_least : 4 ≤ n
  pub at_most : n ≤ 20
  pub partition : IsPartition n regions
  pub queens : List ℕ
  pub is_queens : solution ≡ map pos queens
  pub placed : IsPlacement n regions queens
  pub only : (qs : List ℕ) → IsPlacement n regions qs → qs ≡ queens
