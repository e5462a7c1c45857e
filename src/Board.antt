-- ===== src/Board.antt =====
-- server/internal/domain/board.go: `ValidateBoard` and `countSolutions`.
-- Region ids and solution columns come out of JSON as Go `int`s and may be negative, so they are ℤ.
-- `cols` and `regs` are the two `[]bool` of the source, one flag per column and per region id.
-- Every index that the code reads is in range by then (see the checks above each read), so a read
-- past the end, which would panic in Go, is given an arbitrary value.
pub mod Rules
pub mod Count
pub mod Tally
pub mod Flags
pub mod Fits
pub mod Placements
pub mod Checks
pub mod Solution
pub mod Unique
use queens.Prelude.{
  ℕ, zero, suc, ◌+◌, ◌-◌, Bool, true, false, ◌&&◌, ◌||◌, List, [], ◌∷◌, ltb, leb, ◌==◌,
  if◌then◌else◌, get_or, set, replicate, length,
}
use queens.Prelude.Fallible.{Fallible, done, fail, check, ◌>>=◌, ◌>>◌}
use queens.Prelude.Int.{ℤ, pos, negsuc, pos_part, neg_part, ltb_ℤ, leb_ℤ, ◌-ℤ◌}

-- The errors of `ValidateBoard`, without their texts.
pub data Error : Type 0 where
  implausible_size : Error
  size_mismatch : Error
  row_width : Error
  region_outside : ℤ → Error
  region_empty : ℕ → Error
  column_outside : ℕ → ℤ → Error
  column_twice : ℕ → Error
  region_twice : ℕ → Error
  queens_touch : ℕ → Error
  solution_count : ℕ → Error

-- `abs` of the difference of two columns.
abbrev abs_diff : ℤ → ℤ → ℕ
abs_diff a b =
    (pos_part a + neg_part b - (pos_part b + neg_part a))
    + (pos_part b + neg_part a - (pos_part a + neg_part b))

-- `flags[i]`
abbrev pub flag : List Bool → ℕ → Bool
flag fs i = get_or fs i false

-- `regions[r][c]` as an index; the ids are not negative where it is called.
abbrev pub region_at : List (List ℤ) → ℕ → ℕ → ℕ
region_at regions r c = pos_part (get_or (get_or regions r []) c (pos 0))

-- `r > 0 && abs(prev-c) <= 1`
abbrev pub touches : ℕ → ℤ → ℤ → Bool
touches r prev c = ltb 0 r && leb (abs_diff prev c) 1

-- What the closure `rec` of `countSolutions` shares.
pub record Search : Type 0 where
  pub cols : List Bool
  pub regs : List Bool
  pub found : ℕ

-- `cols[c], regs[reg] = v, v`
abbrev pub mark : ℕ → ℕ → Bool → Search → Search
mark c reg v s = record s { cols = set s.cols c v; regs = set s.regs reg v }

module _ (regions : List (List ℤ)) where
  -- The body of the loop over the columns; `next` is `rec(r+1, c)`.
  pub visit : (ℕ → Search → Search) → ℕ → ℤ → ℕ → Search → Search
  visit next r prev c s =
      let reg = region_at regions r c in
      if flag s.cols c || (flag s.regs reg || touches r prev (pos c))
      then s
      else mark c reg false (next c (mark c reg true s))

  -- `for c := 0; c < size; c++`, with `left` columns to go.
  pub columns : (ℕ → Search → Search) → ℕ → ℤ → ℕ → ℕ → Search → Search
  unfolding visit
  columns next r prev zero c s = s
  columns next r prev (suc left) c s = columns next r prev left (suc c) (visit next r prev c s)

  module _ (size limit : ℕ) where
    -- `rec(r, prev)`; `left` is `size - r`, so `r == size` is `left == 0`.
    pub rec : ℕ → ℕ → ℤ → Search → Search
    unfolding columns
    rec zero r prev s = if leb limit s.found then s else record s { found = suc s.found }
    rec (suc left) r prev s =
        if leb limit s.found then s else columns (λ c t. rec left (suc r) (pos c) t) r prev size 0 s

pub count_solutions : ℕ → List (List ℤ) → ℕ → ℕ
unfolding rec
count_solutions size regions limit =
    (rec regions size limit size 0 (negsuc 1)
      (record { cols = replicate size false; regs = replicate size false; found = 0 })).found

-- The loop over the ids of one region row; it returns the flags `seen`.
pub check_ids : ℕ → List Bool → List ℤ → Fallible Error (List Bool)
check_ids size seen [] = done seen
check_ids size seen (id ∷ ids) =
    let rest = check_ids size (set seen (pos_part id) true) ids in
    if ltb_ℤ id (pos 0) || leb_ℤ (pos size) id then fail (region_outside id) else rest

-- The loop over the region rows.
pub check_rows : ℕ → List Bool → List (List ℤ) → Fallible Error (List Bool)
unfolding check_ids
check_rows size seen [] = done seen
check_rows size seen (row ∷ rows) = do
  check (length row == size) row_width
  seen' ← check_ids size seen row
  check_rows size seen' rows

-- `for id, done := range seen`
pub check_seen : ℕ → List Bool → Fallible Error (Unit {0})
check_seen id [] = done tt
check_seen id (found ∷ seen) = do check found (region_empty id); check_seen (suc id) seen

-- `for r, c := range solution`; `prev` is `solution[r-1]`.
pub check_queens :
    ℕ → List (List ℤ) → List Bool → List Bool → ℕ → ℤ → List ℤ → Fallible Error (Unit {0})
check_queens size regions cols regs r prev [] = done tt
check_queens size regions cols regs r prev (c ∷ cs) =
    let col = pos_part c in
    let reg = region_at regions r col in
    do
      check (leb_ℤ (pos 0) c && ltb_ℤ c (pos size)) (column_outside r c)
      check (if flag cols col then false else true) (column_twice col)
      check (if flag regs reg then false else true) (region_twice reg)
      check (if touches r prev c then false else true) (queens_touch r)
      check_queens size regions (set cols col true) (set regs reg true) (suc r) c cs

unfoldable pub validate_board : ℤ → List (List ℤ) → List ℤ → Fallible Error (Unit {0})
unfolding check_rows check_seen check_queens count_solutions
validate_board size' regions solution = do
  check (leb_ℤ (pos 4) size' && leb_ℤ size' (pos 20)) implausible_size
  let size = pos_part size'
  check (length regions == size && length solution == size) size_mismatch
  seen ← check_rows size (replicate size false) regions
  check_seen 0 seen
  check_queens size regions (replicate size false) (replicate size false) 0 (pos 0) solution
  let n = count_solutions size regions 2
  check (n == 1) (solution_count n)
