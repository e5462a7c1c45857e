-- ===== src/Board/Unique.antt =====
-- `ValidateBoard` accepts a board exactly when it is a puzzle with one solution.
use queens.Prelude.{
  ℕ, zero, suc, ◌≤◌, ◌<◌, ◌≡◌, refl, ap, sym, subst, ◌∙◌, ◌⊎◌, inl, inr, ◌↔◌, Bool, true, false,
  ◌&&◌, List, [], ◌∷◌, arith, ◌==◌, ==_iff, get_or, length, length-replicate, map, length-map, All,
  ℕ_discrete, dec_lt,
}
use queens.Prelude.Int.{ℤ, pos, negsuc, pos_part, leb_ℤ}
use queens.Prelude.Fallible.{done, check}
use queens.Board.{
  flag, Error, region_at, check_rows, check_seen, check_queens, count_solutions, validate_board,
}
use queens.Board.Rules.{IsId, IsPlacement, IsPartition, IsPuzzle}
use queens.Board.Count.{clear, completions, count_solutions_lem}
use queens.Board.Fits.{Fits, Fits→completions, Fits→completions_two, completions→FilledTwice}
use queens.Board.Placements.{Fits-iff_IsPlacement, flag-clear}
use queens.Prelude.Fallible.{check-bind, >>=-done, >>-done}
use queens.Board.Checks.{
  IsRow, InGrid, GridSeen, check_rows-GridSeen, check_rows-ok, check_seen_iff,
}
use queens.Board.Solution.{check_queens→FitsAs, Fits→check_queens}

list_discrete : Discrete (List ℕ)
list_discrete = hlevel ℕ_discrete

cell-IsId :
    (size : ℕ) (row : List ℤ) (c : ℕ)
    → All (IsId size) row
    → c < length row
    → IsId size (get_or row c (pos 0))
cell-IsId size [] c a h = absurd (omega arith)
cell-IsId size (id ∷ row) zero (i, a) h = i
cell-IsId size (id ∷ row) (suc c) (i, a) h = cell-IsId size row c a (omega arith)

grid-IsRow :
    (size : ℕ) (rows : List (List ℤ)) (r : ℕ)
    → All (IsRow size) rows
    → r < length rows
    → IsRow size (get_or rows r [])
grid-IsRow size [] r a h = absurd (omega arith)
grid-IsRow size (row ∷ rows) zero (i, a) h = i
grid-IsRow size (row ∷ rows) (suc r) (i, a) h = grid-IsRow size rows r a (omega arith)

-- Every cell of a partition holds a region of the board, so no index of the code is out of range.
region_at-lt :
    (size : ℕ) (regions : List (List ℤ))
    → length regions ≡ size
    → All (IsRow size) regions
    → (r c : ℕ) → r < size
    → c < size
    → region_at regions r c < size
region_at-lt size regions rows cells r c hr hc =
    let (wide, ids) = grid-IsRow size regions r cells (omega arith) in
    let (k, e, lt) = cell-IsId size (get_or regions r []) c ids (omega arith) in rw e lt

module _ (size : ℕ) (regions : List (List ℤ)) where
  GridSeen→IsPartition :
      (seen' : List Bool)
      → length regions ≡ size
      → GridSeen size (clear size) seen' regions
      → check_seen 0 seen' ≡ done tt
      → IsPartition size regions
  GridSeen→IsPartition seen' rows v h = record {
    rows = rows;
    cells = v.cells;
    nonempty = λ k lt. find k (
        v.only k (
          (check_seen_iff 0 seen').0 h k
            (omega (arith, v.same_length, length-replicate {0} size false))));
  }
    where
      find :
          (k : ℕ)
          → (flag (clear size) k ≡ true) ⊎ InGrid k regions
          → (r : ℕ) × (c : ℕ) × (r < size) × (c < size) × (region_at regions r c ≡ k)
      find k (inl f) = absurd (cc (flag-clear size k))
      find k (inr (r, hr, (c, hc, e))) = (
        r,
        c,
        omega arith,
        omega (arith, (grid-IsRow size regions r v.cells hr).0),
        ap pos_part e,
      )

  -- In a partition every flag is set.
  IsPartition→seen :
      (seen' : List Bool)
      → IsPartition size regions
      → GridSeen size (clear size) seen' regions
      → check_seen 0 seen' ≡ done tt
  IsPartition→seen seen' p v =
      (check_seen_iff 0 seen').1
        λ k lt. set_at k (omega (arith, v.same_length, length-replicate {0} size false))
    where
      set_at : (k : ℕ) → k < size → flag seen' k ≡ true
      set_at k lt =
          let (r, c, hr, hc, e) = p.nonempty k lt in
          let (wide, ids) = grid-IsRow size regions r p.cells (omega (arith, p.rows)) in
          let (j, e', lt') = cell-IsId size (get_or regions r []) c ids (omega arith) in
          v.marked k
            (r, omega (arith, p.rows), (c, omega arith, e' ∙ ap pos (sym (ap pos_part e') ∙ e)))

  abbrev total : ℕ
  total = completions regions size size 0 (negsuc 1) (clear size) (clear size)

  one-only :
      (queens qs : List ℕ)
      → IsPartition size regions
      → count_solutions size regions 2 ≡ 1
      → IsPlacement size regions queens
      → IsPlacement size regions qs
      → qs ≡ queens
  one-only queens qs p one v w = elim (list_discrete qs queens) [
    | yes e ↦ e
    | no ne ↦
        let fits = Fits-iff_IsPlacement regions size (region_at-lt size regions p.rows p.cells) in
        absurd (
          omega (
            arith,
            count_solutions_lem size regions 2,
            Fits→completions_two regions size size 0 (negsuc 1) (clear size) (clear size) qs queens
                ((fits (negsuc 1) qs).1 w) ((fits (negsuc 1) queens).1 v) ne,
          ))
  ]

  count-one :
      (queens : List ℕ)
      → IsPartition size regions
      → IsPlacement size regions queens
      → ((qs : List ℕ) → IsPlacement size regions qs → qs ≡ queens)
      → count_solutions size regions 2 ≡ 1
  count-one queens p v only =
      let fits = Fits-iff_IsPlacement regions size (region_at-lt size regions p.rows p.cells) in
      let one =
        Fits→completions regions size size 0 (negsuc 1) (clear size) (clear size) queens
          ((fits (negsuc 1) queens).1 v) in
      elim (dec_lt 1 total) [
        | yes two ↦
            let (qs, ps, f, g, ne) =
              completions→FilledTwice regions size size 0 (negsuc 1) (clear size) (clear size)
                two in
            absurd
              (ne (only qs ((fits (negsuc 1) qs).0 f) ∙ sym (only ps ((fits (negsuc 1) ps).0 g))))
        | no nt ↦ omega (arith, count_solutions_lem size regions 2)
      ]

check-ok : (b : Bool) (e : Error) → check b e ≡ done tt → b ≡ true
check-ok true e h = refl
check-ok false e h = cc

&&-true : (a b : Bool) → (a && b) ≡ true → (a ≡ true) × (b ≡ true)
&&-true true b h = (refl, h)
&&-true false b h = cc

&&-intro : {a b : Bool} → a ≡ true → b ≡ true → (a && b) ≡ true
&&-intro h k = rw (h, k)

in_bounds : (n : ℕ) → 4 ≤ n → n ≤ 20 → (leb_ℤ (pos 4) (pos n) && leb_ℤ (pos n) (pos 20)) ≡ true
in_bounds n lo hi = ground arith

size_cases :
    (size : ℤ)
    → (leb_ℤ (pos 4) size && leb_ℤ size (pos 20)) ≡ true
    → (size ≡ pos (pos_part size)) × (4 ≤ pos_part size) × (pos_part size ≤ 20)
size_cases (pos n) h = (refl, ground arith, ground arith)
size_cases (negsuc n) h = absurd (ground arith)

-- What an accepted board is.
validate_board→IsPuzzle :
    (size : ℤ) (regions : List (List ℤ)) (solution : List ℤ)
    → validate_board size regions solution ≡ done tt
    → IsPuzzle size regions solution
unfolding validate_board
validate_board→IsPuzzle size regions solution h =
    let n = pos_part size in
    let (a, h1) = check-bind (leb_ℤ (pos 4) size && leb_ℤ size (pos 20)) _ _ h in
    let (b, h2) = check-bind (length regions == n && length solution == n) _ _ h1 in
    let (seen, rows, h3) = >>=-done (check_rows n (clear n) regions) _ h2 in
    let (t, full, h4) = >>-done (check_seen 0 seen) _ h3 in
    let (t', placed, h5) =
      >>-done (check_queens n regions (clear n) (clear n) 0 (pos 0) solution) _ h4 in
    let (is_n, lo, hi) = size_cases size a in
    let p : IsPartition n regions =
      GridSeen→IsPartition n regions seen
        ((==_iff (length regions) n).0 (&&-true (length regions == n) _ b).0)
        (check_rows-GridSeen n (clear n) seen regions (length-replicate n false) rows) full in
    let (qs, e, f) = check_queens→FitsAs n regions (clear n) (clear n) 0 (pos 0) solution placed in
    let v : IsPlacement n regions qs =
      (Fits-iff_IsPlacement regions n (region_at-lt n regions p.rows p.cells) (pos 0) qs).0 (
        subst (λ l. Fits regions n l 0 (pos 0) (clear n) (clear n) qs)
          ((==_iff (length solution) n).0 (&&-true (length regions == n) _ b).1) f) in
    let one : count_solutions n regions 2 ≡ 1 =
      (==_iff (count_solutions n regions 2) 1).0
        (check-ok (count_solutions n regions 2 == 1) _ h5) in
    record {
      n = n;
      is_n = is_n;
      at_least = lo;
      at_most = hi;
      partition = p;
      queens = qs;
      is_queens = e;
      placed = v;
      only = λ ps w. one-only n regions qs ps p one v w;
    }

accepted :
    (n : ℕ) (regions : List (List ℤ)) (solution : List ℤ) (seen : List Bool)
    → (leb_ℤ (pos 4) (pos n) && leb_ℤ (pos n) (pos 20)) ≡ true
    → (length regions == n && length solution == n) ≡ true
    → check_rows n (clear n) regions ≡ done seen
    → check_seen 0 seen ≡ done tt
    → check_queens n regions (clear n) (clear n) 0 (pos 0) solution ≡ done tt
    → count_solutions n regions 2 ≡ 1
    → validate_board (pos n) regions solution ≡ done tt
unfolding validate_board
accepted n regions solution seen a b c d e f = rw (a, b, c, d, e, f) refl

-- Every puzzle is accepted.
IsPuzzle→validate_board :
    (size : ℤ) (regions : List (List ℤ)) (solution : List ℤ)
    → IsPuzzle size regions solution
    → validate_board size regions solution ≡ done tt
IsPuzzle→validate_board size regions solution z =
    let n = z.n in
    let p = z.partition in
    let columns : List ℤ = map pos z.queens in
    let (seen, rows) = check_rows-ok n (clear n) regions p.cells in
    let wide : length columns ≡ n = length-map z.queens pos ∙ z.placed.one_each_row in
    let fits : Fits regions n (length columns) 0 (pos 0) (clear n) (clear n) z.queens =
      subst (λ l. Fits regions n l 0 (pos 0) (clear n) (clear n) z.queens) (sym wide)
        ((Fits-iff_IsPlacement regions n (region_at-lt n regions p.rows p.cells) (pos 0) z.queens).1
          z.placed) in
    rw (z.is_n, z.is_queens)
      (accepted n regions columns seen (in_bounds n z.at_least z.at_most)
        (&&-intro ((==_iff (length regions) n).1 p.rows) ((==_iff (length columns) n).1 wide)) rows
        (IsPartition→seen n regions seen p
          (check_rows-GridSeen n (clear n) seen regions (length-replicate n false) rows))
        (Fits→check_queens n regions (clear n) (clear n) 0 (pos 0) z.queens fits)
        (count-one n regions z.queens p z.placed z.only))

-- `ValidateBoard` accepts exactly the puzzles: a board of 4 to 20 rows partitioned into as many
-- regions, with a stored solution that obeys the rules and is the only placement that does.
pub validate_board-iff_IsPuzzle :
    (size : ℤ) (regions : List (List ℤ)) (solution : List ℤ)
    → (validate_board size regions solution ≡ done tt) ↔ IsPuzzle size regions solution
validate_board-iff_IsPuzzle size regions solution =
    (validate_board→IsPuzzle size regions solution, IsPuzzle→validate_board size regions solution)
