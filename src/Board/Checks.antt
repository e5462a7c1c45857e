-- ===== src/Board/Checks.antt =====
-- The checks of `ValidateBoard` before it counts: they accept exactly the partitions, and then
-- exactly the solutions that are a placement.
use queens.Prelude.{
  ℕ, zero, suc, ◌<◌, ◌≡◌, refl, ap, subst, ◌∙◌, ◌⊎◌, inl, inr, ◌↔◌, Bool, true, false, ◌||◌, List,
  [], ◌∷◌, arith, leb, ◌==◌, get_or, set, length, length-set, All, Bool-cases, ℕ_discrete,
}
use queens.Prelude.Int.{ℤ, pos, negsuc, pos_part, ltb_ℤ, leb_ℤ}
use queens.Prelude.Fallible.{done-injective, done, check-bind, >>=-done}
use queens.Board.{flag, check_ids, check_rows, check_seen}
use queens.Board.Rules.{IsId}
use queens.Board.Flags.{flag-set}

-- The id `k` stands in the row.
abbrev pub InRow : ℕ → List ℤ → Type 0
InRow k row = (c : ℕ) × (c < length row) × (get_or row c (pos 0) ≡ pos k)

InRow-cons : (k : ℕ) (id : ℤ) (row : List ℤ) → InRow k row → InRow k (id ∷ row)
InRow-cons k id row (c, lt, e) = (suc c, omega arith, e)

IsId-ok : (size : ℕ) (id : ℤ) → (ltb_ℤ id (pos 0) || leb_ℤ (pos size) id) ≡ false → IsId size id
IsId-ok size (pos k) h = (k, refl, ground arith)
IsId-ok size (negsuc k) h = absurd (ground arith)

id_bad : (size : ℕ) (id : ℤ) → IsId size id → (ltb_ℤ id (pos 0) || leb_ℤ (pos size) id) ≡ false
id_bad size id (k, e, lt) = rw e (ground arith)

record RowSeen (size : ℕ) (seen seen' : List Bool) (row : List ℤ) : Type 0 where
  same_length : length seen' ≡ length seen
  ids : All (IsId size) row
  only : (k : ℕ) → flag seen' k ≡ true → (flag seen k ≡ true) ⊎ InRow k row
  kept : (k : ℕ) → flag seen k ≡ true → flag seen' k ≡ true
  marked : (k : ℕ) → InRow k row → flag seen' k ≡ true

module _ (size : ℕ) (seen seen' : List Bool) (k : ℕ) (ids : List ℤ) (len : length seen ≡ size)
    (lt : k < size) (v : RowSeen size (set seen k true) seen' ids) where
  RowSeen-only : (j : ℕ) → flag seen' j ≡ true → (flag seen j ≡ true) ⊎ InRow j (pos k ∷ ids)
  RowSeen-only j h = elim (v.only j h) [
    | inl f ↦ elim (ℕ_discrete k j) [
      | yes e ↦ inr (0, omega arith, ap pos e)
      | no ne ↦ inl (ground (arith, flag-set seen k j (omega arith)))
    ]
    | inr m ↦ inr (InRow-cons j (pos k) ids m)
  ]

  RowSeen-marked : (j : ℕ) → InRow j (pos k ∷ ids) → flag seen' j ≡ true
  RowSeen-marked j (zero, l, e) = v.kept j (rw (flag-set seen k j (omega arith)) (ground arith))
  RowSeen-marked j (suc c, l, e) = v.marked j (c, omega arith, e)

  RowSeen-cons : RowSeen size seen seen' (pos k ∷ ids)
  RowSeen-cons = record {
    same_length = v.same_length ∙ length-set seen k true;
    ids = ((k, refl, lt), v.ids);
    only = RowSeen-only;
    kept = λ j h. v.kept j (rw (flag-set seen k j (omega arith)) (ground arith));
    marked = RowSeen-marked;
  }

-- The loop over a row accepts region ids only, and marks those that it meets.
check_ids-RowSeen :
    (size : ℕ) (seen seen' : List Bool) (ids : List ℤ)
    → length seen ≡ size
    → check_ids size seen ids ≡ done seen'
    → RowSeen size seen seen' ids
unfolding check_ids
check_ids-RowSeen size seen seen' [] len h =
    subst (λ t. RowSeen size seen t []) (done-injective h)
      (record {
        same_length = refl;
        ids = tt;
        only = λ k f. inl f;
        kept = λ k f. f;
        marked = λ k (c, lt, e). absurd (omega arith);
      })
check_ids-RowSeen size seen seen' (pos k ∷ ids) len h = elim (Bool-cases (leb size k)) [
  | inl bad ↦ absurd (ground arith)
  | inr good ↦ RowSeen-cons size seen seen' k ids len (ground arith) (
      check_ids-RowSeen size (set seen k true) seen' ids (length-set seen k true ∙ len)
        (ground arith))
]
check_ids-RowSeen size seen seen' (negsuc k ∷ ids) len h = absurd (ground arith)

check_ids-ok :
    (size : ℕ) (seen : List Bool) (ids : List ℤ)
    → All (IsId size) ids
    → (seen' : List Bool) × (check_ids size seen ids ≡ done seen')
unfolding check_ids
check_ids-ok size seen [] a = (seen, refl)
check_ids-ok size seen (id ∷ ids) (i, rest) =
    let (seen', e) = check_ids-ok size (set seen (pos_part id) true) ids rest in
    (seen', rw (id_bad size id i) e)

-- The id `k` stands on the board.
abbrev pub InGrid : ℕ → List (List ℤ) → Type 0
InGrid k rows = (r : ℕ) × (r < length rows) × InRow k (get_or rows r [])

abbrev pub IsRow : ℕ → List ℤ → Type 0
IsRow size row = (length row ≡ size) × All (IsId size) row

pub record GridSeen (size : ℕ) (seen seen' : List Bool) (rows : List (List ℤ)) : Type 0 where
  pub same_length : length seen' ≡ length seen
  pub cells : All (IsRow size) rows
  pub only : (k : ℕ) → flag seen' k ≡ true → (flag seen k ≡ true) ⊎ InGrid k rows
  pub kept : (k : ℕ) → flag seen k ≡ true → flag seen' k ≡ true
  pub marked : (k : ℕ) → InGrid k rows → flag seen' k ≡ true

GridSeen-cons :
    (size : ℕ) (seen mid seen' : List Bool) (row : List ℤ) (rows : List (List ℤ))
    → length row ≡ size
    → RowSeen size seen mid row
    → GridSeen size mid seen' rows
    → GridSeen size seen seen' (row ∷ rows)
GridSeen-cons size seen mid seen' row rows wide u v = record {
  same_length = v.same_length ∙ u.same_length;
  cells = ((wide, u.ids), v.cells);
  only = λ k h. elim (v.only k h) [
    | inl m ↦ elim (u.only k m) [ inl f ↦ inl f | inr c ↦ inr (0, omega arith, c) ]
    | inr (r, lt, c) ↦ inr (suc r, omega arith, c)
  ];
  kept = λ k f. v.kept k (u.kept k f);
  marked = marks;
}
  where
    marks : (k : ℕ) → InGrid k (row ∷ rows) → flag seen' k ≡ true
    marks k (zero, lt, c) = v.kept k (u.marked k c)
    marks k (suc r, lt, c) = v.marked k (r, omega arith, c)

-- The loop over the rows accepts rows of the right width with region ids only.
pub check_rows-GridSeen :
    (size : ℕ) (seen seen' : List Bool) (rows : List (List ℤ))
    → length seen ≡ size
    → check_rows size seen rows ≡ done seen'
    → GridSeen size seen seen' rows
unfolding check_rows
check_rows-GridSeen size seen seen' [] len h =
    subst (λ t. GridSeen size seen t []) (done-injective h)
      (record {
        same_length = refl;
        cells = tt;
        only = λ k f. inl f;
        kept = λ k f. f;
        marked = λ k (r, lt, c). absurd (omega arith);
      })
check_rows-GridSeen size seen seen' (row ∷ rows) len h =
    let (wide, rest) = check-bind (length row == size) _ _ h in
    let (mid, e, last) = >>=-done (check_ids size seen row) _ rest in
    let u = check_ids-RowSeen size seen mid row len e in
    GridSeen-cons size seen mid seen' row rows (ground arith) u
      (check_rows-GridSeen size mid seen' rows (u.same_length ∙ len) last)

pub check_rows-ok :
    (size : ℕ) (seen : List Bool) (rows : List (List ℤ))
    → All (IsRow size) rows
    → (seen' : List Bool) × (check_rows size seen rows ≡ done seen')
unfolding check_rows
check_rows-ok size seen [] a = (seen, refl)
check_rows-ok size seen (row ∷ rows) ((wide, ids), rest) =
    let (mid, e) = check_ids-ok size seen row ids in
    let (seen', e') = check_rows-ok size mid rows rest in
    let w : (length row == size) ≡ true = ground arith in (seen', rw (w, e) e')

abbrev pub AllSet : List Bool → Type 0
AllSet seen = (k : ℕ) → k < length seen → flag seen k ≡ true

AllSet-cons : (seen : List Bool) → AllSet seen → AllSet (true ∷ seen)
AllSet-cons seen h zero lt = refl
AllSet-cons seen h (suc k) lt = h k (omega arith)

-- The last loop accepts the flags that are all set.
pub check_seen_iff : (id : ℕ) (seen : List Bool) → (check_seen id seen ≡ done tt) ↔ AllSet seen
unfolding check_seen
check_seen_iff id [] = (λ h k lt. absurd (omega arith), λ h. refl)
check_seen_iff id (true ∷ seen) =
    let (there, back) = check_seen_iff (suc id) seen in
    (λ h. AllSet-cons seen (there h), λ h. back (λ k lt. h (suc k) (omega arith)))
check_seen_iff id (false ∷ seen) = (λ h. cc, λ h. absurd (cc (h 0 (omega arith))))
