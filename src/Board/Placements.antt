-- ===== src/Board/Placements.antt =====
-- The row by row search fills the empty board with exactly the placements of the rules.
use queens.Prelude.{
  ℕ, zero, suc, ◌+◌, ◌<◌, ◌≡◌, ◌≢◌, refl, ap, ◌∙◌, ◌↔◌, Bool, true, false, ◌||◌, List, [], ◌∷◌,
  arith, set, length, length-set, length-replicate, All,
}
use queens.Prelude.Int.{ℤ, pos}
use queens.Board.{region_at, flag, touches}
use queens.Board.Rules.{Distinct, Apart, regions_of, IsPlacement}
use queens.Board.Count.{blocked, clear}
use queens.Board.Flags.{flag-set}
use queens.Board.Fits.{Fits}

abbrev Unset : List Bool → List ℕ → Type 0
Unset fs = All (λ i. flag fs i ≡ false)

Unset-set :
    (fs : List Bool) (i : ℕ) (js : List ℕ)
    → i < length fs
    → Unset (set fs i true) js ↔ (All (λ j. i ≢ j) js × Unset fs js)
Unset-set fs i [] h = (λ u. (tt, tt), λ u. tt)
Unset-set fs i (j ∷ js) h =
    let e = flag-set fs i j h in
    let (there, back) = Unset-set fs i js h in
    (
      λ (u, us). ((ground arith, (there us).0), (ground arith, (there us).1)),
      λ ((n, ns), (u, us)). (ground arith, back (ns, us)),
    )

pub flag-clear : (n i : ℕ) → flag (clear n) i ≡ false
flag-clear zero i = refl
flag-clear (suc n) zero = refl
flag-clear (suc n) (suc i) = flag-clear n i

Unset-clear : (n : ℕ) (is : List ℕ) → Unset (clear n) is
Unset-clear n [] = tt
Unset-clear n (i ∷ is) = (flag-clear n i, Unset-clear n is)

-- The first queen of the rest does not touch the one above it.
abbrev Clears : ℕ → ℤ → List ℕ → Type 0
Clears r prev [] = Unit
Clears r prev (c ∷ cs) = touches r prev (pos c) ≡ false

-- `touches` is the rule for neighbouring rows.
Apart-cons : (r c : ℕ) (cs : List ℕ) → Apart (c ∷ cs) ↔ (Clears (suc r) (pos c) cs × Apart cs)
Apart-cons r c [] = (λ a. (tt, tt), λ a. tt)
Apart-cons r c (d ∷ cs) = (λ (a, rest). (ground arith, rest), λ (a, rest). (ground arith, rest))

blocked_parts :
    (regions : List (List ℤ)) (r : ℕ) (prev : ℤ) (cols regs : List Bool) (c : ℕ)
    → (blocked regions r prev cols regs c ≡ false) ↔ (
        (flag cols c ≡ false)
        × (flag regs (region_at regions r c) ≡ false)
        × (touches r prev (pos c) ≡ false))
blocked_parts regions r prev cols regs c =
    or_false (flag cols c) (flag regs (region_at regions r c)) (touches r prev (pos c))
  where
    or_false :
        (a b t : Bool) → ((a || (b || t)) ≡ false) ↔ ((a ≡ false) × (b ≡ false) × (t ≡ false))
    or_false true b t = (λ h. cc, λ h. h.0)
    or_false false true t = (λ h. cc, λ h. h.1)
    or_false false false t = (λ h. (refl, refl, h), λ h. h.2)

-- What `Fits` says, rule by rule.
record IsRest (regions : List (List ℤ)) (size left r : ℕ) (prev : ℤ) (cols regs : List Bool)
    (qs : List ℕ) : Type 0 where
  rows : length qs ≡ left
  inside : All (λ c. c < size) qs
  columns_differ : Distinct qs
  columns_free : Unset cols qs
  regions_differ : Distinct (regions_of regions r qs)
  regions_free : Unset regs (regions_of regions r qs)
  clears : Clears r prev qs
  apart : Apart qs

module _ (regions : List (List ℤ)) (size : ℕ)
    (in_range : (r c : ℕ) → r < size → c < size → region_at regions r c < size) where
  Fits→IsRest :
      (left r : ℕ) (prev : ℤ) (cols regs : List Bool) (qs : List ℕ)
      → r + left ≡ size
      → length cols ≡ size
      → length regs ≡ size
      → Fits regions size left r prev cols regs qs
      → IsRest regions size left r prev cols regs qs
  Fits→IsRest zero r prev cols regs [] e lc lr f = record {
    rows = refl;
    inside = tt;
    columns_differ = tt;
    columns_free = tt;
    regions_differ = tt;
    regions_free = tt;
    clears = tt;
    apart = tt;
  }
  Fits→IsRest zero r prev cols regs (c ∷ cs) e lc lr f = absurd f
  Fits→IsRest (suc left) r prev cols regs [] e lc lr f = absurd f
  Fits→IsRest (suc left) r prev cols regs (c ∷ cs) e lc lr (lt, free, f) =
      let reg = region_at regions r c in
      let reg_lt : reg < size = in_range r c (omega arith) lt in
      let v : IsRest regions size left (suc r) (pos c) (set cols c true) (set regs reg true) cs =
        Fits→IsRest left (suc r) (pos c) _ _ cs (omega arith) (length-set cols c true ∙ lc)
          (length-set regs reg true ∙ lr) f in
      let (cols_c, regs_c, clear_c) = (blocked_parts regions r prev cols regs c).0 free in
      let (new_cols, old_cols) = (Unset-set cols c cs (omega arith)).0 v.columns_free in
      let (new_regs, old_regs) =
        (Unset-set regs reg (regions_of regions (suc r) cs) (omega arith)).0 v.regions_free in
      record {
        rows = ap suc v.rows;
        inside = (lt, v.inside);
        columns_differ = (new_cols, v.columns_differ);
        columns_free = (cols_c, old_cols);
        regions_differ = (new_regs, v.regions_differ);
        regions_free = (regs_c, old_regs);
        clears = clear_c;
        apart = (Apart-cons r c cs).1 (v.clears, v.apart);
      }

  IsRest→Fits :
      (left r : ℕ) (prev : ℤ) (cols regs : List Bool) (qs : List ℕ)
      → r + left ≡ size
      → length cols ≡ size
      → length regs ≡ size
      → IsRest regions size left r prev cols regs qs
      → Fits regions size left r prev cols regs qs
  IsRest→Fits zero r prev cols regs [] e lc lr v = tt
  IsRest→Fits zero r prev cols regs (c ∷ cs) e lc lr v = absurd (omega (arith, v.rows))
  IsRest→Fits (suc left) r prev cols regs [] e lc lr v = absurd (omega (arith, v.rows))
  IsRest→Fits (suc left) r prev cols regs (c ∷ cs) e lc lr v =
      let reg = region_at regions r c in
      let reg_lt : reg < size = in_range r c (omega arith) v.inside.0 in
      let (clear_next, apart_next) = (Apart-cons r c cs).0 v.apart in
      (
        v.inside.0,
        (blocked_parts regions r prev cols regs c).1 (v.columns_free.0, v.regions_free.0, v.clears),
        IsRest→Fits left (suc r) (pos c) _ _ cs (omega arith) (length-set cols c true ∙ lc)
            (length-set regs reg true ∙ lr)
            (record {
              rows = omega (arith, v.rows);
              inside = v.inside.1;
              columns_differ = v.columns_differ.1;
              columns_free =
                  (Unset-set cols c cs (omega arith)).1 (v.columns_differ.0, v.columns_free.1);
              regions_differ = v.regions_differ.1;
              regions_free =
                  (Unset-set regs reg (regions_of regions (suc r) cs) (omega arith)).1
                    (v.regions_differ.0, v.regions_free.1);
              clears = clear_next;
              apart = apart_next;
            }),
      )

  -- The placements are what fits the empty board.
  pub Fits-iff_IsPlacement :
      (prev : ℤ) (qs : List ℕ)
      → Fits regions size size 0 prev (clear size) (clear size) qs ↔ IsPlacement size regions qs
  Fits-iff_IsPlacement prev qs = (there, back)
    where
      there :
          Fits regions size size 0 prev (clear size) (clear size) qs → IsPlacement size regions qs
      there f =
          let v =
            Fits→IsRest size 0 prev (clear size) (clear size) qs (omega arith)
              (length-replicate size false) (length-replicate size false) f in
          record {
            one_each_row = v.rows;
            inside = v.inside;
            columns_differ = v.columns_differ;
            regions_differ = v.regions_differ;
            apart = v.apart;
          }

      top : (ps : List ℕ) → Clears 0 prev ps
      top [] = tt
      top (c ∷ cs) = refl

      back :
          IsPlacement size regions qs → Fits regions size size 0 prev (clear size) (clear size) qs
      back v =
          IsRest→Fits size 0 prev (clear size) (clear size) qs (omega arith)
            (length-replicate size false) (length-replicate size false)
            (record {
              rows = v.one_each_row;
              inside = v.inside;
              columns_differ = v.columns_differ;
              columns_free = Unset-clear size qs;
              regions_differ = v.regions_differ;
              regions_free = Unset-clear size (regions_of regions 0 qs);
              clears = top qs;
              apart = v.apart;
            })
