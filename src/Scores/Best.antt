-- ===== src/Scores/Best.antt =====
-- The round score is the best sum that the rules allow, and what one more game adds to it.
use queens.Prelude.{
  ℕ, zero, suc, ◌+◌, ◌-◌, ◌≤◌, max, ◌≡◌, refl, sym, ap, ◌∙◌, inl, inr, false, List, [], ◌∷◌, ◌++◌,
  arith, dec_lt, Bool-cases, length, get_or, take, drop, length-take, take-append-drop, All, sum,
}
use mathlib.Core.Logic.{∥∥₁_elim}
use mathlib.Core.List.{
  Perm, Permᴰ, Sublistᴰ, exists_perm_sublist, sublist-append_left, append_assoc,
  perm-append_right_iff,
}
use mathlib.Core.List.Perm
use native.Mathlib.Bridge.{le_prop}
use native.Mathlib.Nat.{ℕ_set}
use queens.Prelude.Sort.{
  IsSortedBy, IsWeakOrder, insert_by, sort_by, sort_by-perm, sort_by-IsSortedBy,
}
use queens.Prelude.Int.{ℤ, pos, negsuc, pos_part, ◌≤ℤ◌}
use queens.League.{LeagueConfig}
use queens.Scores.{
  greater, sorted_desc, is_sum_mode, round_score, cut_score, best_sum, lowest_counted,
}

greater-IsWeakOrder : IsWeakOrder greater
greater-IsWeakOrder = record {
  asym = λ a b h. ground arith;
  trans = λ a b c h k. ground arith;
  negtrans = λ a b c h k. ground arith;
}

abbrev IsDescending : List ℕ → Type 0
IsDescending = IsSortedBy greater

sorted_desc-IsDescending : (l : List ℕ) → IsDescending (sorted_desc l)
sorted_desc-IsDescending = sort_by-IsSortedBy greater greater-IsWeakOrder

sum-permᴰ : {xs ys : List ℕ} → Permᴰ xs ys → sum xs ≡ sum ys
sum-permᴰ Permᴰ.nil = refl
sum-permᴰ (Permᴰ.cons e p) = omega (arith, e, sum-permᴰ p)
sum-permᴰ (Permᴰ.swap e e') = omega (arith, e, e')
sum-permᴰ (Permᴰ.trans p q) = sum-permᴰ p ∙ sum-permᴰ q

sum-perm : {xs ys : List ℕ} → Perm xs ys → sum xs ≡ sum ys
sum-perm {xs} {ys} p = ∥∥₁_elim p (ℕ_set (sum xs) (sum ys)) sum-permᴰ

-- `x` is at least every element.
abbrev Tops : ℕ → List ℕ → Type 0
Tops x l = All (λ y. greater y x ≡ false) l

sum-take-suc : (x : ℕ) (l : List ℕ) (j : ℕ) → Tops x l → sum (take (suc j) l) ≤ x + sum (take j l)
sum-take-suc x [] zero t = omega arith
sum-take-suc x [] (suc j) t = omega arith
sum-take-suc x (y ∷ l) zero (p, t) = ground arith
sum-take-suc x (y ∷ l) (suc j) (p, t) = omega (arith, sum-take-suc x l j t)

get_or-le : (x : ℕ) (l : List ℕ) (j : ℕ) → Tops x l → get_or l j 0 ≤ x
get_or-le x [] j t = omega arith
get_or-le x (y ∷ l) zero (p, t) = ground arith
get_or-le x (y ∷ l) (suc j) (p, t) = get_or-le x l j t

sum-take-get : (l : List ℕ) (j : ℕ) → sum (take (suc j) l) ≡ sum (take j l) + get_or l j 0
sum-take-get [] zero = refl
sum-take-get [] (suc j) = refl
sum-take-get (y ∷ l) zero = omega arith
sum-take-get (y ∷ l) (suc j) = omega (arith, sum-take-get l j)

sum-take_mono : (l : List ℕ) (j k : ℕ) → j ≤ k → sum (take j l) ≤ sum (take k l)
sum-take_mono l zero k h = omega arith
sum-take_mono [] (suc j) k h = omega arith
sum-take_mono (x ∷ l) (suc j) zero h = absurd (omega arith)
sum-take_mono (x ∷ l) (suc j) (suc k) h = omega (arith, sum-take_mono l j k (omega arith))

-- One more game in a descending list.
sum-take-insert :
    (s : ℕ) (l : List ℕ) (j : ℕ)
    → IsDescending l
    → sum (take (suc j) (insert_by greater s l)) + get_or l j 0
      ≡ sum (take (suc j) l) + max s (get_or l j 0)
unfolding insert_by
sum-take-insert s [] zero d = omega arith
sum-take-insert s [] (suc j) d = omega arith
sum-take-insert s (y ∷ l) zero d = ground arith
sum-take-insert s (y ∷ l) (suc j) (t, d) =
    ground (arith, sum-take-insert s l j d, sum-take-get l j, get_or-le y l j t)

sum-Sublistᴰ : {ys l : List ℕ} → Sublistᴰ ys l → IsDescending l → sum ys ≤ sum (take (length ys) l)
sum-Sublistᴰ Sublistᴰ.slnil d = omega arith
sum-Sublistᴰ (Sublistᴰ.cons {a = x} {l₁ = ys} {l₂ = l} s) (t, d) =
    omega (arith, sum-Sublistᴰ s d, skip_top x l (length ys) t)
  where
    skip_top : (x : ℕ) (l : List ℕ) (k : ℕ) → Tops x l → sum (take k l) ≤ sum (take k (x ∷ l))
    skip_top x l zero t = omega arith
    skip_top x l (suc j) t = sum-take-suc x l j t
sum-Sublistᴰ (Sublistᴰ.cons-cons e s) (t, d) = omega (arith, e, sum-Sublistᴰ s d)

length-permᴰ : {xs ys : List ℕ} → Permᴰ xs ys → length xs ≡ length ys
length-permᴰ Permᴰ.nil = refl
length-permᴰ (Permᴰ.cons e p) = ap suc (length-permᴰ p)
length-permᴰ (Permᴰ.swap e e') = refl
length-permᴰ (Permᴰ.trans p q) = length-permᴰ p ∙ length-permᴰ q

length-perm : {xs ys : List ℕ} → Perm xs ys → length xs ≡ length ys
length-perm {xs} {ys} p = ∥∥₁_elim p (ℕ_set (length xs) (length ys)) length-permᴰ

sorted_desc-perm : (l : List ℕ) → Perm (sorted_desc l) l
sorted_desc-perm = sort_by-perm greater

-- No part of the list has a larger sum than the first elements of the descending list.
best_bound :
    (scores ys zs : List ℕ)
    → Perm scores (ys ++ zs)
    → sum ys ≤ sum (take (length ys) (sorted_desc scores))
best_bound scores ys zs p =
    ∥∥₁_elim
      (exists_perm_sublist (sublist-append_left ys zs)
        (Perm.symm (Perm.trans (sorted_desc-perm scores) p)))
      le_prop
      λ (ys', same, sub). ∥∥₁_elim sub le_prop λ s. omega (
        arith,
        sum-perm same,
        sum-Sublistᴰ s (sorted_desc-IsDescending scores),
        ap (λ n. sum (take n (sorted_desc scores))) (length-perm same),
      )

-- In a mode other than "sum", no choice of at most `round_best_n` of the games sums to more than the
-- round score.
pub sum-le-round_score :
    (cfg : LeagueConfig) (scores ys zs : List ℕ)
    → is_sum_mode cfg ≡ false
    → Perm scores (ys ++ zs)
    → pos (length ys) ≤ℤ cfg.round_best_n
    → sum ys ≤ round_score scores cfg
unfolding round_score best_sum
sum-le-round_score cfg scores ys zs m p h = rw m (
    omega (
      arith,
      best_bound scores ys zs p,
      sum-take_mono (sorted_desc scores) (length ys) (pos_part cfg.round_best_n)
          (n_bound cfg.round_best_n h),
    ))
  where
    n_bound : (n : ℤ) → pos (length ys) ≤ℤ n → length ys ≤ pos_part n
    n_bound (pos n) h = omega arith
    n_bound (negsuc n) h = absurd (omega arith)

-- In a mode other than "sum", some choice of at most `round_best_n` of the games sums to the round score.
pub round_score_attained :
    (cfg : LeagueConfig) (scores : List ℕ)
    → is_sum_mode cfg ≡ false
    → (ys : List ℕ) × (zs : List ℕ) × Perm scores (ys ++ zs)
      × (length ys ≤ pos_part cfg.round_best_n)
      × (sum ys ≡ round_score scores cfg)
unfolding round_score best_sum
round_score_attained cfg scores m =
    let n = pos_part cfg.round_best_n in
    let l = sorted_desc scores in
    (
      take n l,
      drop n l,
      rw (take-append-drop n l) (Perm.symm (sorted_desc-perm scores)),
      omega (arith, length-take n l),
      rw m refl,
    )

sum-append : (xs ys : List ℕ) → sum (xs ++ ys) ≡ sum xs + sum ys
sum-append [] ys = omega arith
sum-append (x ∷ xs) ys = omega (arith, sum-append xs ys)

best_sum-append : (n : ℤ) (scores more : List ℕ) → best_sum n scores ≤ best_sum n (scores ++ more)
unfolding best_sum
best_sum-append n scores more =
    let k = pos_part n in
    let l = sorted_desc scores in
    let p : Perm (scores ++ more) (take k l ++ (drop k l ++ more)) =
      rw (sym (append_assoc (take k l) (drop k l) more), take-append-drop k l)
        ((perm-append_right_iff more).1 (Perm.symm (sorted_desc-perm scores))) in
    omega (
      arith,
      best_bound (scores ++ more) (take k l) (drop k l ++ more) p,
      sum-take_mono (sorted_desc (scores ++ more)) (length (take k l)) k
          (omega (arith, length-take k l)),
    )

-- Games played later never lower the round score, in either mode.
pub round_score-append :
    (cfg : LeagueConfig) (scores more : List ℕ)
    → round_score scores cfg ≤ round_score (scores ++ more) cfg
unfolding round_score
round_score-append cfg scores more = elim (Bool-cases (is_sum_mode cfg)) [
  | inl e ↦ rw e (omega (arith, sum-append scores more))
  | inr e ↦ rw e (best_sum-append cfg.round_best_n scores more)
]

get_or_out : (l : List ℕ) (j : ℕ) → length l ≤ j → get_or l j 0 ≡ 0
get_or_out [] j h = refl
get_or_out (x ∷ l) zero h = absurd (omega arith)
get_or_out (x ∷ l) (suc j) h = get_or_out l j (omega arith)

-- Out of range there is no lowest game, and the cut is 0 as the code has it.
lowest_counted-get :
    (scores : List ℕ) (j : ℕ)
    → lowest_counted (pos (suc j)) scores ≡ get_or (sorted_desc scores) j 0
unfolding lowest_counted
lowest_counted-get scores j = elim (dec_lt (length scores) (suc j)) [
  | yes out ↦ ground (
    arith,
    get_or_out (sorted_desc scores) j (omega (arith, length-perm (sorted_desc-perm scores))),
  )
  | no enough ↦ let same : suc j - 1 ≡ j = omega arith in rw same (ground arith)
]

best_sum-cons :
    (n : ℤ) (s : ℕ) (scores : List ℕ)
    → pos 1 ≤ℤ n
    → best_sum n (s ∷ scores) + lowest_counted n scores
      ≡ best_sum n scores + max s (lowest_counted n scores)
unfolding best_sum sort_by
best_sum-cons (pos zero) s scores h = absurd (omega arith)
best_sum-cons (negsuc n) s scores h = absurd (omega arith)
best_sum-cons (pos (suc j)) s scores h =
    rw (lowest_counted-get scores j)
      (sum-take-insert s (sorted_desc scores) j (sorted_desc-IsDescending scores))

-- One more game raises the round score by what it exceeds the cut, and by nothing if it does not, in
-- either mode, for a `round_best_n` of at least 1.
pub round_score-cons :
    (cfg : LeagueConfig) (s : ℕ) (scores : List ℕ)
    → pos 1 ≤ℤ cfg.round_best_n
    → round_score (s ∷ scores) cfg + cut_score scores cfg
      ≡ round_score scores cfg + max s (cut_score scores cfg)
unfolding round_score cut_score
round_score-cons cfg s scores h = elim (Bool-cases (is_sum_mode cfg)) [
  | inl m ↦ rw m (omega arith)
  | inr m ↦ rw m (best_sum-cons cfg.round_best_n s scores h)
]
