-- ===== src/Prelude/Sort.antt =====
-- Go's `sort`: a stable sort by a `less` function, as insertion sort. Sorting is independent of the
-- order of the input where `less` tells every two elements apart.
use mathlib.Core.Path.{◌≡◌, refl, sym, ap, ap₂, subst, ◌∙◌}
use mathlib.Core.Logic.{◌⊎◌, ◌≢◌, inl, inr, ∥∥₁_elim}
use mathlib.Core.Bool.{Bool, true, false}
use mathlib.Core.List.{List, [], ◌∷◌, map, Perm, Permᴰ, Nodup, Nodup-cons, mem-cons_self}
use mathlib.Core.List.Perm
use mathlib.Core.Option.{some}
use Prim.Native.Nat.{ℕ, zero, suc, ◌<◌}
use native.Mathlib.Omega.{arith}
use queens.Prelude.Tests.{if◌then◌else◌, Bool-cases}
use queens.Prelude.Lists.{All, length, get_elem?, some-eq}

module _ {A : Type 0} (less : A → A → Bool) where
  -- Before the first element that is not less: equal elements keep their order.
  unfoldable pub insert_by : A → List A → List A
  insert_by x [] = x ∷ []
  insert_by x (y ∷ ys) = if less y x then y ∷ insert_by x ys else x ∷ y ∷ ys

  unfoldable pub sort_by : List A → List A
  unfolding insert_by
  sort_by [] = []
  sort_by (x ∷ xs) = insert_by x (sort_by xs)

  -- No element is less than an earlier one.
  abbrev pub IsSortedBy : List A → Type 0
  IsSortedBy [] = Unit
  IsSortedBy (x ∷ xs) = All (λ y. less y x ≡ false) xs × IsSortedBy xs

  -- What Go asks of `less`: a strict weak order.
  pub record IsWeakOrder : Type 0 where
    pub asym : (a b : A) → less a b ≡ true → less b a ≡ false
    pub trans : (a b c : A) → less a b ≡ true → less b c ≡ true → less a c ≡ true
    pub negtrans : (a b c : A) → less b a ≡ false → less c b ≡ false → less c a ≡ false

  insert_by-perm : (x : A) (l : List A) → Perm (insert_by x l) (x ∷ l)
  unfolding insert_by
  insert_by-perm x [] = Perm.rfl
  insert_by-perm x (y ∷ ys) = elim (Bool-cases (less y x)) [
    | inl h ↦ rw h (Perm.trans (Perm.cons y (insert_by-perm x ys)) (Perm.swap x y ys))
    | inr h ↦ rw h Perm.rfl
  ]

  pub sort_by-perm : (l : List A) → Perm (sort_by l) l
  unfolding sort_by
  sort_by-perm [] = Perm.rfl
  sort_by-perm (x ∷ xs) = Perm.trans (insert_by-perm x (sort_by xs)) (Perm.cons x (sort_by-perm xs))

  pub All-insert_by {κ} :
      (P : A → Type κ) (x : A) (l : List A) → P x → All P l → All P (insert_by x l)
  unfolding insert_by
  All-insert_by P x [] p a = (p, a)
  All-insert_by P x (y ∷ ys) p (q, a) = elim (Bool-cases (less y x)) [
    | inl h ↦ rw h (q, All-insert_by P x ys p a)
    | inr h ↦ rw h (p, (q, a))
  ]

  pub All-sort_by {κ} : (P : A → Type κ) (l : List A) → All P l → All P (sort_by l)
  unfolding sort_by
  All-sort_by P [] a = tt
  All-sort_by P (x ∷ xs) (p, a) = All-insert_by P x (sort_by xs) p (All-sort_by P xs a)

  module _ (w : IsWeakOrder) where
    insert_by-IsSortedBy : (x : A) (l : List A) → IsSortedBy l → IsSortedBy (insert_by x l)
    unfolding insert_by
    insert_by-IsSortedBy x [] s = (tt, tt)
    insert_by-IsSortedBy x (y ∷ ys) (a, s) = elim (Bool-cases (less y x)) [
      | inl h ↦
          rw h (
            All-insert_by (λ z. less z y ≡ false) x ys (w.asym y x h) a,
            insert_by-IsSortedBy x ys s,
          )
      | inr h ↦ rw h ((h, All-negtrans x y ys h a), (a, s))
    ]
      where
        All-negtrans :
            (x y : A) (l : List A)
            → less y x ≡ false
            → All (λ z. less z y ≡ false) l
            → All (λ z. less z x ≡ false) l
        All-negtrans x y [] h a = tt
        All-negtrans x y (z ∷ zs) h (p, a) = (w.negtrans x y z h p, All-negtrans x y zs h a)

    pub sort_by-IsSortedBy : (l : List A) → IsSortedBy (sort_by l)
    unfolding sort_by
    sort_by-IsSortedBy [] = tt
    sort_by-IsSortedBy (x ∷ xs) = insert_by-IsSortedBy x (sort_by xs) (sort_by-IsSortedBy xs)

-- Elements with different keys are told apart, so lists without a repeated key have one order.
module _ {A K : Type 0} (less : A → A → Bool) (w : IsWeakOrder less) (key : A → K)
    (total : (a b : A) → key a ≢ key b → (less a b ≡ true) ⊎ (less b a ≡ true)) where
  insert_by_comm :
      (x y : A) (l : List A)
      → less x y ≡ true
      → insert_by less x (insert_by less y l) ≡ insert_by less y (insert_by less x l)
  unfolding insert_by
  insert_by_comm x y [] h = ground (arith, w.asym x y)
  insert_by_comm x y (z ∷ zs) h = ground (arith, w.asym x y, w.trans z x y, insert_by_comm x y zs h)

  keys_differ : (x y : A) (l : List A) → Nodup (map key (x ∷ y ∷ l)) → key x ≢ key y
  keys_differ x y l n e = (Nodup-cons.0 n).0 (rw e mem-cons_self)

  swap_lem :
      (x y : A) (l : List A)
      → key x ≢ key y
      → insert_by less x (insert_by less y l) ≡ insert_by less y (insert_by less x l)
  swap_lem x y l n = elim (total x y n) [
    | inl h ↦ insert_by_comm x y l h
    | inr h ↦ sym (insert_by_comm y x l h)
  ]

  sort_by-eq_of_Permᴰ :
      {xs ys : List A} → Permᴰ xs ys → Nodup (map key xs) → sort_by less xs ≡ sort_by less ys
  unfolding sort_by
  sort_by-eq_of_Permᴰ Permᴰ.nil n = refl
  sort_by-eq_of_Permᴰ (Permᴰ.cons {l₁ = l} e p) n =
      ap₂ (insert_by less) e (sort_by-eq_of_Permᴰ p (Nodup-cons.0 n).1)
  sort_by-eq_of_Permᴰ (Permᴰ.swap {a = x} {b = y} {l = l} e e') n =
      rw (← e, ← e') (swap_lem x y (sort_by less l) (keys_differ x y l n))
  sort_by-eq_of_Permᴰ (Permᴰ.trans p q) n =
      sort_by-eq_of_Permᴰ p n ∙ sort_by-eq_of_Permᴰ q (Perm.nodup (Perm.map key ∣ p ∣₁) n)

  -- The order of the input does not matter.
  pub sort_by-eq_of_perm :
      IsSet (List A)
      → (xs ys : List A) → Perm xs ys
      → Nodup (map key xs)
      → sort_by less xs ≡ sort_by less ys
  sort_by-eq_of_perm set xs ys p n = ∥∥₁_elim p (set _ _) (λ d. sort_by-eq_of_Permᴰ d n)

module _ {A : Type 0} (less : A → A → Bool) where
  length-insert_by : (x : A) (l : List A) → length (insert_by less x l) ≡ suc (length l)
  unfolding insert_by
  length-insert_by x [] = refl
  length-insert_by x (y ∷ ys) = ground (arith, length-insert_by x ys)

  pub length-sort_by : (l : List A) → length (sort_by less l) ≡ length l
  unfolding sort_by
  length-sort_by [] = refl
  length-sort_by (x ∷ xs) = length-insert_by x (sort_by less xs) ∙ ap suc (length-sort_by xs)

  All-get {κ} :
      (P : A → Type κ) (l : List A) (j : ℕ) {y : A} → All P l → get_elem? l j ≡ some y → P y
  All-get P [] j a h = cc
  All-get P (x ∷ l) zero (p, a) h = subst P (some-eq h) p
  All-get P (x ∷ l) (suc j) (p, a) h = All-get P l j a h

  -- An element is not less than one at an earlier place.
  pub IsSortedBy-get :
      (l : List A) (i j : ℕ) {x y : A}
      → IsSortedBy less l
      → i < j
      → get_elem? l i ≡ some x
      → get_elem? l j ≡ some y
      → less y x ≡ false
  IsSortedBy-get [] i j s h e e' = cc
  IsSortedBy-get (z ∷ l) i zero s h e e' = absurd (omega arith)
  IsSortedBy-get (z ∷ l) zero (suc j) {x} {y} (a, s) h e e' =
      subst (λ w. less y w ≡ false) (some-eq e) (All-get (λ w. less w z ≡ false) l j a e')
  IsSortedBy-get (z ∷ l) (suc i) (suc j) (a, s) h e e' = IsSortedBy-get l i j s (omega arith) e e'
