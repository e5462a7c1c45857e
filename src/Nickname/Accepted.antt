-- ===== src/Nickname/Accepted.antt =====
-- Which names are accepted.
use queens.Prelude.{
  ◌≤◌, ◌≡◌, refl, sym, ap, ap₂, subst, ◌∙◌, ◌≢◌, ◌↔◌, inl, inr, true, false, not, ◌&&◌, ◌||◌, List,
  [], ◌∷◌, ◌++◌, arith, ltb, ◌==◌, ==_iff, Bool-cases, length, All, if_false, and_false_left,
  and_false_right, and_true, both_true, or_true_right, or_false, both_false,
}
use queens.Prelude.Fallible.{done, done-injective, reject-done}
use queens.Prelude.Text.{Text}
use queens.Prelude.Runes.{trim_space}
use queens.League.{is_empty}
use queens.Nickname.{
  Unicode, has_prefix, contains, is_hidden, has_hidden, is_denied, fold_for_match, checked_nickname,
  normalize_nickname,
}

-- The text stands somewhere in the other.
Occurs : Text → Text → Type 0
Occurs t s = (before : Text) × (after : Text) × (before ++ (t ++ after) ≡ s)

has_prefix-append : (t after : Text) → has_prefix (t ++ after) t ≡ true
unfolding has_prefix
has_prefix-append [] after = refl
has_prefix-append (r ∷ t) after = both_true ((==_iff r r).1 refl) (has_prefix-append t after)

has_prefix-cut : (s t : Text) → has_prefix s t ≡ true → (after : Text) × (t ++ after ≡ s)
unfolding has_prefix
has_prefix-cut s [] h = (s, refl)
has_prefix-cut [] (p ∷ ps) h = cc
has_prefix-cut (r ∷ rs) (p ∷ ps) h =
    let (same, rest) = and_true (r == p) (has_prefix rs ps) h in
    let (after, e) = has_prefix-cut rs ps rest in (after, ap₂ ◌∷◌ (sym ((==_iff r p).0 same)) e)

contains-prefix : (s t : Text) → has_prefix s t ≡ true → contains s t ≡ true
unfolding contains
contains-prefix [] t h = h
contains-prefix (r ∷ rs) t h = ap (λ b. b || contains rs t) h

contains-append : (before t after : Text) → contains (before ++ (t ++ after)) t ≡ true
unfolding contains
contains-append [] t after = contains-prefix (t ++ after) t (has_prefix-append t after)
contains-append (r ∷ before) t after = or_true_right _ (contains-append before t after)

contains-Occurs : (s t : Text) → contains s t ≡ true → Occurs t s
unfolding contains Occurs
contains-Occurs [] t h = let (after, e) = has_prefix-cut [] t h in ([], after, e)
contains-Occurs (r ∷ rs) t h = elim (Bool-cases (has_prefix (r ∷ rs) t)) [
  | inl y ↦ let (after, e) = has_prefix-cut (r ∷ rs) t y in ([], after, e)
  | inr n ↦
      let (before, after, e) = contains-Occurs rs t (sym (ap (λ b. b || contains rs t) n) ∙ h) in
      (r ∷ before, after, ap (λ x. r ∷ x) e)
]

is_empty-nil : (s : Text) → is_empty s ≡ true → s ≡ []
is_empty-nil [] h = refl
is_empty-nil (r ∷ rs) h = cc

is_empty-ne : (s : Text) → s ≢ [] → is_empty s ≡ false
is_empty-ne [] h = absurd (h refl)
is_empty-ne (r ∷ rs) h = refl

-- The word is not a part of the text, or is no word.
IsFree : Text → Text → Type 0
IsFree folded bad = bad ≢ [] → ¬ Occurs bad folded

module _ (u : Unicode) where
  has_hidden-All : (s : Text) → has_hidden u s ≡ false → All (λ r. is_hidden u r ≡ false) s
  unfolding has_hidden
  has_hidden-All [] h = tt
  has_hidden-All (r ∷ rs) h =
      let (here, later) = or_false (is_hidden u r) (has_hidden u rs) h in
      (here, has_hidden-All rs later)

  All-has_hidden : (s : Text) → All (λ r. is_hidden u r ≡ false) s → has_hidden u s ≡ false
  unfolding has_hidden
  All-has_hidden [] h = refl
  All-has_hidden (r ∷ rs) (here, later) = both_false here (All-has_hidden rs later)

  is_denied-All :
      (bads : List Text) (folded : Text)
      → is_denied u bads folded ≡ false
      → All (IsFree folded) bads
  unfolding is_denied IsFree Occurs
  is_denied-All [] folded h = tt
  is_denied-All (bad ∷ bads) folded h =
      let (here, later) =
        or_false (not (is_empty bad) && contains folded bad) (is_denied u bads folded) h in
      (
        (λ word (before, after, e). cc (
            sym here
            ∙ both_true (ap not (is_empty-ne bad word))
                (subst (λ x. contains x bad ≡ true) e (contains-append before bad after)))),
        is_denied-All bads folded later,
      )

  All-is_denied :
      (bads : List Text) (folded : Text)
      → All (IsFree folded) bads
      → is_denied u bads folded ≡ false
  unfolding is_denied IsFree
  All-is_denied [] folded h = refl
  All-is_denied (bad ∷ bads) folded (here, later) =
      both_false
        (elim (Bool-cases (is_empty bad)) [
          | inl y ↦ and_false_left (contains folded bad) (ap not y)
          | inr n ↦ elim (Bool-cases (contains folded bad)) [
            | inl y ↦ absurd (here (λ e. cc (sym n ∙ ap is_empty e)) (contains-Occurs folded bad y))
            | inr m ↦ and_false_right (not (is_empty bad)) m
          ]
        ])
        (All-is_denied bads folded later)

  -- The names that players may have.
  pub record IsAccepted (denylist : List Text) (raw s : Text) : Type 0 where
    normal : s ≡ u.nfkc (trim_space raw)
    visible : All (λ r. is_hidden u r ≡ false) s
    at_least : 2 ≤ length s
    at_most : length s ≤ 16
    written : fold_for_match u s ≢ []
    clean : All (IsFree (fold_for_match u s)) denylist

  normalize_nickname-IsAccepted :
      (denylist : List Text) (raw s : Text)
      → normalize_nickname u denylist raw ≡ done s
      → IsAccepted denylist raw s
  unfolding normalize_nickname checked_nickname
  normalize_nickname-IsAccepted denylist raw s h =
      let name = u.nfkc (trim_space raw) in
      let (seen, h1) = reject-done (has_hidden u name) _ _ h in
      let (sized, h2) = reject-done (ltb (length name) 2 || ltb 16 (length name)) _ _ h1 in
      let (written, h3) = reject-done (is_empty (fold_for_match u name)) _ _ h2 in
      let (clean, h4) = reject-done (is_denied u denylist (fold_for_match u name)) _ _ h3 in
      let (long, short) = or_false (ltb (length name) 2) (ltb 16 (length name)) sized in
      subst (IsAccepted denylist raw) (done-injective h4) (record {
        normal = refl;
        visible = has_hidden-All name seen;
        at_least = ground arith;
        at_most = ground arith;
        written = λ e. cc (sym written ∙ ap is_empty e);
        clean = is_denied-All denylist (fold_for_match u name) clean;
      })

  IsAccepted-normalize_nickname :
      (denylist : List Text) (raw s : Text)
      → IsAccepted denylist raw s
      → normalize_nickname u denylist raw ≡ done s
  unfolding normalize_nickname checked_nickname
  IsAccepted-normalize_nickname denylist raw s a =
      let long : ltb (length s) 2 ≡ false = let h = a.at_least in ground arith in
      let short : ltb 16 (length s) ≡ false = let h = a.at_most in ground arith in
      ap (checked_nickname u denylist) (sym a.normal)
      ∙ if_false _ (All-has_hidden s a.visible)
      ∙ if_false _ (both_false long short)
      ∙ if_false _ (is_empty-ne (fold_for_match u s) a.written)
      ∙ if_false _ (All-is_denied denylist (fold_for_match u s) a.clean)

  -- `NormalizeNickname` accepts a name exactly if its normal form, which it returns, has no hidden rune, from 2
  -- to 16 runes, a letter or a digit, and no denied word in its letters and digits.
  pub normalize_nickname_iff :
      (denylist : List Text) (raw s : Text)
      → (normalize_nickname u denylist raw ≡ done s) ↔ IsAccepted denylist raw s
  normalize_nickname_iff denylist raw s =
      (normalize_nickname-IsAccepted denylist raw s, IsAccepted-normalize_nickname denylist raw s)
