-- ===== src/Nickname.antt =====
-- server/internal/domain/nickname.go: the names that players give themselves. A text is a list of runes; the
-- tables of Unicode and the normal form (golang.org/x/text) are given.
pub mod Accepted
use queens.Prelude.{
  ℕ, zero, suc, ◌+◌, ◌-◌, ◌*◌, ◌/◌, ◌%◌, ◌^◌, ◌≤◌, ◌<◌, min, max, ◌≡◌, refl, sym, ap, ap₂, subst,
  ◌∙◌, ◌≢◌, ◌↔◌, ◌⊎◌, inl, inr, Bool, true, false, not, ◌&&◌, ◌||◌, Option, none, some, List, [],
  ◌∷◌, ◌++◌, map, arith, dec_lt, ℕ_discrete, ltb, leb, ◌==◌, if◌then◌else◌, ltb→lt, lt→ltb, leb→le,
  ==_iff, Bool-cases, Option-cases, length, get_elem?, set, length-append, length-set, get_or, take,
  drop, replicate, length-take, length-drop, length-replicate, length-map, take-append-drop, All,
  sum, some-eq, if_true, if_false, and_false_left, and_false_right, and_true, both_true, if_both,
}
use queens.Prelude.Fallible.{Fallible, fail, done}
use queens.Prelude.Text.{Text}
use queens.Prelude.Runes.{trim_space}
use queens.League.{is_empty}

-- `ErrNicknameLength`, `ErrNicknameInvalid`
pub data NicknameError : Type 0 where
  nickname_length nickname_invalid : NicknameError

-- `norm.NFKC`, `strings.ToLower` and the classes of the package `unicode`.
pub record Unicode : Type 0 where
  pub nfkc : Text → Text
  pub lower : Text → Text
  pub is_letter : ℕ → Bool
  pub is_digit : ℕ → Bool
  pub is_control : ℕ → Bool
  pub is_format : ℕ → Bool
  pub is_private_use : ℕ → Bool
  pub is_surrogate : ℕ → Bool

-- `strings.HasPrefix`
unfoldable pub has_prefix : Text → Text → Bool
has_prefix s [] = true
has_prefix [] (p ∷ ps) = false
has_prefix (r ∷ rs) (p ∷ ps) = r == p && has_prefix rs ps

-- `strings.Contains`
unfoldable pub contains : Text → Text → Bool
contains [] t = has_prefix [] t
contains (r ∷ rs) t = has_prefix (r ∷ rs) t || contains rs t

-- A rune put back in front of the first line.
abbrev pub extend_line : ℕ → List Text → List Text
extend_line r [] = (r ∷ []) ∷ []
extend_line r (l ∷ ls) = (r ∷ l) ∷ ls

-- The lines that the scanner reads; the return at the end of a line goes with the spaces.
unfoldable pub lines_of : Text → List Text
lines_of [] = []
lines_of (r ∷ rs) = let rest = lines_of rs in if r == 10 then [] ∷ rest else extend_line r rest

module _ (u : Unicode) where
  unfoldable pub letters_of : Text → Text
  letters_of [] = []
  letters_of (r ∷ rs) =
      let rest = letters_of rs in if u.is_letter r || u.is_digit r then r ∷ rest else rest

  unfoldable pub fold_for_match : Text → Text
  fold_for_match s = letters_of (u.lower (u.nfkc s))

  unfoldable pub denied_words : List Text → List Text
  denied_words [] = []
  denied_words (l ∷ ls) =
      let line = trim_space l in
      let rest = denied_words ls in
      if is_empty line || has_prefix line (35 ∷ []) then rest else fold_for_match line ∷ rest

  unfoldable pub build_denylist : Text → List Text
  build_denylist raw = denied_words (lines_of raw)

  -- A rune that makes a name render as something it is not.
  abbrev pub is_hidden : ℕ → Bool
  is_hidden r = u.is_control r || (u.is_format r || (u.is_private_use r || u.is_surrogate r))

  unfoldable pub has_hidden : Text → Bool
  has_hidden [] = false
  has_hidden (r ∷ rs) = is_hidden r || has_hidden rs

  unfoldable pub is_denied : List Text → Text → Bool
  is_denied [] folded = false
  is_denied (bad ∷ bads) folded =
      (not (is_empty bad) && contains folded bad) || is_denied bads folded

  unfoldable pub checked_nickname : List Text → Text → Fallible NicknameError Text
  checked_nickname denylist s =
      if has_hidden s
      then fail nickname_invalid
      else if ltb (length s) 2 || ltb 16 (length s)
      then fail nickname_length
      else if is_empty (fold_for_match s)
      then fail nickname_invalid
      else if is_denied denylist (fold_for_match s)
      then fail nickname_invalid
      else done s

  unfoldable pub normalize_nickname : List Text → Text → Fallible NicknameError Text
  normalize_nickname denylist raw = checked_nickname denylist (u.nfkc (trim_space raw))
