-- ===== src/Tests/Names.antt =====
-- Names in ASCII, with a deny list of one word.
use queens.Prelude.Runes.{trim_space, trim_right, trim_left}
use queens.Prelude.{
  ℕ, ◌+◌, ◌≡◌, refl, ◌↔◌, Bool, false, ◌&&◌, ◌||◌, List, [], ◌∷◌, map, ltb, leb, ◌==◌,
  if◌then◌else◌,
}
use queens.Prelude.Fallible.{fail, done}
use queens.Prelude.Text.{Text, bytes, text_eq, text_lt}
use queens.Nickname.{
  Unicode, nickname_invalid, nickname_length, build_denylist, normalize_nickname, denied_words,
  lines_of, has_prefix, fold_for_match, letters_of, contains, has_hidden, is_denied,
  checked_nickname,
}
use queens.Nickname.Accepted.{IsAccepted, normalize_nickname_iff}

abbrev is_upper : ℕ → Bool
is_upper r = leb 65 r && leb r 90

abbrev ascii : Unicode
ascii = record {
  nfkc = λ s. s;
  lower = map (λ r. if is_upper r then r + 32 else r);
  is_letter = λ r. is_upper r || (leb 97 r && leb r 122);
  is_digit = λ r. leb 48 r && leb r 57;
  is_control = λ r. ltb r 32 || r == 127;
  is_format = λ r. false;
  is_private_use = λ r. false;
  is_surrogate = λ r. false;
}

abbrev words : List Text
words = bytes "bad" ∷ []

denied_words_read :
    build_denylist ascii (35 ∷ 32 ∷ 120 ∷ 10 ∷ 10 ∷ 66 ∷ 97 ∷ 46 ∷ 100 ∷ 10 ∷ []) ≡ words
unfolding build_denylist denied_words lines_of trim_space trim_right trim_left has_prefix
    fold_for_match letters_of contains has_hidden is_denied checked_nickname normalize_nickname
    text_eq text_lt
denied_words_read = refl

accepted : normalize_nickname ascii words (bytes "  Sun-ny ") ≡ done (bytes "Sun-ny")
unfolding normalize_nickname checked_nickname has_hidden trim_space trim_right trim_left
    fold_for_match letters_of is_denied contains has_prefix lines_of denied_words build_denylist
    text_eq text_lt
accepted = refl

denied : normalize_nickname ascii words (bytes "not B.A.D.") ≡ fail nickname_invalid
unfolding normalize_nickname checked_nickname has_hidden trim_space trim_right trim_left
    fold_for_match letters_of is_denied contains has_prefix lines_of denied_words build_denylist
    text_eq text_lt
denied = refl

short : normalize_nickname ascii words (bytes " x ") ≡ fail nickname_length
unfolding normalize_nickname checked_nickname has_hidden trim_space trim_right trim_left has_prefix
    contains lines_of letters_of fold_for_match denied_words build_denylist is_denied text_eq
    text_lt
short = refl

normalize_nickname_iff_example :
    (normalize_nickname ascii words (bytes "  Sun-ny ") ≡ done (bytes "Sun-ny"))
    ↔ IsAccepted ascii words (bytes "  Sun-ny ") (bytes "Sun-ny")
normalize_nickname_iff_example =
    normalize_nickname_iff ascii words (bytes "  Sun-ny ") (bytes "Sun-ny")
