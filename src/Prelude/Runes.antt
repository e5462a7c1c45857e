-- ===== src/Prelude/Runes.antt =====
-- Go's `strings.TrimSpace`, on a text that is a list of runes.
use Prim.Native.Nat.{ℕ}
use mathlib.Core.Bool.{Bool, ◌&&◌, ◌||◌}
use mathlib.Core.List.{[], ◌∷◌}
use queens.Prelude.Tests.{leb, ◌==◌, if◌then◌else◌}
use queens.Prelude.Text.{Text}

-- The runes that `unicode.IsSpace` holds of.
abbrev is_space : ℕ → Bool
is_space r =
    ((leb 9 r && leb r 13) || (r == 32 || (r == 133 || (r == 160 || r == 5760))))
    || ((leb 8192 r && leb r 8202)
        || ((r == 8232 || r == 8233) || (r == 8239 || (r == 8287 || r == 12288))))

unfoldable pub trim_left : Text → Text
trim_left [] = []
trim_left (r ∷ rs) = let rest = trim_left rs in if is_space r then rest else r ∷ rs

-- A space at the end goes.
abbrev put_rune : ℕ → Text → Text
put_rune r [] = if is_space r then [] else r ∷ []
put_rune r (x ∷ xs) = r ∷ x ∷ xs

unfoldable pub trim_right : Text → Text
trim_right [] = []
trim_right (r ∷ rs) = put_rune r (trim_right rs)

unfoldable pub trim_space : Text → Text
trim_space s = trim_right (trim_left s)
