-- ===== src/Score/Exact.antt =====
-- Exact fractions are ordered as the clamps of the score need.
use queens.Prelude.{ℕ, ◌*◌, ◌^◌, ◌≤◌, ◌≡◌, true, false, arith}
use queens.Prelude.Int.{ℤ, pos, ltb_ℤ, ◌*ℤ◌}
use queens.Float.Exact.{exact, over}
use queens.Score.Factors.{IsOrdered}

pos_less : (a b c d : ℕ) → a * d ≤ c * b → ltb_ℤ (pos c *ℤ pos b) (pos a *ℤ pos d) ≡ false
unfolding ◌*ℤ◌
pos_less a b c d h = ground arith

less_asym : (x y : ℤ) → ltb_ℤ x y ≡ true → ltb_ℤ y x ≡ false
less_asym x y h = ground arith

pub exact-IsOrdered : IsOrdered exact
unfolding exact over
exact-IsOrdered = record {
  literals = λ m j n k h. pos_less m (10 ^ j) n (10 ^ k) h;
  asym = λ x y h. less_asym (x.num *ℤ pos y.den) (y.num *ℤ pos x.den) h;
}
