-- ===== src/Bots/Stream.antt =====
-- The stream of pseudo-random numbers of a bot: it stays in its range, never reaches the fixed point 0,
-- and its products fit into 64 bits.
use queens.Prelude.{ℕ, zero, suc, ◌+◌, ◌*◌, ◌/◌, ◌%◌, ◌^◌, ◌<◌, ◌≡◌, ◌≢◌, arith, if◌then◌else◌}
use native.Mathlib.Nat.{mod-lt}
use queens.Prelude.Int.{neg_of, ℤ, pos, negsuc, pos_part, ltb_ℤ, ◌+ℤ◌}
use queens.Round.{rem}
use queens.Bots.{pm_mod, pm, posmod}

-- 48271 is a unit modulo 2147483647: its inverse is 1899818559.
unit_cancels :
    (x q : ℕ)
    → x * 48271 ≡ q * 2147483647
    → x + (x * 42704) * 2147483647 ≡ (q * 1899818559) * 2147483647
unit_cancels x q e = omega arith

multiple-zero : (x c d : ℕ) → x < 2147483647 → x + c * 2147483647 ≡ d * 2147483647 → x ≡ 0
multiple-zero x c d h e = omega arith

-- A state of the generator: 1 to 2147483646.
abbrev pub IsState : ℕ → Type 0
IsState x = (0 < x) × (x < pm_mod)

-- A Park-Miller step maps a state, 1 to 2147483646, to a state, and its product is below 2^63.
pub pm-IsState : (x : ℕ) → IsState x → IsState (pm x) × (x * 48271 < 2 ^ 63)
unfolding pm
pm-IsState x (lo, hi) =
    let q = x * 48271 / 2147483647 in
    let nonzero : x * 48271 % 2147483647 ≢ 0 = λ z.
      let e : x * 48271 ≡ q * 2147483647 = omega (arith, z) in
      let gone = multiple-zero x (x * 42704) (q * 1899818559) hi (unit_cancels x q e) in
      absurd (omega (arith, gone, lo)) in
    ((omega (arith, nonzero), omega arith), omega arith)

kept-lt : (r m : ℕ) → r < m → pos_part (if ltb_ℤ (pos r) (pos 0) then pos r +ℤ pos m else pos r) < m
unfolding ◌+ℤ◌
kept-lt r m k = ground arith

posmod-lt_pos : (a m : ℕ) → 0 < m → posmod (pos a) m < m
unfolding posmod rem
posmod-lt_pos a m h = kept-lt (a % m) m (mod-lt a h)

wrapped-lt :
    (r m : ℕ)
    → r < m
    → pos_part (if ltb_ℤ (neg_of r) (pos 0) then neg_of r +ℤ pos m else neg_of r) < m
unfolding ◌+ℤ◌
wrapped-lt zero m k = omega (arith, k)
wrapped-lt (suc r) m k = ground arith

posmod-lt_neg : (a m : ℕ) → 0 < m → posmod (negsuc a) m < m
unfolding posmod rem
posmod-lt_neg a m h = wrapped-lt (suc a % m) m (mod-lt (suc a) h)

-- The remainder lies below the modulus.
pub posmod-lt : (a : ℤ) (m : ℕ) → 0 < m → posmod a m < m
posmod-lt (pos a) m h = posmod-lt_pos a m h
posmod-lt (negsuc a) m h = posmod-lt_neg a m h
