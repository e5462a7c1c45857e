-- ===== src/Round/Division.antt =====
-- `floorDiv` by a positive divisor is the floor of the quotient.
use queens.Prelude.{
  ℕ, zero, suc, ◌+◌, ◌*◌, ◌/◌, ◌%◌, ◌≤◌, ◌<◌, ◌≡◌, ap, ◌∙◌, ◌≢◌, ◌↔◌, arith, dec_lt, ℕ_discrete,
}
use native.Mathlib.Nat.{div-add-mod, mod-lt, div-eq_of_lt-le, mul-le-mul_right}
use queens.Prelude.Int.{ℤ, pos, negsuc, pos_part, neg_part, ◌+ℤ◌, ◌*ℤ◌, ◌≤ℤ◌, scale_parts, ◌<ℤ◌}
use queens.Round.{floor_div}

floor_div-pos : (a m : ℕ) → 0 < m → floor_div (pos a) (pos m) ≡ pos (a / m)
unfolding floor_div
floor_div-pos a m h = ground arith

pred_div : (a m : ℕ) → 0 < m → (suc a % m ≡ 0) → suc a / m ≡ suc (a / m)
pred_div a m h e = grind (arith, div-add-mod, mod-lt)

pred_div_ne : (a m : ℕ) → 0 < m → suc a % m ≢ 0 → suc a / m ≡ a / m
pred_div_ne a m h e = grind (arith, div-add-mod, mod-lt)

floor_div-negsuc : (a m : ℕ) → 0 < m → floor_div (negsuc a) (pos m) ≡ negsuc (a / m)
unfolding floor_div
floor_div-negsuc a m h = elim (ℕ_discrete (suc a % m) 0) [
  | yes e ↦ rw (e, floor_div) (ground (arith, pred_div a m h e))
  | no ne ↦ ground (arith, pred_div_ne a m h ne, ne)
]

-- `q` is the floor of `a / m`.
abbrev pub IsFloor : ℤ → ℤ → ℕ → Type 0
IsFloor q a m = (q *ℤ pos m ≤ℤ a) × (a <ℤ (q +ℤ pos 1) *ℤ pos m)

-- The bounds in natural numbers, for each sign of the quotient.
next_parts :
    (q : ℤ) (m : ℕ)
    → pos_part ((q +ℤ pos 1) *ℤ pos m) + neg_part q * m
      ≡ neg_part ((q +ℤ pos 1) *ℤ pos m) + pos_part q * m + m
unfolding ◌+ℤ◌
next_parts (pos q) m = grind (arith, scale_parts (pos (q + 1)) m)
next_parts (negsuc zero) m = grind (arith, scale_parts (pos 0) m)
next_parts (negsuc (suc q)) m = grind (arith, scale_parts (negsuc q) m)

IsFloor-iff :
    (q a : ℤ) (m : ℕ)
    → IsFloor q a m ↔ (
        (pos_part q * m + neg_part a ≤ pos_part a + neg_part q * m)
        × (pos_part a + neg_part q * m < pos_part q * m + m + neg_part a))
IsFloor-iff q a m =
    let (p, n) = scale_parts q m in
    let e = next_parts q m in
    (λ (lo, hi). (omega arith, omega arith), λ (lo, hi). (omega arith, omega arith))

-- `floorDiv` by a positive number is the floor of the quotient, for a dividend of either sign.
pub floor_div-IsFloor : (a : ℤ) (m : ℕ) → 0 < m → IsFloor (floor_div a (pos m)) a m
floor_div-IsFloor (pos a) m h =
    rw (floor_div-pos a m h)
      ((IsFloor-iff (pos (a / m)) (pos a) m).1 (grind (arith, div-add-mod a m, mod-lt)))
floor_div-IsFloor (negsuc a) m h =
    rw (floor_div-negsuc a m h)
      ((IsFloor-iff (negsuc (a / m)) (negsuc a) m).1 (grind (arith, div-add-mod a m, mod-lt)))

-- No other number is.
pub floor_div_unique : (q a : ℤ) (m : ℕ) → 0 < m → IsFloor q a m → floor_div a (pos m) ≡ q
floor_div_unique q a m h f = same q a m h ((IsFloor-iff q a m).0 f)
  where
    same :
        (q a : ℤ) (m : ℕ)
        → 0 < m
        → (pos_part q * m + neg_part a ≤ pos_part a + neg_part q * m)
          × (pos_part a + neg_part q * m < pos_part q * m + m + neg_part a)
        → floor_div a (pos m) ≡ q
    same (pos q) (pos a) m h f =
        floor_div-pos a m h ∙ ap pos (div-eq_of_lt-le m (omega arith) (grind arith))
    same (pos q) (negsuc a) m h f = absurd (omega arith)
    same (negsuc q) (pos a) m h f = absurd (omega arith)
    same (negsuc q) (negsuc a) m h f =
        floor_div-negsuc a m h ∙ ap negsuc (div-eq_of_lt-le m (grind arith) (grind arith))

times_mono : (x y m : ℕ) → x < y → x * m + m ≤ y * m
times_mono x y m h = omega (arith, mul-le-mul_right {m = suc x} {n = y} m h)

-- A later dividend has no smaller floor.
pub floor_div_mono : (a b : ℤ) (m : ℕ) → 0 < m → a ≤ℤ b → floor_div a (pos m) ≤ℤ floor_div b (pos m)
floor_div_mono a b m h le =
    let q = floor_div a (pos m) in
    let r = floor_div b (pos m) in
    let (lo, hi) = (IsFloor-iff q a m).0 (floor_div-IsFloor a m h) in
    let (lo', hi') = (IsFloor-iff r b m).0 (floor_div-IsFloor b m h) in
    elim (dec_lt (pos_part r + neg_part q) (pos_part q + neg_part r)) [
      | yes lt ↦
          absurd
            (omega (arith, times_mono (pos_part r + neg_part q) (pos_part q + neg_part r) m lt))
      | no nlt ↦ omega arith
    ]
