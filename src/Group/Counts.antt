-- ===== src/Group/Counts.antt =====
-- `Counts`: the numbers that go up and down fit into the group.
use queens.Prelude.{
  ℕ, ◌+◌, ◌-◌, ◌*◌, ◌≤◌, ◌≡◌, refl, ◌≢◌, Bool, true, false, arith, ltb, ◌==◌, if◌then◌else◌,
}
use native.Mathlib.Nat.{mul-le-mul_right}
use queens.Prelude.Int.{ℤ, pos, negsuc, ltb_ℤ, leb_ℤ, ◌+ℤ◌, ◌-ℤ◌}
use queens.Float.{Float64}
use queens.League.{Tier, LeagueConfig, promo_score_of}
use queens.Group.{CountsResult, percent, counts}

-- What the percentages need of the floats: `int(math.Round(pct / 100.0 * n))` is an integer within a
-- half of the exact quotient, for a percentage and a group of at most 2^31 members. The error of the
-- two operations is far too small to move the result past the next half.
pub record IsRounding (fl : Float64) : Type 0 where
  pub near :
      (p n : ℕ)
      → p ≤ 100
      → n ≤ 2147483648
      → (k : ℕ) × (percent fl (pos p) n ≡ pos k) × (100 * k ≤ p * n + 50) × (p * n ≤ 100 * k + 50)

-- The percentages of a tier lie in 0..100.
pub record IsPercentages (t : Tier) : Type 0 where
  pub up : ℕ
  pub is_up : t.up_pct ≡ pos up
  pub up_most : up ≤ 100
  pub down : ℕ
  pub is_down : t.down_pct ≡ pos down
  pub down_most : down ≤ 100

-- Nobody is counted twice, and nobody outside the group.
pub record Fit (n : ℕ) (c : CountsResult) : Type 0 where
  pub up : ℕ
  pub is_up : c.up ≡ pos up
  pub down : ℕ
  pub is_down : c.down ≡ pos down
  pub within : up + down ≤ n

share-le : (p n k : ℕ) → p ≤ 100 → 100 * k ≤ p * n + 50 → k ≤ n
share-le p n k h e = omega (arith, mul-le-mul_right {m = p} {n = 100} n h)

module _ (fl : Float64) (r : IsRounding fl) where
  percent-Fit :
      (pct : ℤ) (p n : ℕ)
      → pct ≡ pos p
      → p ≤ 100
      → n ≤ 2147483648
      → (k : ℕ) × (percent fl pct n ≡ pos k) × (k ≤ n)
  percent-Fit pct p n e h m =
      let (k, is_k, lo, hi) = r.near p n h m in (k, rw e is_k, share-le p n k h lo)

-- The last branch, with the number that goes up decided.
cap_down :
    (n : ℕ) (up down : ℤ) (u d : ℕ)
    → up ≡ pos u
    → u ≤ n
    → down ≡ pos d
    → Fit n (record { up = up; down = if ltb_ℤ (pos n) (up +ℤ down) then pos n -ℤ up else down })
unfolding ◌+ℤ◌ ◌-ℤ◌
cap_down n up down u d e h e' = record {
  up = u;
  is_up = e;
  down = if ltb n (u + d) then n - u else d;
  is_down = rw (e, e') (ground arith);
  within = ground arith;
}

-- A natural number of at most `n`.
abbrev Small : ℕ → ℤ → Type 0
Small n z = (k : ℕ) × (z ≡ pos k) × (k ≤ n)

-- What holds of both branches holds of the test.
branch {ℓ} :
    {A : Type 0} (P : A → Type ℓ) (b : Bool) {x y : A}
    → (b ≡ true → P x)
    → (b ≡ false → P y)
    → P (if b then x else y)
branch P true f g = f refl
branch P false f g = g refl

-- Where `up_count` replaces the percentage.
fixed_up :
    (n : ℕ) (up_count : ℤ)
    → leb_ℤ (pos 0) up_count ≡ true
    → Small n (if ltb_ℤ (pos n) up_count then pos n else up_count)
fixed_up n (pos u) h = (if ltb n u then n else u, ground arith, ground arith)
fixed_up n (negsuc u) h = absurd (ground arith)

tiny_Fit :
    (n : ℕ) (b : Bool) → n ≢ 0 → Fit n (record { up = if b then pos 1 else pos 0; down = pos 0 })
tiny_Fit n true h = record { up = 1; is_up = refl; down = 0; is_down = refl; within = omega arith }
tiny_Fit n false h = record { up = 0; is_up = refl; down = 0; is_down = refl; within = omega arith }

-- `Counts` sends at most the whole group up and down: both numbers are natural numbers, and their sum
-- is at most the number of members. The percentages of the tier lie in 0..100, the group has at most
-- 2^31 members, and the floats round a percentage to within a half.
pub counts-Fit :
    (fl : Float64) (n : ℕ) (t : Tier) (cfg : LeagueConfig) (leader : ℕ) (up_count : ℤ)
    → IsRounding fl
    → IsPercentages t
    → n ≤ 2147483648
    → Fit n (counts fl n t cfg leader up_count)
unfolding counts
counts-Fit fl n t cfg leader up_count r p m =
    branch (Fit n) (n == 0)
      (λ z. record { up = 0; is_up = refl; down = 0; is_down = refl; within = omega arith })
      λ nz.
        branch (Fit n) (ltb_ℤ (pos n) cfg.min_group_size) (λ tiny. tiny_Fit n _ (ground arith))
          λ full.
            let (u, is_u, u_le) =
              branch (Small n) (ltb_ℤ (pos 0) (promo_score_of t)) (λ s. (0, refl, omega arith))
                λ s.
                  branch (Small n) (leb_ℤ (pos 0) up_count) (fixed_up n up_count)
                    λ pct. percent-Fit fl r t.up_pct p.up n p.is_up p.up_most m in
            let (d, is_d, d_le) = percent-Fit fl r t.down_pct p.down n p.is_down p.down_most m in
            cap_down n _ (percent fl t.down_pct n) u d is_u u_le is_d
