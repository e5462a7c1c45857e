-- ===== src/Group/Zones.antt =====
-- The zones that `Evaluate` gives: who gets which, and how many.
use queens.Prelude.{
  ℕ, zero, suc, ◌+◌, ◌≤◌, ◌<◌, ◌↔◌, min, ◌≡◌, refl, sym, subst, ap, ◌∙◌, inl, inr, Bool, true,
  false, ◌&&◌, none, some, List, [], ◌∷◌, arith, ltb, leb, if◌then◌else◌, Bool-cases, length,
  get_elem?,
}
use mathlib.Core.Option
use queens.Prelude.Int.{pos, int_laws, ◌-ℤ◌, ◌+ℤ◌, ◌<ℤ◌, ◌≤ℤ◌}
use queens.League.{Zone, promote, safe, relegate}
use queens.Group.{Member, CountsResult, zone_at, is_promote, assign_zones}
use queens.Group.Counts.{Fit}

-- The zone in natural numbers.
abbrev zone_nat : ℕ → ℕ → ℕ → ℕ → ℕ → Zone
zone_nat n u d i score =
    if ltb i u && ltb 0 score then promote else if leb n (i + d) then relegate else safe

zone_at-nat :
    (n : ℕ) (c : CountsResult) (f : Fit n c) (i score : ℕ)
    → zone_at n c i score ≡ zone_nat n f.up f.down i score
unfolding zone_at ◌-ℤ◌
zone_at-nat n c f i score = rw (f.is_up, f.is_down) (ground (arith, f.within))

zone_nat-promote :
    (n u d i score : ℕ) → (zone_nat n u d i score ≡ promote) ↔ ((i < u) × (0 < score))
zone_nat-promote n u d i score = ground arith

zone_nat-relegate :
    (n u d i score : ℕ) → u + d ≤ n → (zone_nat n u d i score ≡ relegate) ↔ (n ≤ i + d)
zone_nat-relegate n u d i score h = ground arith

-- Where the counts fit, the promotion zone is the first `up` places, for members with a score.
pub zone_at_promote_iff :
    (n : ℕ) (c : CountsResult) (f : Fit n c) (i score : ℕ)
    → (zone_at n c i score ≡ promote) ↔ ((pos i <ℤ c.up) × (0 < score))
zone_at_promote_iff n c f i score =
    let (to, from) = zone_nat-promote n f.up f.down i score in
    (
      λ e.
          let (before, scored) = to (sym (zone_at-nat n c f i score) ∙ e) in
          (subst (λ u. pos i <ℤ u) (sym f.is_up) (omega int_laws), scored),
      λ (before, scored).
          let low : pos i <ℤ pos f.up = subst (λ u. pos i <ℤ u) f.is_up before in
          zone_at-nat n c f i score ∙ from (omega int_laws, scored),
    )

-- The relegation zone is the last `down` places.
pub zone_at_relegate_iff :
    (n : ℕ) (c : CountsResult) (f : Fit n c) (i score : ℕ)
    → (zone_at n c i score ≡ relegate) ↔ (pos n ≤ℤ pos i +ℤ c.down)
zone_at_relegate_iff n c f i score =
    let (to, from) = zone_nat-relegate n f.up f.down i score f.within in
    (
      λ e.
          let last = to (sym (zone_at-nat n c f i score) ∙ e) in
          subst (λ d. pos n ≤ℤ pos i +ℤ d) (sym f.is_down) (omega int_laws),
      λ last.
          let high : pos n ≤ℤ pos i +ℤ pos f.down =
            subst (λ d. pos n ≤ℤ pos i +ℤ d) f.is_down last in
          zone_at-nat n c f i score ∙ from (omega int_laws),
    )

abbrev has_zone : (Zone → Bool) → Member → Bool
has_zone p m = elim m.zone [ none ↦ false | some z ↦ p z ]

abbrev pub is_relegate : Zone → Bool
is_relegate promote = false
is_relegate safe = false
is_relegate relegate = true

-- The number of members in a zone.
abbrev pub count_zone : (Zone → Bool) → List Member → ℕ
count_zone p [] = 0
count_zone p (m ∷ ms) = if has_zone p m then suc (count_zone p ms) else count_zone p ms

-- The counter of the loop is the number of members that it promotes.
pub assign_zones-promoted :
    (n : ℕ) (c : CountsResult) (i k : ℕ) (ms : List Member)
    → (assign_zones n c i k ms).1 ≡ k + count_zone is_promote (assign_zones n c i k ms).0
unfolding assign_zones
assign_zones-promoted n c i k [] = omega arith
assign_zones-promoted n c i k (m ∷ ms) =
    elim (Bool-cases (is_promote (zone_at n c i m.round_score))) [
      | inl p ↦ rw p (omega (arith, assign_zones-promoted n c (suc i) (suc k) ms))
      | inr p ↦ rw p (assign_zones-promoted n c (suc i) k ms)
    ]

is_relegate-zone_at :
    (n : ℕ) (c : CountsResult) (f : Fit n c) (i score : ℕ)
    → is_relegate (zone_at n c i score) ≡ leb n (i + f.down)
is_relegate-zone_at n c f i score = rw (zone_at-nat n c f i score) (ground (arith, f.within))

-- The last `down` members are relegated, and no other.
pub assign_zones-relegated :
    (n : ℕ) (c : CountsResult) (f : Fit n c) (i k : ℕ) (ms : List Member)
    → i + length ms ≡ n
    → count_zone is_relegate (assign_zones n c i k ms).0 ≡ min f.down (length ms)
unfolding assign_zones
assign_zones-relegated n c f i k [] e = omega arith
assign_zones-relegated n c f i k (m ∷ ms) e =
    let next : ℕ = if is_promote (zone_at n c i m.round_score) then suc k else k in
    let ih : count_zone is_relegate (assign_zones n c (suc i) next ms).0 ≡ min f.down (length ms) =
      assign_zones-relegated n c f (suc i) next ms (omega arith) in
    rw (is_relegate-zone_at n c f i m.round_score) (ground (arith, ih))

-- The member at place `i` of the loop has rank `i + 1` and the zone of that place; nothing else of
-- a member changes.
abbrev pub placed : ℕ → CountsResult → ℕ → Member → Member
placed n c i m = record m { rank = suc i; zone = some (zone_at n c i m.round_score) }

pub assign_zones-placed :
    (n : ℕ) (c : CountsResult) (i k : ℕ) (ms : List Member) (j : ℕ)
    → get_elem? (assign_zones n c i k ms).0 j ≡ Option.map (placed n c (i + j)) (get_elem? ms j)
unfolding assign_zones
assign_zones-placed n c i k [] j = refl
assign_zones-placed n c i k (m ∷ ms) zero =
    let e : i ≡ i + 0 = omega arith in ap (λ x. some (placed n c x m)) e
assign_zones-placed n c i k (m ∷ ms) (suc j) =
    let e : suc i + j ≡ i + suc j = omega arith in
    assign_zones-placed n c (suc i) _ ms j ∙ ap (λ x. Option.map (placed n c x) (get_elem? ms j)) e

length-assign_zones :
    (n : ℕ) (c : CountsResult) (i k : ℕ) (ms : List Member)
    → length (assign_zones n c i k ms).0 ≡ length ms
unfolding assign_zones
length-assign_zones n c i k [] = refl
length-assign_zones n c i k (m ∷ ms) = ap suc (length-assign_zones n c (suc i) _ ms)
