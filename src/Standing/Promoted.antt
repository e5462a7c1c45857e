-- ===== src/Standing/Promoted.antt =====
-- The number of promotions that SQL counts is the counter of `Evaluate`.
use queens.Prelude.{
  ℕ, zero, suc, ◌+◌, ◌-◌, ◌≤◌, ◌<◌, ◌≡◌, ap, ◌∙◌, inl, inr, Bool, true, false, ◌&&◌, List, [], ◌∷◌,
  arith, dec_lt, ltb, if◌then◌else◌, Bool-cases, take,
}
use queens.Prelude.Int.{ℤ, pos, pos_part, leb_ℤ, ltb_ℤ}
use queens.Group.{Member, CountsResult, zone_at, is_promote, assign_zones, sort_members}
use queens.Standing.{count_if, has_scored, group_promote_count}

promote_step :
    (n : ℕ) (c : CountsResult) (i score : ℕ)
    → is_promote (zone_at n c i score) ≡ (ltb_ℤ (pos i) c.up && ltb 0 score)
unfolding zone_at
promote_step n c i score = ground arith

in_band : (z : ℤ) (i : ℕ) → i < pos_part z → ltb_ℤ (pos i) z ≡ true
in_band z i h = ground arith

out_of_band : (z : ℤ) (i : ℕ) → pos_part z ≤ i → ltb_ℤ (pos i) z ≡ false
out_of_band z i h = ground arith

bump : (b : Bool) (k x : ℕ) → (if b then suc k else k) + x ≡ k + ((if b then 1 else 0) + x)
bump b k x = ground arith

none_up : (z : ℤ) → leb_ℤ z (pos 0) ≡ true → pos_part z - 0 ≡ 0
none_up z h = ground arith

-- From index `i` on, the members that have scored among the first `up - i` are promoted.
assign_zones-count_if :
    (n : ℕ) (c : CountsResult) (i k : ℕ) (ms : List Member)
    → (assign_zones n c i k ms).1 ≡ k + count_if has_scored (take (pos_part c.up - i) ms)
unfolding assign_zones count_if
assign_zones-count_if n c i k [] = nobody (pos_part c.up - i)
  where
    nobody : (r : ℕ) → k ≡ k + count_if has_scored (take r [])
    nobody zero = omega arith
    nobody (suc r) = omega arith
assign_zones-count_if n c i k (m ∷ ms) = elim (dec_lt i (pos_part c.up)) [
  | yes lt ↦
      let r : pos_part c.up - i ≡ suc (pos_part c.up - suc i) = omega arith in
      rw (r, promote_step n c i m.round_score, in_band c.up i lt)
        (assign_zones-count_if n c (suc i) (if has_scored m then suc k else k) ms
          ∙ bump (has_scored m) k (count_if has_scored (take (pos_part c.up - suc i) ms)))
  | no nlt ↦
      let r : pos_part c.up - i ≡ 0 = omega arith in
      let r' : pos_part c.up - suc i ≡ 0 = omega arith in
      rw (promote_step n c i m.round_score, out_of_band c.up i (omega arith), r)
        (assign_zones-count_if n c (suc i) k ms ∙ ap (λ q. k + count_if has_scored (take q ms)) r')
]

-- `GroupPromoteCount` is the counter that the loop of `Evaluate` ends with.
pub group_promote_count-assign_zones :
    (n : ℕ) (c : CountsResult) (ms : List Member)
    → group_promote_count ms c.up ≡ (assign_zones n c 0 0 (sort_members ms)).1
unfolding group_promote_count count_if
group_promote_count-assign_zones n c ms =
    let counted = assign_zones-count_if n c 0 0 (sort_members ms) in
    let at : ℕ → ℕ = λ q. count_if has_scored (take q (sort_members ms)) in
    elim (Bool-cases (leb_ℤ c.up (pos 0))) [
      | inl h ↦ rw h (omega (arith, counted, ap at (none_up c.up h)))
      | inr h ↦
          let same : pos_part c.up - 0 ≡ pos_part c.up = omega arith in
          rw h (omega (arith, counted, ap at same))
    ]
