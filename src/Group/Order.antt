-- ===== src/Group/Order.antt =====
-- The order of a group is total on players, so a standing does not depend on the order in which the
-- members are read.
use queens.Prelude.{◌≤◌, ◌≡◌, refl, ◌≢◌, ◌⊎◌, inl, inr, true, false, List, map, arith, Bool-cases}
use mathlib.Core.List.{Perm, Nodup}
use native.Mathlib.Nat.{ℕ_set}
use queens.Prelude.Sort.{IsWeakOrder, sort_by, sort_by-eq_of_perm}
use queens.Prelude.Int.{ℤ}
use queens.Prelude.Text.{
  Text, text_lt, text_lt_irrefl, text_lt_trans, text_lt_total, text_lt_negtrans,
}
use queens.Float.{Float64}
use queens.League.{Tier, LeagueConfig}
use queens.Group.{Member, member_less, sort_members, evaluate}

member_less_asym : (a b : Member) → member_less a b ≡ true → member_less b a ≡ false
unfolding member_less
member_less_asym a b h =
    ground (arith, text_lt_irrefl a.player_id, text_lt_trans a.player_id b.player_id a.player_id)

member_less_trans :
    (a b c : Member) → member_less a b ≡ true → member_less b c ≡ true → member_less a c ≡ true
unfolding member_less
member_less_trans a b c h k = ground (arith, text_lt_trans a.player_id b.player_id c.player_id)

member_less_negtrans :
    (a b c : Member) → member_less b a ≡ false → member_less c b ≡ false → member_less c a ≡ false
unfolding member_less
member_less_negtrans a b c h k =
    ground (arith, text_lt_negtrans a.player_id b.player_id c.player_id)

text_lt_differ : (a b : Text) → a ≢ b → (text_lt a b ≡ true) ⊎ (text_lt b a ≡ true)
text_lt_differ a b h = elim (Bool-cases (text_lt a b)) [
  | inl l ↦ inl l
  | inr nl ↦ elim (Bool-cases (text_lt b a)) [
    | inl l ↦ inr l
    | inr nl' ↦ absurd (h (text_lt_total a b nl nl'))
  ]
]

pub member_less_total :
    (a b : Member) → a.player_id ≢ b.player_id → (member_less a b ≡ true) ⊎ (member_less b a ≡ true)
unfolding member_less
member_less_total a b h = ground (arith, text_lt_differ a.player_id b.player_id h)

-- A member who is not before another has no higher score.
pub member_less-score : (x y : Member) → member_less y x ≡ false → y.round_score ≤ x.round_score
unfolding member_less
member_less-score x y h = ground arith

-- `less` is what Go's sort asks for.
pub member_less-IsWeakOrder : IsWeakOrder member_less
member_less-IsWeakOrder = record {
  asym = member_less_asym;
  trans = member_less_trans;
  negtrans = member_less_negtrans;
}

Members-set : IsSet (List Member)
Members-set = hlevel ℕ_set

-- Members with different player ids get one order, and so one evaluation, in whatever order they are
-- read.
pub evaluate-perm :
    (fl : Float64) (t : Tier) (cfg : LeagueConfig) (up_count : ℤ) (ms ns : List Member)
    → Perm ms ns
    → Nodup (map (λ m. m.player_id) ms)
    → evaluate fl ms t cfg up_count ≡ evaluate fl ns t cfg up_count
unfolding evaluate sort_members
evaluate-perm fl t cfg up_count ms ns p n =
    let e : sort_by member_less ms ≡ sort_by member_less ns =
      sort_by-eq_of_perm member_less member_less-IsWeakOrder (λ (m : Member). m.player_id)
        member_less_total Members-set ms ns p n in
    rw e refl
