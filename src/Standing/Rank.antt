-- ===== src/Standing/Rank.antt =====
-- The rank that SQL counts is the place in the order of `SortMembers`, and its maximum is the leader.
use queens.Prelude.{
  ℕ, zero, suc, ◌+◌, ◌≤◌, max, ◌≡◌, refl, sym, ap, subst, ◌∙◌, ◌≢◌, inl, inr, Bool, true, false,
  some, List, [], ◌∷◌, map, arith, if◌then◌else◌, Bool-cases, get_elem?, All, some-eq,
}
use mathlib.Core.List.{Nodup, Nodup-cons, Mem, mem-cons_self, mem-cons_of_mem}
use mathlib.Core.List.Perm
use queens.Prelude.Sort.{
  IsSortedBy, IsSortedBy-get, insert_by, sort_by, sort_by-perm, sort_by-IsSortedBy,
}
use queens.Group.{Member, member_less, sort_members, leader_score_of}
use queens.Group.Order.{member_less-IsWeakOrder, member_less_total, member_less-score}
use queens.Standing.{count_if, stands_before, member_rank, group_leader_score}

-- SQL and Go compare members alike.
stands_before-member_less : (x m : Member) → stands_before x m ≡ member_less x m
unfolding stands_before member_less
stands_before-member_less x m = ground arith

count_if-insert_by :
    (f : Member → Bool) (x : Member) (l : List Member)
    → count_if f (insert_by member_less x l) ≡ (if f x then 1 else 0) + count_if f l
unfolding count_if insert_by
count_if-insert_by f x [] = refl
count_if-insert_by f x (y ∷ ys) = ground (arith, count_if-insert_by f x ys)

count_if-sort_by :
    (f : Member → Bool) (l : List Member) → count_if f (sort_by member_less l) ≡ count_if f l
unfolding count_if sort_by
count_if-sort_by f [] = refl
count_if-sort_by f (x ∷ l) =
    count_if-insert_by f x (sort_by member_less l)
    ∙ ap (λ n. (if f x then 1 else 0) + n) (count_if-sort_by f l)

count_if_same :
    (f g : Member → Bool)
    → ((m : Member) → f m ≡ g m)
    → (l : List Member) → count_if f l ≡ count_if g l
unfolding count_if
count_if_same f g h [] = refl
count_if_same f g h (m ∷ l) = rw (h m, count_if_same f g h l) refl

get_elem?-Mem :
    (l : List Member) (j : ℕ) {m : Member}
    → get_elem? l j ≡ some m
    → Mem m.player_id (map (λ (x : Member). x.player_id) l)
get_elem?-Mem [] j h = cc
get_elem?-Mem (x ∷ l) zero h = rw (← some-eq h) mem-cons_self
get_elem?-Mem (x ∷ l) (suc j) h = mem-cons_of_mem x.player_id (get_elem?-Mem l j h)

-- Nobody in a sorted list of later members stands before `m`.
none_before :
    (m : Member) (l : List Member)
    → All (λ y. member_less y m ≡ false) l
    → count_if (λ x. member_less x m) l ≡ 0
unfolding count_if
none_before m [] a = refl
none_before m (y ∷ l) (h, a) = rw (h, none_before m l a) refl

member_less_irrefl : (m : Member) → member_less m m ≡ false
member_less_irrefl m = elim (Bool-cases (member_less m m)) [
  | inl l ↦ member_less-IsWeakOrder.asym m m l
  | inr n ↦ n
]

-- Of two different players the one that is not after the other stands before it.
before_other :
    (y m : Member) → member_less m y ≡ false → y.player_id ≢ m.player_id → member_less y m ≡ true
before_other y m h ne = elim (member_less_total y m ne) [ inl l ↦ l | inr l ↦ cc ]

-- In a sorted list of different players, as many stand before a member as its place says.
place_lem :
    (l : List Member) (j : ℕ) (m : Member)
    → IsSortedBy member_less l
    → Nodup (map (λ (x : Member). x.player_id) l)
    → get_elem? l j ≡ some m
    → count_if (λ x. member_less x m) l ≡ j
unfolding count_if
place_lem [] j m s n h = cc
place_lem (y ∷ l) zero m (a, s) n h =
    subst (λ z. count_if (λ x. member_less x z) (y ∷ l) ≡ 0) (some-eq h)
      (rw (member_less_irrefl y, none_before y l a) refl)
place_lem (y ∷ l) (suc j) m (a, s) n h =
    let later : member_less m y ≡ false =
      IsSortedBy-get member_less (y ∷ l) 0 (suc j) (a, s) (omega arith) refl h in
    let ahead : member_less y m ≡ true =
      before_other y m later λ e. (Nodup-cons.0 n).0 (rw e (get_elem?-Mem l j h)) in
    rw (ahead, place_lem l j m s (Nodup-cons.0 n).1 h) (omega arith)

-- The rank of `MemberRank` is the place in the order of `SortMembers`, counted from 1, for members with
-- different player ids.
pub member_rank-place :
    (ms : List Member) (j : ℕ) (m : Member)
    → Nodup (map (λ (x : Member). x.player_id) ms)
    → get_elem? (sort_members ms) j ≡ some m
    → member_rank ms m ≡ suc j
unfolding member_rank sort_members
member_rank-place ms j m n h =
    let before =
      count_if_same (λ x. stands_before x m) (λ x. member_less x m)
        (λ x. stands_before-member_less x m) ms in
    let sorted = count_if-sort_by (λ x. member_less x m) ms in
    let ids =
      Perm.nodup (Perm.symm (Perm.map (λ (x : Member). x.player_id) (sort_by-perm member_less ms)))
        n in
    let place =
      place_lem (sort_by member_less ms) j m
        (sort_by-IsSortedBy member_less member_less-IsWeakOrder ms) ids h in
    omega (arith, before, sorted, place)

leader_of_insert :
    (x : Member) (l : List Member)
    → group_leader_score (insert_by member_less x l) ≡ max x.round_score (group_leader_score l)
unfolding group_leader_score insert_by
leader_of_insert x [] = refl
leader_of_insert x (y ∷ ys) = ground (arith, leader_of_insert x ys)

leader_of_sorted :
    (l : List Member) → IsSortedBy member_less l → group_leader_score l ≡ leader_score_of l
unfolding group_leader_score
leader_of_sorted [] s = refl
leader_of_sorted (x ∷ l) (a, s) = omega (arith, bounded x l a)
  where
    bounded :
        (x : Member) (l : List Member)
        → All (λ y. member_less y x ≡ false) l
        → group_leader_score l ≤ x.round_score
    bounded x [] a = omega arith
    bounded x (y ∷ l) (h, a) = omega (arith, member_less-score x y h, bounded x l a)

leader_of_sort_by :
    (l : List Member) → group_leader_score (sort_by member_less l) ≡ group_leader_score l
unfolding group_leader_score sort_by
leader_of_sort_by [] = refl
leader_of_sort_by (x ∷ l) =
    leader_of_insert x (sort_by member_less l) ∙ ap (max x.round_score) (leader_of_sort_by l)

-- The maximum that SQL reads is the score of the first member in the order of `SortMembers`.
pub group_leader_score-leader :
    (ms : List Member) → group_leader_score ms ≡ leader_score_of (sort_members ms)
unfolding sort_members
group_leader_score-leader ms =
    sym (leader_of_sort_by ms)
    ∙ leader_of_sorted (sort_by member_less ms)
        (sort_by-IsSortedBy member_less member_less-IsWeakOrder ms)
