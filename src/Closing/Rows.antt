-- ===== src/Closing/Rows.antt =====
-- The tables of a closing: what an update of a row leaves as it is.
use queens.Prelude.{
  ℕ, ◌≡◌, refl, inl, inr, Bool, true, false, some, List, [], ◌∷◌, arith, if◌then◌else◌, Bool-cases,
}
use queens.Prelude.Int.{ℤ}
use queens.Prelude.Text.{Text, text_eq}
use queens.League.{Zone, Outcome}
use queens.Group.{eqb_ℤ}
use queens.Absence.{Player, set_tier}
use queens.Closing.{MemberRow, get_player, moved_row, update_tier, set_member_outcome}

pub set_member_outcome_twice :
    (rs : List MemberRow) (id : Text) (rank : ℕ) (z : Zone) (o : Outcome)
    → set_member_outcome (set_member_outcome rs id rank z o) id rank z o
      ≡ set_member_outcome rs id rank z o
unfolding set_member_outcome
set_member_outcome_twice [] id rank z o = refl
set_member_outcome_twice (r ∷ rs) id rank z o = elim (Bool-cases (text_eq r.player_id id)) [
  | inl e ↦ rw (e, set_member_outcome_twice rs id rank z o) (rw e refl)
  | inr n ↦ rw (n, set_member_outcome_twice rs id rank z o) (rw n refl)
]

moved_row-id :
    (p : Player) (from to : Text) (since settled : ℤ)
    → (moved_row p from to since settled).id ≡ p.id
unfolding moved_row set_tier
moved_row-id p from to since settled = elim (Bool-cases (text_eq p.tier from)) [
  | inl e ↦ elim (Bool-cases (text_eq from to)) [
    | inl same ↦ rw (e, same, moved_row) refl
    | inr differ ↦ rw (e, differ, moved_row) refl
  ]
  | inr n ↦ rw (n, moved_row) refl
]

branch-id : (b : Bool) (x y : Player) → x.id ≡ y.id → (if b then x else y).id ≡ y.id
branch-id true x y h = h
branch-id false x y h = refl

-- A player who is in the table is in it after an update.
pub get_player-update_tier :
    (ps : List Player) (id who from to : Text) (since settled : ℤ) (p : Player)
    → get_player ps id ≡ some p
    → (q : Player) × (get_player (update_tier ps who from to since settled) id ≡ some q)
unfolding get_player update_tier
get_player-update_tier [] id who from to since settled p h = cc
get_player-update_tier (x ∷ ps) id who from to since settled p h =
    let same =
      branch-id (text_eq x.id who) (moved_row x from to since settled) x
        (moved_row-id x from to since settled) in
    elim (Bool-cases (text_eq x.id id)) [
      | inl here ↦
          (if text_eq x.id who then moved_row x from to since settled else x, rw (same, here) refl)
      | inr there ↦
          let (q, found) =
            get_player-update_tier ps id who from to since settled p (ground (arith, h, there)) in
          (q, rw (same, there) found)
    ]

pub eqb_ℤ_refl : (z : ℤ) → eqb_ℤ z z ≡ true
eqb_ℤ_refl z = ground arith
