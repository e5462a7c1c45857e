-- ===== src/Membership/Seats.antt =====
-- The counters of the groups: what a seat does to them.
use queens.Prelude.{
  ℕ, suc, ◌≡◌, refl, sym, ap, subst, ◌∙◌, ◌≢◌, inl, inr, Bool, true, false, ◌&&◌, Option, none,
  some, List, [], ◌∷◌, map, arith, if◌then◌else◌, Bool-cases, some-eq, if_true, if_false, and_true,
}
use queens.Prelude.Int.{ℤ, pos, ◌≤ℤ◌}
use queens.Prelude.Text.{Text, text_eq, text_eq→eq, text_eq_ne}
use queens.League.{LeagueConfig}
use queens.Membership.{taken, take_candidate, take_found, take_open}
use queens.GroupTable.{
  GroupRow, MemberEntry, get_group, grow_row, grown, room_for, has_room, inc_found, inc_group_count,
  find_open_group,
}

-- The rows of a group.
abbrev pub members_in : List MemberEntry → Text → ℕ
members_in [] id = 0
members_in (e ∷ es) id = if text_eq e.group_id id then suc (members_in es id) else members_in es id

-- Every counter is the number of the rows, every row is in a group that exists, and a group with a
-- capacity has at most `group_max` members.
pub record Seated (cfg : LeagueConfig) (groups : List GroupRow) (entries : List MemberEntry)
    : Type 0 where
  pub counted :
      (id : Text) (g : GroupRow)
      → get_group groups id ≡ some g
      → members_in entries id ≡ g.member_count
  pub known : (id : Text) → get_group groups id ≡ none → members_in entries id ≡ 0
  pub bounded :
      (id : Text) (g : GroupRow) (c : ℤ)
      → get_group groups id ≡ some g
      → g.capacity ≡ some c
      → pos g.member_count ≤ℤ cfg.group_max

get_group-id :
    (gs : List GroupRow) (id : Text) (g : GroupRow) → get_group gs id ≡ some g → g.id ≡ id
unfolding get_group
get_group-id [] id g h = cc
get_group-id (x ∷ gs) id g h = elim (Bool-cases (text_eq x.id id)) [
  | inl e ↦
      ap (λ (y : GroupRow). y.id) (sym (some-eq (sym (if_true _ e) ∙ h))) ∙ text_eq→eq x.id id e
  | inr n ↦ get_group-id gs id g (sym (if_false _ n) ∙ h)
]

grow_row-id : (id : Text) (g : GroupRow) → (grow_row id g).id ≡ g.id
unfolding grow_row
grow_row-id id g = elim (Bool-cases (text_eq g.id id)) [
  | inl e ↦ ap (λ (y : GroupRow). y.id) (if_true _ e)
  | inr n ↦ ap (λ (y : GroupRow). y.id) (if_false _ n)
]

pub get_group-grow_self :
    (gs : List GroupRow) (id : Text) (g : GroupRow)
    → get_group gs id ≡ some g
    → get_group (map (grow_row id) gs) id ≡ some (grown g)
unfolding get_group grow_row
get_group-grow_self [] id g h = cc
get_group-grow_self (x ∷ gs) id g h = elim (Bool-cases (text_eq x.id id)) [
  | inl e ↦
      let same : x ≡ g = some-eq (sym (if_true _ e) ∙ h) in
      if_true _ (ap (λ y. text_eq y id) (grow_row-id id x) ∙ e)
      ∙ ap some (if_true _ e ∙ ap grown same)
  | inr n ↦
      if_false _ (ap (λ y. text_eq y id) (grow_row-id id x) ∙ n)
      ∙ get_group-grow_self gs id g (sym (if_false _ n) ∙ h)
]

pub get_group-grow_other :
    (gs : List GroupRow) (id other : Text)
    → id ≢ other
    → get_group (map (grow_row id) gs) other ≡ get_group gs other
unfolding get_group grow_row
get_group-grow_other [] id other differ = refl
get_group-grow_other (x ∷ gs) id other differ = elim (Bool-cases (text_eq x.id other)) [
  | inl e ↦
      let kept : text_eq x.id id ≡ false =
        text_eq_ne (λ same. differ (sym same ∙ text_eq→eq x.id other e)) in
      if_true _ (ap (λ y. text_eq y other) (grow_row-id id x) ∙ e)
      ∙ ap some (if_false _ kept)
      ∙ sym (if_true _ e)
  | inr n ↦
      if_false _ (ap (λ y. text_eq y other) (grow_row-id id x) ∙ n)
      ∙ get_group-grow_other gs id other differ
      ∙ sym (if_false _ n)
]

-- A seat was taken in a group with room below `group_max`, or none was and nothing changed.
abbrev pub Took : LeagueConfig → List GroupRow → List GroupRow × Option Text → Type 0
Took cfg gs (gs', none) = gs' ≡ gs
Took cfg gs (gs', some id) =
    (g : GroupRow) × (get_group gs id ≡ some g)
    × (gs' ≡ map (grow_row id) gs)
    × (has_room g cfg.group_max ≡ true)

room_for_mono :
    (o : Option ℤ) (n : ℕ) (a b : ℤ) → a ≤ℤ b → room_for o n a ≡ true → room_for o n b ≡ true
room_for_mono none n a b h k = refl
room_for_mono (some c) n a b h k = ground arith

inc_found-Took :
    (cfg : LeagueConfig) (gs : List GroupRow) (id : Text) (limit : ℤ) (o : Option GroupRow)
    → get_group gs id ≡ o
    → limit ≤ℤ cfg.group_max
    → Took cfg gs (taken id (inc_found gs id limit o))
unfolding inc_found
inc_found-Took cfg gs id limit none found h = refl
inc_found-Took cfg gs id limit (some g) found h =
    elim (Bool-cases (g.group_open && has_room g limit)) [
      | inl e ↦
          subst (λ x. Took cfg gs (taken id x)) (sym (if_true _ e))
            (
              g,
              found,
              refl,
              room_for_mono g.capacity g.member_count limit cfg.group_max h
                  (and_true g.group_open (has_room g limit) e).1,
            )
      | inr n ↦ subst (λ x. Took cfg gs (taken id x)) (sym (if_false _ n)) refl
    ]

pub take_candidate-Took :
    (cfg : LeagueConfig) (gs : List GroupRow) (o : Option Text)
    → Took cfg gs (take_candidate cfg gs o)
unfolding take_candidate inc_group_count
take_candidate-Took cfg gs none = refl
take_candidate-Took cfg gs (some id) =
    inc_found-Took cfg gs id cfg.group_max (get_group gs id) refl (omega arith)

take_found-Took :
    (cfg : LeagueConfig) (gs : List GroupRow) (o : Option GroupRow)
    → cfg.group_size ≤ℤ cfg.group_max
    → Took cfg gs (take_found cfg gs o)
unfolding take_found inc_group_count
take_found-Took cfg gs none h = refl
take_found-Took cfg gs (some g) h =
    inc_found-Took cfg gs g.id cfg.group_size (get_group gs g.id) refl h

pub take_open-Took :
    (cfg : LeagueConfig) (gs : List GroupRow) (tier : Text) (idx : ℤ) (quarantine : Bool)
    (tried : List GroupRow × Option Text)
    → cfg.group_size ≤ℤ cfg.group_max
    → Took cfg gs tried
    → Took cfg gs (take_open cfg tier idx quarantine tried)
unfolding take_open
take_open-Took cfg gs tier idx quarantine (gs', some id) h k = k
take_open-Took cfg gs tier idx quarantine (gs', none) h k =
    subst (λ x. Took cfg x (take_found cfg gs' (find_open_group gs' tier idx quarantine))) k
      (take_found-Took cfg gs' (find_open_group gs' tier idx quarantine) h)
