-- ===== src/Membership/Counters.antt =====
-- The counters of the groups after one more row, in an old group or a new one.
use queens.Prelude.{
  ℕ, suc, ◌≡◌, sym, ap, subst, ◌∙◌, ◌≢◌, inl, inr, true, false, Option, none, some, List, ◌∷◌, map,
  arith, Bool-cases, some-eq, if_true, if_false,
}
use queens.Prelude.Int.{ℤ, pos, ◌≤ℤ◌}
use queens.Prelude.Text.{Text, text_eq, text_eq→eq, eq_text_eq}
use queens.League.{LeagueConfig}
use queens.GroupTable.{GroupRow, MemberEntry, get_group, grow_row, grown, room_for, has_room}
use queens.Membership.Seats.{members_in, Seated, get_group-grow_self, get_group-grow_other}

module _ (cfg : LeagueConfig) where
  room-bound :
      (o : Option ℤ) (n : ℕ) (c : ℤ)
      → o ≡ some c
      → room_for o n cfg.group_max ≡ true
      → pos (suc n) ≤ℤ cfg.group_max
  room-bound none n c h k = cc
  room-bound (some d) n c h k = ground arith

  -- One more row in the group `id`.
  pub seat-Seated :
      (gs : List GroupRow) (es : List MemberEntry) (e : MemberEntry) (g : GroupRow)
      → Seated cfg gs es
      → get_group gs e.group_id ≡ some g
      → has_room g cfg.group_max ≡ true
      → Seated cfg (map (grow_row e.group_id) gs) (e ∷ es)
  seat-Seated gs es e g ok found room = record {
    counted = λ id h k. elim (Bool-cases (text_eq e.group_id id)) [
      | inl y ↦
          let same = text_eq→eq e.group_id id y in
          let grew : grown g ≡ h = some-eq (
            sym (get_group-grow_self gs e.group_id g found)
            ∙ subst (λ x. get_group (map (grow_row e.group_id) gs) x ≡ some h) (sym same) k) in
          if_true _ y
          ∙ ap suc (ap (members_in es) (sym same) ∙ ok.counted e.group_id g found)
          ∙ ap (λ (x : GroupRow). x.member_count) grew
      | inr n ↦
          if_false _ n
          ∙ ok.counted id h (sym (get_group-grow_other gs e.group_id id (apart id n)) ∙ k)
    ];
    known = λ id k. elim (Bool-cases (text_eq e.group_id id)) [
      | inl y ↦ absurd (
          cc (
            sym (get_group-grow_self gs e.group_id g found)
            ∙ subst (λ x. get_group (map (grow_row e.group_id) gs) x ≡ none)
                (sym (text_eq→eq e.group_id id y)) k))
      | inr n ↦
          if_false _ n ∙ ok.known id (sym (get_group-grow_other gs e.group_id id (apart id n)) ∙ k)
    ];
    bounded = λ id h c k cap. elim (Bool-cases (text_eq e.group_id id)) [
      | inl y ↦
          let grew : grown g ≡ h = some-eq (
            sym (get_group-grow_self gs e.group_id g found)
            ∙ subst (λ x. get_group (map (grow_row e.group_id) gs) x ≡ some h)
                (sym (text_eq→eq e.group_id id y)) k) in
          subst (λ (x : GroupRow). pos x.member_count ≤ℤ cfg.group_max) grew
            (room-bound g.capacity g.member_count c (ap (λ (x : GroupRow). x.capacity) grew ∙ cap)
              room)
      | inr n ↦ ok.bounded id h c (sym (get_group-grow_other gs e.group_id id (apart id n)) ∙ k) cap
    ];
  }
    where
      apart : (id : Text) → text_eq e.group_id id ≡ false → e.group_id ≢ id
      apart id n same = cc (n, eq_text_eq same)

  -- A new group with its first row.
  pub create-Seated :
      (gs : List GroupRow) (es : List MemberEntry) (e : MemberEntry) (g : GroupRow)
      → Seated cfg gs es
      → pos 1 ≤ℤ cfg.group_max
      → get_group gs g.id ≡ none
      → e.group_id ≡ g.id
      → g.member_count ≡ 1
      → Seated cfg (g ∷ gs) (e ∷ es)
  unfolding get_group
  create-Seated gs es e g ok one fresh same single = record {
    counted = λ id h k. elim (Bool-cases (text_eq g.id id)) [
      | inl y ↦
          if_true _ (ap (λ x. text_eq x id) same ∙ y)
          ∙ ap suc (ap (members_in es) (sym (text_eq→eq g.id id y)) ∙ ok.known g.id fresh)
          ∙ sym single
          ∙ ap (λ (x : GroupRow). x.member_count) (some-eq (sym (if_true _ y) ∙ k))
      | inr n ↦
          if_false _ (ap (λ x. text_eq x id) same ∙ n) ∙ ok.counted id h (sym (if_false _ n) ∙ k)
    ];
    known = λ id k. elim (Bool-cases (text_eq g.id id)) [
      | inl y ↦ absurd (cc (sym (if_true _ y) ∙ k))
      | inr n ↦ if_false _ (ap (λ x. text_eq x id) same ∙ n) ∙ ok.known id (sym (if_false _ n) ∙ k)
    ];
    bounded = λ id h c k cap. elim (Bool-cases (text_eq g.id id)) [
      | inl y ↦
          subst (λ n. pos n ≤ℤ cfg.group_max)
            (sym single ∙ ap (λ (x : GroupRow). x.member_count) (some-eq (sym (if_true _ y) ∙ k)))
            one
      | inr n ↦ ok.bounded id h c (sym (if_false _ n) ∙ k) cap
    ];
  }
