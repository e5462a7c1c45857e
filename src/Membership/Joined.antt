-- ===== src/Membership/Joined.antt =====
-- A join keeps the counters of the groups.
use queens.Prelude.{
  ◌≡◌, refl, sym, ap, subst, ◌∙◌, inl, inr, Bool, true, Option, none, some, List, ◌∷◌, arith,
  Bool-cases, if_true, if_false,
}
use queens.Prelude.Fallible.{done, >>=-done, done-injective}
use queens.Prelude.Int.{ℤ, pos, ◌≤ℤ◌}
use queens.Prelude.Text.{Text, text_eq_refl}
use queens.Float.{Float64}
use queens.League.{LeagueConfig, Tier}
use queens.Closing.Rows.{eqb_ℤ_refl}
use queens.Freeze.{next_group_seq}
use queens.Anomaly.{Signals, refresh_exclusion}
use queens.Membership.{
  Joining, take_candidate, take_open, candidate_of, new_group, new_entry, seat, seat_in, join_round,
  ensure_found, ensure_membership,
}
use queens.GroupTable.{
  GroupRow, MemberEntry, Tables, get_group, is_entry, get_member, create_group, is_none,
}
use queens.Membership.Seats.{Seated, Took, take_candidate-Took, take_open-Took}
use queens.Membership.Counters.{seat-Seated, create-Seated}

module _ (cfg : LeagueConfig) where
  is_none-eq : {A : Type 0} (o : Option A) → is_none o ≡ true → o ≡ none
  is_none-eq none h = refl
  is_none-eq (some a) h = cc

  create_group-done :
      (gs gs' : List GroupRow) (g : GroupRow)
      → create_group gs g ≡ done gs'
      → (get_group gs g.id ≡ none) × (g ∷ gs ≡ gs')
  unfolding create_group
  create_group-done gs gs' g h = elim (Bool-cases (is_none (get_group gs g.id))) [
    | inl y ↦ (is_none-eq (get_group gs g.id) y, done-injective (sym (if_true _ y) ∙ h))
    | inr n ↦ absurd (cc (sym (if_false _ n) ∙ h))
  ]

  -- What a seat does, whichever group was found for it.
  seat_in-lem :
      (st st' : Tables) (player : Text) (t : Tier) (idx : ℤ) (quarantine : Bool) (now : ℤ)
      (tried : List GroupRow × Option Text) (m : MemberEntry)
      → pos 1 ≤ℤ cfg.group_max
      → Seated cfg st.groups st.entries
      → Took cfg st.groups tried
      → seat_in cfg st player t idx quarantine now tried ≡ done (st', m)
      → Seated cfg st'.groups st'.entries
        × (st'.entries ≡ m ∷ st.entries)
        × (id : Text) × (m ≡ new_entry player t.id idx id now)
  unfolding seat_in seat
  seat_in-lem st st' player t idx quarantine now (gs, some id) m one ok (g, found, grew, room) h =
      let made = done-injective h in
      let e = new_entry player t.id idx id now in
      (
        subst (λ (x : Tables × MemberEntry). Seated cfg x.0.groups x.0.entries) made
            (subst (λ x. Seated cfg x (e ∷ st.entries)) (sym grew)
              (seat-Seated cfg st.groups st.entries e g ok found room)),
        subst (λ (x : Tables × MemberEntry). x.0.entries ≡ x.1 ∷ st.entries) made refl,
        id,
        ap (λ (x : Tables × MemberEntry). x.1) (sym made),
      )
  seat_in-lem st st' player t idx quarantine now (gs, none) m one ok same h =
      let (numbered, seq_read, rest) = >>=-done (next_group_seq st.rounds t.id idx) _ h in
      let g = new_group cfg t idx quarantine now numbered.1 in
      let e = new_entry player t.id idx g.id now in
      let (groups, created, seated) = >>=-done (create_group gs g) _ rest in
      let (fresh, put) = create_group-done gs groups g created in
      let made = done-injective seated in
      (
        subst (λ (x : Tables × MemberEntry). Seated cfg x.0.groups x.0.entries) made
            (subst (λ x. Seated cfg x (e ∷ st.entries)) (ap (λ x. g ∷ x) (sym same) ∙ put)
              (create-Seated cfg st.groups st.entries e g ok one
                (subst (λ x. get_group x g.id ≡ none) same fresh) refl refl)),
        subst (λ (x : Tables × MemberEntry). x.0.entries ≡ x.1 ∷ st.entries) made refl,
        g.id,
        ap (λ (x : Tables × MemberEntry). x.1) (sym made),
      )

new_entry-is_entry :
    (player tier : Text) (idx : ℤ) (id : Text) (now : ℤ)
    → is_entry player tier idx (new_entry player tier idx id now) ≡ true
unfolding is_entry
new_entry-is_entry player tier idx id now =
    rw (text_eq_refl player, text_eq_refl tier) (eqb_ℤ_refl idx)

module _ (fl : Float64) (cfg : LeagueConfig) where
  -- What `ensureMembership` leaves.
  IsJoined : Joining fl → Text → Text → ℤ → Type 0
  IsJoined j player tier idx =
      Seated cfg j.tables.groups j.tables.entries
      × (get_member j.tables.entries player tier idx ≡ some j.entry)

  ensure_found-IsJoined :
      (sg : Signals fl) (st : Tables) (player : Text) (excluded : Bool) (t : Tier) (idx : ℤ)
      (prefer : Text) (now : ℤ) (o : Option MemberEntry) (j : Joining fl)
      → pos 1 ≤ℤ cfg.group_size
      → cfg.group_size ≤ℤ cfg.group_max
      → Seated cfg st.groups st.entries
      → get_member st.entries player t.id idx ≡ o
      → ensure_found fl cfg sg st player excluded t idx prefer now o ≡ done j
      → IsJoined j player t.id idx
  unfolding ensure_found join_round get_member IsJoined
  ensure_found-IsJoined sg st player excluded t idx prefer now (some e) j one most ok read h =
      subst (λ (x : Joining fl). IsJoined x player t.id idx) (done-injective h) (ok, read)
  ensure_found-IsJoined sg st player excluded t idx prefer now none j one most ok read h =
      let (refreshed, cleared, rest) = >>=-done (refresh_exclusion fl now player excluded sg) _ h in
      let (joined, sat, made) =
        >>=-done (join_round cfg st player t idx refreshed.1 prefer now) _ rest in
      let tried =
        take_candidate cfg st.groups (candidate_of cfg st player t idx refreshed.1 prefer) in
      let (seats, rows, id, fresh) =
        seat_in-lem cfg st joined.0 player t idx refreshed.1 now
          (take_open cfg t.id idx refreshed.1 tried) joined.1 (omega arith) ok
          (take_open-Took cfg st.groups t.id idx refreshed.1 tried most (
            take_candidate-Took cfg st.groups
              (candidate_of cfg st player t idx refreshed.1 prefer)))
          sat in
      let mine : is_entry player t.id idx joined.1 ≡ true =
        ap (is_entry player t.id idx) fresh ∙ new_entry-is_entry player t.id idx id now in
      subst (λ (x : Joining fl). IsJoined x player t.id idx) (done-injective made)
        (seats, ap (λ es. get_member es player t.id idx) rows ∙ if_true _ mine)

  -- When every counter of the groups is the number of their members and no group with a capacity has
  -- more than `group_max` of them, so it is after `ensureMembership`, which sizes of at least 1 and
  -- a `group_max` of at least `group_size` are configured for; and the member that is returned is the
  -- player's in that round.
  pub ensure_membership-IsJoined :
      (sg : Signals fl) (st : Tables) (player : Text) (excluded : Bool) (t : Tier) (idx : ℤ)
      (prefer : Text) (now : ℤ) (j : Joining fl)
      → pos 1 ≤ℤ cfg.group_size
      → cfg.group_size ≤ℤ cfg.group_max
      → Seated cfg st.groups st.entries
      → ensure_membership fl cfg sg st player excluded t idx prefer now ≡ done j
      → Seated cfg j.tables.groups j.tables.entries
        × (get_member j.tables.entries player t.id idx ≡ some j.entry)
  unfolding ensure_membership IsJoined
  ensure_membership-IsJoined sg st player excluded t idx prefer now j one most ok h =
      ensure_found-IsJoined sg st player excluded t idx prefer now
        (get_member st.entries player t.id idx) j one most ok refl h
