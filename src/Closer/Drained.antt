-- ===== src/Closer/Drained.antt =====
-- A pass over the groups that were listed leaves none of the round open.
use queens.Prelude.{
  ◌≡◌, refl, sym, ap, subst, ◌∙◌, inl, inr, Bool, true, false, not, ◌&&◌, ◌||◌, Option, none, some,
  List, [], ◌∷◌, map, arith, Bool-cases, All, if_true, if_false, and_true,
}
use queens.Prelude.Fallible.{done, >>=-done, done-injective}
use queens.Prelude.Int.{ℤ}
use queens.Prelude.Sort.{sort_by, insert_by}
use queens.Prelude.Text.{Text, text_eq, text_eq_refl, text_eq→eq, eq_text_eq}
use queens.Float.{Float64}
use queens.League.{LeagueConfig}
use queens.Group.{eqb_ℤ}
use queens.Absence.{known_tier}
use queens.Freeze.{Round, get_round}
use queens.GroupTable.{GroupRow}
use queens.Closer.{
  LeagueTables, Names, is_open_in, open_rows, id_before, open_groups, close_row, is_claimed,
  group_outcome, settle_group, settle_claimed, close_one, close_listed,
}

-- A group with the id is in the list.
abbrev listed : List GroupRow → Text → Bool
listed [] id = false
listed (g ∷ gs) id = text_eq g.id id || listed gs id

listed-insert_by :
    (x : GroupRow) (l : List GroupRow) (id : Text)
    → listed (insert_by id_before x l) id ≡ (text_eq x.id id || listed l id)
unfolding insert_by
listed-insert_by x [] id = refl
listed-insert_by x (y ∷ l) id = elim (Bool-cases (id_before y x)) [
  | inl h ↦
      ap (λ z. listed z id) (if_true _ h)
      ∙ ap (λ b. text_eq y.id id || b) (listed-insert_by x l id)
      ∙ ground arith
  | inr n ↦ ap (λ z. listed z id) (if_false _ n)
]

listed-sort_by : (l : List GroupRow) (id : Text) → listed (sort_by id_before l) id ≡ listed l id
unfolding sort_by
listed-sort_by [] id = refl
listed-sort_by (x ∷ l) id =
    listed-insert_by x (sort_by id_before l) id
    ∙ ap (λ b. text_eq x.id id || b) (listed-sort_by l id)

-- The rows after every group of a list was claimed.
abbrev close_all : List GroupRow → List GroupRow → List GroupRow
close_all [] rows = rows
close_all (g ∷ gs) rows = close_all gs (map (close_row g.id) rows)

module _ (tier : Text) (idx : ℤ) where
  -- The open groups of the round are in the list.
  abbrev pub Covered : List GroupRow → List GroupRow → Type 0
  Covered gs rows = All (λ r. is_open_in tier idx r ≡ true → listed gs r.id ≡ true) rows

  open_rows-Covered :
      (rows gs : List GroupRow)
      → ((id : Text) → listed (open_rows rows tier idx) id ≡ true → listed gs id ≡ true)
      → Covered gs rows
  unfolding open_rows
  open_rows-Covered [] gs h = tt
  open_rows-Covered (r ∷ rows) gs h = elim (Bool-cases (is_open_in tier idx r)) [
    | inl y ↦
        let head : listed (r ∷ open_rows rows tier idx) r.id ≡ true = rw (text_eq_refl r.id) refl in
        (
          λ is_in. h r.id (ap (λ z. listed z r.id) (if_true _ y) ∙ head),
          open_rows-Covered rows gs
              (λ id k. h id (ap (λ z. listed z id) (if_true _ y) ∙ ground (arith, k))),
        )
    | inr n ↦ (
      λ is_in. absurd (cc (n, is_in)),
      open_rows-Covered rows gs (λ id k. h id (ap (λ z. listed z id) (if_false _ n) ∙ k)),
    )
  ]

  open_groups-Covered : (rows : List GroupRow) → Covered (open_groups rows tier idx) rows
  unfolding open_groups
  open_groups-Covered rows =
      open_rows-Covered rows (sort_by id_before (open_rows rows tier idx))
        (λ id k. listed-sort_by (open_rows rows tier idx) id ∙ k)

  Covered-open_rows : (rows : List GroupRow) → Covered [] rows → open_rows rows tier idx ≡ []
  unfolding open_rows
  Covered-open_rows [] c = refl
  Covered-open_rows (r ∷ rows) (h, c) = elim (Bool-cases (is_open_in tier idx r)) [
    | inl y ↦ absurd (cc (h y))
    | inr n ↦ if_false _ n ∙ Covered-open_rows rows c
  ]

  -- A claim takes its group off the list.
  close_row-open :
      (g r : GroupRow) (gs : List GroupRow)
      → (is_open_in tier idx r ≡ true → listed (g ∷ gs) r.id ≡ true)
      → is_open_in tier idx (close_row g.id r) ≡ true
      → listed gs (close_row g.id r).id ≡ true
  unfolding close_row
  close_row-open g r gs h is_in = elim (Bool-cases (text_eq r.id g.id && r.group_open)) [
    | inl y ↦
        let shut = subst (λ x. is_open_in tier idx x ≡ true) (if_true _ y) is_in in
        let inner = (and_true (text_eq r.tier tier) (eqb_ℤ r.round_index idx && false) shut).1 in
        absurd (cc (and_true (eqb_ℤ r.round_index idx) false inner).1)
    | inr n ↦
        let kept = subst (λ x. is_open_in tier idx x ≡ true) (if_false _ n) is_in in
        subst (λ (x : GroupRow). listed gs x.id ≡ true) (sym (if_false _ n)) (others kept n)
  ]
    where
      -- An open row that the claim leaves has another id.
      others :
          is_open_in tier idx r ≡ true
          → (text_eq r.id g.id && r.group_open) ≡ false
          → listed gs r.id ≡ true
      others kept n = elim (Bool-cases (text_eq g.id r.id)) [
        | inl same ↦
            let inner =
              (and_true (text_eq r.tier tier) (eqb_ℤ r.round_index idx && r.group_open) kept).1 in
            let is_open = (and_true (eqb_ℤ r.round_index idx) r.group_open inner).1 in
            absurd (cc (n, eq_text_eq (sym (text_eq→eq g.id r.id same)), is_open))
        | inr m ↦ ap (λ b. b || listed gs r.id) (sym m) ∙ h kept
      ]

  Covered-close :
      (g : GroupRow) (gs rows : List GroupRow)
      → Covered (g ∷ gs) rows
      → Covered gs (map (close_row g.id) rows)
  Covered-close g gs [] c = tt
  Covered-close g gs (r ∷ rows) (h, c) = (close_row-open g r gs h, Covered-close g gs rows c)

  Covered-close_all :
      (gs rows : List GroupRow) → Covered gs rows → open_rows (close_all gs rows) tier idx ≡ []
  Covered-close_all [] rows c = Covered-open_rows rows c
  Covered-close_all (g ∷ gs) rows c =
      Covered-close_all gs (map (close_row g.id) rows) (Covered-close g gs rows c)

  pub close_all-drains :
      (rows : List GroupRow)
      → open_groups (close_all (open_groups rows tier idx) rows) tier idx ≡ []
  unfolding open_groups sort_by
  close_all-drains rows =
      ap (sort_by id_before)
        (Covered-close_all (open_groups rows tier idx) rows (open_groups-Covered rows))

module _ (fl : Float64) (names : Names) (cfg : LeagueConfig) where
  -- What a step keeps and what it does to the groups.
  Closes : List GroupRow → LeagueTables → LeagueTables → Type 0
  Closes gs w w' = (w'.groups ≡ close_all gs w.groups) × (w'.rounds ≡ w.rounds)

  settle_claimed-Closes :
      (tier : Text) (idx ends_at now : ℤ) (g : GroupRow) (w w' : LeagueTables) (o : Option Round)
      → settle_claimed fl names cfg tier idx ends_at now g w o ≡ done w'
      → Closes [] w w'
  unfolding settle_claimed settle_group Closes
  settle_claimed-Closes tier idx ends_at now g w w' none h = absurd (cc h)
  settle_claimed-Closes tier idx ends_at now g w w' (some fresh) h =
      let (t, known, rest) = >>=-done (known_tier cfg tier) _ h in
      let (st, settled, made) =
        >>=-done (group_outcome fl names cfg tier idx ends_at now g w fresh t) _ rest in
      let e = done-injective made in
      (ap (λ (x : LeagueTables). x.groups) (sym e), ap (λ (x : LeagueTables). x.rounds) (sym e))

  close_one-Closes :
      (tier : Text) (idx ends_at now : ℤ) (g : GroupRow) (w w' : LeagueTables)
      → close_one fl names cfg tier idx ends_at now g w ≡ done w'
      → Closes (g ∷ []) w w'
  unfolding close_one Closes
  close_one-Closes tier idx ends_at now g w w' h = elim (Bool-cases (is_claimed w.groups g.id)) [
    | inl y ↦
        settle_claimed-Closes tier idx ends_at now g
          (record w { groups = map (close_row g.id) w.groups }) w' (get_round w.rounds tier idx)
          (sym (if_false _ (ap not y)) ∙ h)
    | inr n ↦
        let e = done-injective (sym (if_true _ (ap not n)) ∙ h) in
        (ap (λ (x : LeagueTables). x.groups) (sym e), ap (λ (x : LeagueTables). x.rounds) (sym e))
  ]

  pub close_listed-Closes :
      (tier : Text) (idx ends_at now : ℤ) (gs : List GroupRow) (w w' : LeagueTables)
      → close_listed fl names cfg tier idx ends_at now gs w ≡ done w'
      → (w'.groups ≡ close_all gs w.groups) × (w'.rounds ≡ w.rounds)
  unfolding close_listed Closes
  close_listed-Closes tier idx ends_at now [] w w' h =
      let e = done-injective h in
      (ap (λ (x : LeagueTables). x.groups) (sym e), ap (λ (x : LeagueTables). x.rounds) (sym e))
  close_listed-Closes tier idx ends_at now (g ∷ gs) w w' h =
      let (v, one, rest) = >>=-done (close_one fl names cfg tier idx ends_at now g w) _ h in
      let (gv, rv) = close_one-Closes tier idx ends_at now g w v one in
      let (gw, r) = close_listed-Closes tier idx ends_at now gs v w' rest in
      (gw ∙ ap (close_all gs) gv, r ∙ rv)
