-- ===== src/Sessions/Spent.antt =====
-- A session after it was consumed.
use queens.Prelude.{
  ◌≡◌, refl, sym, ap, ◌∙◌, inl, inr, true, false, not, ◌&&◌, Option, none, some, List, [], ◌∷◌, map,
  arith, Bool-cases, some-eq, if_true, if_false, and_false_right, both_true, if_both,
}
use queens.Prelude.Int.{ℤ}
use queens.Prelude.Text.{Text, text_eq, text_eq→eq}
use queens.GroupTable.{is_none}
use queens.Sessions.{
  Session, get_session, consume_row, is_consumable, is_unspent, spent_with, spent_by,
}

get_session-id :
    (ss : List Session) (id : Text) (s : Session)
    → get_session ss id ≡ some s
    → text_eq s.id id ≡ true
unfolding get_session
get_session-id [] id s h = absurd (cc h)
get_session-id (x ∷ ss) id s h = elim (Bool-cases (text_eq x.id id)) [
  | inl y ↦ ap (λ (z : Session). text_eq z.id id) (sym (some-eq (sym (if_true _ y) ∙ h))) ∙ y
  | inr n ↦ get_session-id ss id s (sym (if_false _ n) ∙ h)
]

pub get_session-consume :
    (ss : List Session) (id result : Text) (now : ℤ) (s : Session)
    → get_session ss id ≡ some s
    → get_session (map (consume_row id result now) ss) id ≡ some (consume_row id result now s)
unfolding get_session consume_row
get_session-consume [] id result now s h = absurd (cc h)
get_session-consume (x ∷ ss) id result now s h =
    let same : text_eq (consume_row id result now x).id id ≡ text_eq x.id id =
      ap (λ i. text_eq i id)
        (if_both (λ (z : Session). z.id) (text_eq x.id id && is_none x.consumed_at) _ x refl
          refl) in
    elim (Bool-cases (text_eq x.id id)) [
      | inl y ↦
          if_true _ (same ∙ y)
          ∙ ap (λ z. some (consume_row id result now z)) (some-eq (sym (if_true _ y) ∙ h))
      | inr n ↦
          if_false _ (same ∙ n) ∙ get_session-consume ss id result now s (sym (if_false _ n) ∙ h)
    ]

spent_with-same :
    (o : Option Text) (result other : Text)
    → spent_with o result ≡ true
    → spent_with o other ≡ text_eq result other
spent_with-same none result other h = absurd (cc h)
spent_with-same (some r) result other h = ap (λ x. text_eq x other) (text_eq→eq r result h)

-- The row of a session that a result was accepted on: spent, by this result and no other.
pub consume_row-spent :
    (ss : List Session) (id result : Text) (now : ℤ) (s : Session)
    → get_session ss id ≡ some s
    → (not (is_consumable ss id) && not (spent_by s result)) ≡ false
    → (is_none (consume_row id result now s).consumed_at ≡ false)
      × ((other : Text) → spent_by (consume_row id result now s) other ≡ text_eq result other)
unfolding consume_row is_consumable
consume_row-spent ss id result now s found passed = elim (Bool-cases (is_none s.consumed_at)) [
  | inl y ↦
      let consumed = if_true _ (both_true (get_session-id ss id s found) y) in
      (
        ap (λ (z : Session). is_none z.consumed_at) consumed,
        λ other. ap (λ (z : Session). spent_by z other) consumed,
      )
  | inr n ↦
      let kept : consume_row id result now s ≡ s =
        if_false _ (and_false_right (text_eq s.id id) n) in
      let closed : is_unspent (get_session ss id) ≡ false = ap is_unspent found ∙ n in
      let spent : spent_by s result ≡ true = ground (arith, passed, closed) in
      (
        ap (λ (z : Session). is_none z.consumed_at) kept ∙ n,
        λ other.
            ap (λ (z : Session). spent_by z other) kept
            ∙ spent_with-same s.result_id result other spent,
      )
]
