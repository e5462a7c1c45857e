-- ===== src/Results/Rows.antt =====
-- The table of results under its writes.
use queens.Prelude.{
  ◌≡◌, refl, sym, ap, ◌∙◌, inl, inr, true, false, not, ◌&&◌, some, List, [], ◌∷◌, map, Bool-cases,
  some-eq, if_true, if_false, both_true, if_both,
}
use queens.Prelude.Text.{Text, text_eq, text_eq_refl}
use queens.Float.{Float64}
use queens.GroupTable.{is_none}
use queens.Results.{
  Result, SubmitResponse, get_result, insert_result, replace_row, response_row, set_response,
}

module _ (fl : Float64) where
  pub insert_result-some :
      (rs rs' : List (Result fl)) (x : Result fl)
      → insert_result fl rs x ≡ some rs'
      → get_result fl rs' x.result_id ≡ some x
  unfolding insert_result get_result
  insert_result-some rs rs' x h = elim (Bool-cases (is_none (get_result fl rs x.result_id))) [
    | inl y ↦
        ap (λ l. get_result fl l x.result_id) (sym (some-eq (sym (if_true _ y) ∙ h)))
        ∙ if_true _ (text_eq_refl x.result_id)
    | inr n ↦ absurd (cc (sym (if_false _ n) ∙ h))
  ]

  -- An update that keeps the ids is seen through a lookup.
  get_result-update :
      (g : Result fl → Result fl) (rs : List (Result fl)) (id : Text) (r : Result fl)
      → ((x : Result fl) → (g x).result_id ≡ x.result_id)
      → get_result fl rs id ≡ some r
      → get_result fl (map g rs) id ≡ some (g r)
  unfolding get_result
  get_result-update g [] id r keeps h = absurd (cc h)
  get_result-update g (x ∷ rs) id r keeps h =
      let same = ap (λ i. text_eq i id) (keeps x) in
      elim (Bool-cases (text_eq x.result_id id)) [
        | inl y ↦ if_true _ (same ∙ y) ∙ ap (λ z. some (g z)) (some-eq (sym (if_true _ y) ∙ h))
        | inr n ↦ if_false _ (same ∙ n) ∙ get_result-update g rs id r keeps (sym (if_false _ n) ∙ h)
      ]

  get_result-id :
      (rs : List (Result fl)) (id : Text) (r : Result fl)
      → get_result fl rs id ≡ some r
      → text_eq r.result_id id ≡ true
  unfolding get_result
  get_result-id [] id r h = absurd (cc h)
  get_result-id (x ∷ rs) id r h = elim (Bool-cases (text_eq x.result_id id)) [
    | inl y ↦
        ap (λ (z : Result fl). text_eq z.result_id id) (sym (some-eq (sym (if_true _ y) ∙ h))) ∙ y
    | inr n ↦ get_result-id rs id r (sym (if_false _ n) ∙ h)
  ]

  pub get_result-set_response :
      (rs : List (Result fl)) (id : Text) (body : SubmitResponse fl) (r : Result fl)
      → get_result fl rs id ≡ some r
      → get_result fl (set_response fl rs id body) id ≡ some (record r { response = some body })
  unfolding response_row
  get_result-set_response rs id body r h =
      get_result-update (response_row fl id body) rs id r
        (λ x. if_both (λ (z : Result fl). z.result_id) (text_eq x.result_id id) _ x refl refl) h
      ∙ ap some (if_true _ (get_result-id rs id r h))

  -- A forfeit is replaced, and keeps its id and its player.
  pub get_result-replace :
      (rs : List (Result fl)) (x r : Result fl)
      → get_result fl rs x.result_id ≡ some r
      → r.completed ≡ false
      → get_result fl (map (replace_row fl x) rs) x.result_id
        ≡ some (record x { result_id = r.result_id; player_id = r.player_id })
  unfolding replace_row
  get_result-replace rs x r h open_game =
      get_result-update (replace_row fl x) rs x.result_id r
        (λ z.
          if_both (λ (y : Result fl). y.result_id)
            (text_eq z.result_id x.result_id && not z.completed) _ z refl refl)
        h
      ∙ ap some (if_true _ (both_true (get_result-id rs x.result_id r h) (ap not open_game)))
