-- ===== src/Submit/Stored.antt =====
-- A request that records a result leaves it in the table, with the response that it answers.
use queens.Prelude.{◌≡◌, refl, sym, ap, ◌∙◌, Bool, true, false, Option, none, some, List, map}
use queens.Prelude.Text.{Text}
use queens.Float.{Float64}
use queens.Transaction.{ok, try}
use queens.Transaction.Ends.{ok-injective, try-ok, chain-ok}
use queens.Results.{Result, get_result, insert_result, replace_row, is_forfeit}
use queens.Results.Rows.{insert_result-some, get_result-set_response, get_result-replace}
use queens.World.{World, Server}
use queens.Payloads.{Payload}
use queens.Answers.{SubmitResult, Accepted, credit}
use queens.Answers.Untouched.{credit-results}
use queens.Submit.{
  result_of, fresh_result, not_replaced, replaced, inserted, record_result, accept, submit_in_tx,
}
use queens.Submit.Untouched.{accept-results}

module _ (fl : Float64) (sv : Server) (payload_hash : Payload fl → Text) where
  -- The result of `p` by the player `id` is stored with the response of `r`.
  abbrev pub IsStored : World fl → Text → Payload fl → SubmitResult fl → Type 0
  IsStored w id p r =
      (stored : Result fl) × (get_result fl w.results p.result_id ≡ some stored)
      × (stored.player_id ≡ id)
      × (stored.completed ≡ p.completed)
      × (stored.payload_hash ≡ payload_hash p)
      × (stored.response ≡ r.body)

  -- A credit of a result that is in the table.
  credit-IsStored :
      (w w' : World fl) (id : Text) (p : Payload fl) (a : Accepted fl) (replaces : Bool)
      (x : Result fl) (r : SubmitResult fl)
      → get_result fl w.results p.result_id ≡ some x
      → x.player_id ≡ id
      → x.completed ≡ p.completed
      → x.payload_hash ≡ payload_hash p
      → try (credit fl sv w id p a replaces) (fresh_result fl sv payload_hash) ≡ ok w' r
      → IsStored w' id p r
  credit-IsStored w w' id p a replaces x r found mine same hash h =
      let ((v, body), credited, e) = try-ok (credit fl sv w id p a replaces) _ h in
      let (ends, answers) = ok-injective e in
      (
        record x { response = some body },
        ap (λ (y : World fl). get_result fl y.results p.result_id) (sym ends)
            ∙ ap (λ rs. get_result fl rs p.result_id)
                (credit-results fl sv w v id p a replaces body credited)
            ∙ get_result-set_response fl w.results p.result_id body x found,
        mine,
        same,
        hash,
        ap (λ (y : SubmitResult fl). y.body) answers,
      )

  inserted-IsStored :
      (w w' : World fl) (id : Text) (p : Payload fl) (a : Accepted fl)
      (o : Option (List (Result fl))) (r : SubmitResult fl)
      → insert_result fl w.results (result_of fl sv payload_hash id p a) ≡ o
      → inserted fl sv payload_hash w id p a o ≡ ok w' r
      → IsStored w' id p r
  unfolding inserted
  inserted-IsStored w w' id p a none r put h = absurd (cc h)
  inserted-IsStored w w' id p a (some rs) r put h =
      let x = result_of fl sv payload_hash id p a in
      credit-IsStored (record w { results = rs }) w' id p a false x r
        (insert_result-some fl w.results rs x put) refl refl refl h

  not_replaced-replay :
      (w w' : World fl) (o : Option (Result fl)) (r : SubmitResult fl)
      → not_replaced fl sv payload_hash w o ≡ ok w' r
      → r.replay ≡ true
  unfolding not_replaced
  not_replaced-replay w w' none r h = absurd (cc h)
  not_replaced-replay w w' (some old) r h =
      ap (λ (x : SubmitResult fl). x.replay) (sym (ok-injective h).1)

  replaced-IsStored :
      (w w' : World fl) (id : Text) (p : Payload fl) (a : Accepted fl) (hit : Bool)
      (old : Result fl) (r : SubmitResult fl)
      → get_result fl w.results p.result_id ≡ some old
      → old.player_id ≡ id
      → old.completed ≡ false
      → r.replay ≡ false
      → replaced fl sv payload_hash w id p a
          (map (replace_row fl (result_of fl sv payload_hash id p a)) w.results, hit)
        ≡ ok w' r
      → IsStored w' id p r
  unfolding replaced
  replaced-IsStored w w' id p a true old r found mine forfeit fresh h =
      let x = result_of fl sv payload_hash id p a in
      credit-IsStored (record w { results = map (replace_row fl x) w.results }) w' id p a true
        (record x { result_id = old.result_id; player_id = old.player_id }) r
        (get_result-replace fl w.results x old found forfeit) mine refl refl h
  replaced-IsStored w w' id p a false old r found mine forfeit fresh h =
      absurd (cc (fresh, not_replaced-replay w w' (get_result fl w.results p.result_id) r h))

  record_result-IsStored :
      (w w' : World fl) (id : Text) (p : Payload fl) (replaces : Bool) (a : Accepted fl)
      (r : SubmitResult fl)
      → r.replay ≡ false
      → (replaces ≡ true
          → (old : Result fl) × (get_result fl w.results p.result_id ≡ some old)
            × (old.player_id ≡ id)
            × (old.completed ≡ false))
      → record_result fl sv payload_hash w id p replaces a ≡ ok w' r
      → IsStored w' id p r
  unfolding record_result
  record_result-IsStored w w' id p true a r fresh known h =
      let (old, found, mine, forfeit) = known refl in
      replaced-IsStored w w' id p a (is_forfeit fl w.results p.result_id) old r found mine forfeit
        fresh h
  record_result-IsStored w w' id p false a r fresh known h =
      inserted-IsStored w w' id p a
        (insert_result fl w.results (result_of fl sv payload_hash id p a)) r refl h

  -- The transaction; a result that is replaced is a forfeit of the player.
  pub submit_in_tx-IsStored :
      (w w' : World fl) (id : Text) (p : Payload fl) (session : Text) (replaces : Bool)
      (r : SubmitResult fl)
      → r.replay ≡ false
      → (replaces ≡ true
          → (old : Result fl) × (get_result fl w.results p.result_id ≡ some old)
            × (old.player_id ≡ id)
            × (old.completed ≡ false))
      → submit_in_tx fl sv payload_hash id p session replaces w ≡ ok w' r
      → IsStored w' id p r
  unfolding submit_in_tx
  submit_in_tx-IsStored w w' id p session replaces r fresh known h =
      let (v, a, accepted, rest) = chain-ok (accept fl sv payload_hash id p session w) _ h in
      let same = accept-results fl sv payload_hash id p session w v a accepted in
      record_result-IsStored v w' id p replaces a r fresh
        (λ e.
          let (old, found, mine, forfeit) = known e in
          (old, ap (λ rs. get_result fl rs p.result_id) same ∙ found, mine, forfeit))
        rest
