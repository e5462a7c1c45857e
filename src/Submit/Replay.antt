-- ===== src/Submit/Replay.antt =====
-- A result is recorded once: the same request again is answered from the table.
use queens.League.{is_empty}
use queens.Sessions.{verify_session_token}
use queens.Prelude.{
  [], if◌then◌else◌, ◌≡◌, refl, sym, ap, ap₂, ◌∙◌, inl, inr, Bool, true, false, not, ◌||◌, Option,
  none, some, arith, Bool-cases, if_true, if_false,
}
use queens.Prelude.Fallible.{Fallible, done, done-injective}
use queens.Prelude.Text.{Text, text_eq, text_eq→eq, eq_text_eq}
use queens.Float.{Float64}
use queens.Transaction.{ApiError}
use queens.Transaction.Ends.{in_tx-done}
use queens.Results.{Result, get_result}
use queens.World.{World, Server}
use queens.Payloads.{Payload, is_malformed}
use queens.Answers.{SubmitResult, is_uuid_v4}
use queens.Submit.{
  submit_in_tx, submit_known, submit_checked, token_session, submit_verified, submit_result,
}
use queens.Submit.Stored.{IsStored, submit_in_tx-IsStored}

or_not : (b c : Bool) → b ≡ c → (b || not c) ≡ true
or_not true c h = refl
or_not false true h = cc
or_not false false h = refl

module _ (fl : Float64) (sv : Server) (payload_hash : Payload fl → Text) where
  -- The two values of a request that is answered.
  answer-injective :
      (w w' : World fl) (x : Fallible ApiError (SubmitResult fl)) (r : SubmitResult fl)
      → ◌≡◌ {A = World fl × Fallible ApiError (SubmitResult fl)} (w, x) (w', done r)
      → x ≡ done r
  answer-injective w w' x r h = ap (λ (y : World fl × Fallible ApiError (SubmitResult fl)). y.1) h

  submit_known-IsStored :
      (w w' : World fl) (id : Text) (p : Payload fl) (session : Text) (old : Result fl)
      (r : SubmitResult fl)
      → get_result fl w.results p.result_id ≡ some old
      → r.replay ≡ false
      → submit_known fl sv payload_hash w id p session old ≡ (w', done r)
      → IsStored fl sv payload_hash w' id p r
  unfolding submit_known
  submit_known-IsStored w w' id p session old r found fresh h =
      elim (Bool-cases (text_eq old.player_id id)) [
        | inr n ↦ absurd (cc (answer-injective _ w' _ r (sym (if_true _ (ap not n)) ∙ h)))
        | inl mine ↦
            let h1 = sym (if_false _ (ap not mine)) ∙ h in
            elim (Bool-cases (old.completed || not p.completed)) [
              | inl y ↦
                  let e = done-injective (answer-injective _ w' _ r (sym (if_true _ y) ∙ h1)) in
                  absurd (cc (fresh, ap (λ (x : SubmitResult fl). x.replay) e))
              | inr n ↦
                  submit_in_tx-IsStored fl sv payload_hash w w' id p session true r fresh
                    (λ t. (old, found, text_eq→eq old.player_id id mine, ground (arith, n)))
                    (in_tx-done w (submit_in_tx fl sv payload_hash id p session true)
                      (sym (if_false _ n) ∙ h1))
            ]
      ]

  submit_checked-IsStored :
      (w w' : World fl) (id : Text) (p : Payload fl) (session : Text) (o : Option (Result fl))
      (r : SubmitResult fl)
      → get_result fl w.results p.result_id ≡ o
      → r.replay ≡ false
      → submit_checked fl sv payload_hash w id p session o ≡ (w', done r)
      → IsStored fl sv payload_hash w' id p r
  unfolding submit_checked
  submit_checked-IsStored w w' id p session none r found fresh h =
      submit_in_tx-IsStored fl sv payload_hash w w' id p session false r fresh (λ t. absurd (cc t))
        (in_tx-done w (submit_in_tx fl sv payload_hash id p session false) h)
  submit_checked-IsStored w w' id p session (some old) r found fresh h =
      submit_known-IsStored w w' id p session old r found fresh h

  -- A stored result is answered from the table.
  submit_checked-replays :
      (w : World fl) (id : Text) (p : Payload fl) (session : Text) (r : SubmitResult fl)
      → IsStored fl sv payload_hash w id p r
      → submit_checked fl sv payload_hash w id p session (get_result fl w.results p.result_id)
        ≡ (w, done (record { body = r.body; replay = true }))
  unfolding submit_checked submit_known
  submit_checked-replays w id p session r (stored, found, mine, same, hash, body) =
      ap (submit_checked fl sv payload_hash w id p session) found
      ∙ if_false _ (ap not (eq_text_eq mine))
      ∙ if_true _ (or_not stored.completed p.completed same)
      ∙ ap₂ (λ v (x : SubmitResult fl). (v, done x)) (if_true _ (eq_text_eq hash))
          (ap (λ b. record { body = b; replay = true }) body)

  -- A request that records a result leaves it stored; its session token was accepted.
  submit_verified-IsStored :
      (w w' : World fl) (id : Text) (p : Payload fl) (o : Option Text) (r : SubmitResult fl)
      → r.replay ≡ false
      → submit_verified fl sv payload_hash w id p o ≡ (w', done r)
      → IsStored fl sv payload_hash w' id p r × ((session : Text) × (o ≡ some session))
  unfolding submit_verified
  submit_verified-IsStored w w' id p none r fresh h = absurd (cc (answer-injective w w' _ r h))
  submit_verified-IsStored w w' id p (some session) r fresh h = (
    submit_checked-IsStored w w' id p session (get_result fl w.results p.result_id) r refl fresh h,
    (session, refl),
  )

  submit_result-IsStored :
      (w w' : World fl) (id : Text) (p : Payload fl) (r : SubmitResult fl)
      → submit_result fl sv payload_hash w id p ≡ (w', done r)
      → r.replay ≡ false
      → ((not (is_uuid_v4 p.result_id) || is_malformed fl p) ≡ false)
        × IsStored fl sv payload_hash w' id p r
        × ((session : Text) × (token_session fl sv payload_hash p.session_token ≡ some session))
  unfolding submit_result
  submit_result-IsStored w w' id p r h fresh =
      elim (Bool-cases (not (is_uuid_v4 p.result_id) || is_malformed fl p)) [
        | inl y ↦ absurd (cc (answer-injective w w' _ r (sym (if_true _ y) ∙ h)))
        | inr n ↦
            let (stored, token) =
              submit_verified-IsStored w w' id p (token_session fl sv payload_hash p.session_token)
                r fresh (sym (if_false _ n) ∙ h) in
            (n, stored, token)
      ]

-- Tokens are checked with the mac and the pepper alone.
token_session-same :
    (fl : Float64) (sv later : Server) (payload_hash : Payload fl → Text) (token : Text)
    → later.mac ≡ sv.mac
    → later.token_pepper ≡ sv.token_pepper
    → token_session fl later payload_hash token ≡ token_session fl sv payload_hash token
unfolding token_session
token_session-same fl sv later payload_hash token mac pepper =
    ap₂ (λ m p. if is_empty token then some [] else verify_session_token m p token) mac pepper

-- A request that records a result can be sent again, at any time and after any other requests that leave
-- the row of the result as it is, to a server with the same mac and pepper: `SubmitResult` answers it
-- with the stored response, marked as a replay, and changes nothing.
pub submit_result_replays :
    (fl : Float64) (sv later : Server) (payload_hash : Payload fl → Text) (w w' v : World fl)
    (id : Text) (p : Payload fl) (r : SubmitResult fl)
    → submit_result fl sv payload_hash w id p ≡ (w', done r)
    → r.replay ≡ false
    → later.mac ≡ sv.mac
    → later.token_pepper ≡ sv.token_pepper
    → get_result fl v.results p.result_id ≡ get_result fl w'.results p.result_id
    → submit_result fl later payload_hash v id p
      ≡ (v, done (record { body = r.body; replay = true }))
unfolding submit_result submit_verified
submit_result_replays fl sv later payload_hash w w' v id p r h fresh mac pepper kept =
    let (valid, (stored, found, mine, same, hash, body), (session, token)) =
      submit_result-IsStored fl sv payload_hash w w' id p r h fresh in
    if_false _ valid
    ∙ ap (submit_verified fl later payload_hash v id p)
        (token_session-same fl sv later payload_hash p.session_token mac pepper ∙ token)
    ∙ submit_checked-replays fl later payload_hash v id p session r
        (stored, kept ∙ found, mine, same, hash, body)
