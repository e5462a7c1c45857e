-- ===== src/Payloads/Untouched.antt =====
-- The stages before the record of a result leave the table of results as it is.
use queens.Prelude.{
  ◌≡◌, sym, ap, ◌∙◌, ◌≢◌, inl, inr, Bool, true, false, not, ◌&&◌, Option, none, some, Bool-cases,
  if_true, if_false,
}
use queens.Prelude.Fallible.{done, ◌>>=◌, >>=-done, done-injective}
use queens.Prelude.Int.{ℤ, ltb_ℤ, ◌-ℤ◌, leb_ℤ}
use queens.Prelude.Text.{Text, bytes, text_eq}
use queens.Float.{Float64}
use queens.League.{Tier, is_empty}
use queens.Anomaly.{Signals, flag}
use queens.Sessions.{Session, get_session, consume, spent_by}
use queens.Levels.{Level, get_player_level}
use queens.Transaction.{ok, ApiError}
use queens.Transaction.Ends.{ok-injective, try-ok}
use queens.Play.{sig_cooldown_violation}
use queens.World.{World, Server}
use queens.Payloads.{
  Payload, SessionCheck, flag_when, flag_and_fail, accept_session, spend_session, check_session,
  no_session, breaks_cooldown, session_stage, session_acceptance, flag_elapsed, is_impossible,
  reject_impossible,
}

module _ (fl : Float64) (sv : Server) where
  -- A signal changes the signals alone.
  pub flag_when-only :
      (b : Bool) (w w' : World fl) (id signal : Text) (weight : fl.Float)
      → flag_when fl sv b w id signal weight ≡ done w'
      → (s : Signals fl) × (w' ≡ record w { signals = s })
  unfolding flag_when
  flag_when-only true w w' id signal weight h =
      let (s, flagged, e) = >>=-done (flag fl sv.now id signal weight w.signals) _ h in
      (s, sym (done-injective e))
  flag_when-only false w w' id signal weight h = (w.signals, sym (done-injective h))

  pub flag_when-results :
      (b : Bool) (w w' : World fl) (id signal : Text) (weight : fl.Float)
      → flag_when fl sv b w id signal weight ≡ done w'
      → w'.results ≡ w.results
  flag_when-results b w w' id signal weight h =
      ap (λ (x : World fl). x.results) (flag_when-only b w w' id signal weight h).1

  -- Two signals, one after the other.
  flag_two-only :
      (b c : Bool) (w w' : World fl) (id s t : Text) (x y : fl.Float)
      → (flag_when fl sv b w id s x >>= λ v. flag_when fl sv c v id t y) ≡ done w'
      → (g : Signals fl) × (w' ≡ record w { signals = g })
  flag_two-only b c w w' id s t x y h =
      let (v, one, two) = >>=-done (flag_when fl sv b w id s x) _ h in
      let (g, after) = flag_when-only c v w' id t y two in
      let (k, before) = flag_when-only b w v id s x one in
      (g, after ∙ ap (λ (z : World fl). record z { signals = g }) before)

  flag_two-results :
      (b c : Bool) (w w' : World fl) (id s t : Text) (x y : fl.Float)
      → (flag_when fl sv b w id s x >>= λ v. flag_when fl sv c v id t y) ≡ done w'
      → w'.results ≡ w.results
  flag_two-results b c w w' id s t x y h =
      ap (λ (z : World fl). z.results) (flag_two-only b c w w' id s t x y h).1

  pub flag_and_fail-ok :
      {A : Type 0} (w w' : World fl) (id signal : Text) (weight : fl.Float) (error : ApiError)
      (a : A)
      → flag_and_fail fl sv w id signal weight error ≢ ok w' a
  unfolding flag_and_fail
  flag_and_fail-ok w w' id signal weight error a h =
      let (v, flagged, rest) = try-ok (flag_when fl sv true w id signal weight) _ h in cc

  pub accept_session-only :
      (w w' : World fl) (player : Text) (p : Payload fl) (s : Session) (c : SessionCheck fl)
      → accept_session fl sv w player p s ≡ ok w' c
      → (g : Signals fl) × (w' ≡ record w { signals = g })
  unfolding accept_session
  accept_session-only w w' player p s c h =
      let late = ltb_ℤ sv.session_ttl (sv.now -ℤ s.issued_at) in
      let other = not (text_eq s.level_id p.level_id) in
      let (v, flagged, rest) =
        try-ok
          (flag_when fl sv other w player (bytes "session_level_mismatch") (fl.lit 2 0) >>= λ x.
            flag_when fl sv late x player (bytes "session_stale") (fl.lit 1 0))
          _ h in
      let (g, same) =
        flag_two-only other late w v player (bytes "session_level_mismatch") (bytes "session_stale")
          (fl.lit 2 0) (fl.lit 1 0) flagged in
      (g, sym (ok-injective rest).0 ∙ same)

  accept_session-results :
      (w w' : World fl) (player : Text) (p : Payload fl) (s : Session) (c : SessionCheck fl)
      → accept_session fl sv w player p s ≡ ok w' c
      → w'.results ≡ w.results
  accept_session-results w w' player p s c h =
      ap (λ (z : World fl). z.results) (accept_session-only w w' player p s c h).1

  check_session-results :
      (w w' : World fl) (player : Text) (p : Payload fl) (id : Text) (o : Option Session)
      (c : SessionCheck fl)
      → check_session fl sv w player p id o ≡ ok w' c
      → w'.results ≡ w.results
  unfolding check_session spend_session consume
  check_session-results w w' player p id none c h = absurd (cc h)
  check_session-results w w' player p id (some s) c h =
      elim (Bool-cases (text_eq s.player_id player)) [
        | inr n ↦ absurd (flag_and_fail-ok w w' player _ _ _ c (sym (if_true _ (ap not n)) ∙ h))
        | inl y ↦
            let h1 = sym (if_false _ (ap not y)) ∙ h in
            elim (Bool-cases (ltb_ℤ session_acceptance (sv.now -ℤ s.issued_at))) [
              | inl old ↦ absurd (cc (sym (if_true _ old) ∙ h1))
              | inr young ↦ spent (sym (if_false _ young) ∙ h1)
            ]
      ]
    where
      spent :
          spend_session fl sv w player p s (consume w.sessions id p.result_id sv.now) ≡ ok w' c
          → w'.results ≡ w.results
      spent h =
          elim (Bool-cases
            (not (consume w.sessions id p.result_id sv.now).1 && not (spent_by s p.result_id))) [
              | inl used ↦ absurd (flag_and_fail-ok w w' player _ _ _ c (sym (if_true _ used) ∙ h))
              | inr free ↦
                  accept_session-results
                    (record w { sessions = (consume w.sessions id p.result_id sv.now).0 }) w' player
                    p s c (sym (if_false _ free) ∙ h)
            ]

  no_session-results :
      (w w' : World fl) (player : Text) (t : Tier) (p : Payload fl) (c : SessionCheck fl)
      → no_session fl sv w player t p ≡ ok w' c
      → w'.results ≡ w.results
  unfolding no_session
  no_session-results w w' player t p c h =
      let offline = t.online_required && leb_ℤ sv.no_session_grace_until p.finished_at in
      let early = breaks_cooldown fl sv p (get_player_level fl w.player_levels player p.level_id) in
      let (v, flagged, rest) =
        try-ok
          (flag_when fl sv offline w player (bytes "no_session") (fl.lit 8 0) >>= λ x.
            flag_when fl sv early x player sig_cooldown_violation (fl.lit 3 0))
          _ h in
      ap (λ (x : World fl). x.results) (sym (ok-injective rest).0)
      ∙ flag_two-results offline early w v player (bytes "no_session") sig_cooldown_violation
          (fl.lit 8 0) (fl.lit 3 0) flagged

  pub session_stage-results :
      (w w' : World fl) (player : Text) (t : Tier) (p : Payload fl) (id : Text)
      (c : SessionCheck fl)
      → session_stage fl sv w player t p id ≡ ok w' c
      → w'.results ≡ w.results
  unfolding session_stage
  session_stage-results w w' player t p id c h = elim (Bool-cases (is_empty id)) [
    | inl y ↦ no_session-results w w' player t p c (sym (if_true _ y) ∙ h)
    | inr n ↦
        check_session-results w w' player p id (get_session w.sessions id) c
          (sym (if_false _ n) ∙ h)
  ]

  pub flag_elapsed-results :
      (w w' : World fl) (player : Text) (floor upper elapsed : fl.Float)
      → flag_elapsed fl sv w player floor upper elapsed ≡ done w'
      → w'.results ≡ w.results
  unfolding flag_elapsed
  flag_elapsed-results w w' player floor upper elapsed h = elim (Bool-cases (fl.lt elapsed floor)) [
    | inl y ↦ flag_when-results true w w' player _ _ (sym (if_true _ y) ∙ h)
    | inr n ↦ flag_when-results (fl.lt upper elapsed) w w' player _ _ (sym (if_false _ n) ∙ h)
  ]

  pub reject_impossible-results :
      (w w' : World fl) (player : Text) (p : Payload fl) (lv : Level fl) (finished : ℤ)
      (elapsed : fl.Float) (u : Unit {0})
      → reject_impossible fl sv w player p lv finished elapsed ≡ ok w' u
      → w'.results ≡ w.results
  unfolding reject_impossible
  reject_impossible-results w w' player p lv finished elapsed u h =
      elim (Bool-cases (p.completed && is_impossible fl sv p lv finished elapsed)) [
        | inl y ↦ absurd (cc (sym (if_true _ y) ∙ h))
        | inr n ↦
            let (v, flagged, rest) =
              try-ok (flag_when fl sv _ w player _ _) _ (sym (if_false _ n) ∙ h) in
            ap (λ (x : World fl). x.results) (sym (ok-injective rest).0)
            ∙ flag_when-results _ w v player _ _ flagged
      ]
