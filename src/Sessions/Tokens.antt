-- ===== src/Sessions/Tokens.antt =====
-- A session token names its session.
use queens.Prelude.{
  ◌≡◌, refl, sym, ap, ap₂, ◌∙◌, ◌↔◌, inl, inr, false, ◌||◌, Option, none, some, [], ◌∷◌, ◌++◌, ◌==◌,
  Bool-cases, All, some-eq, if_true, if_false,
}
use queens.Prelude.Text.{Text, text_eq, text_eq_refl, text_eq→eq}
use queens.League.{is_empty}
use queens.Sessions.{cut_after, cut_at_dot, session_token, verify_cut, verify_session_token}

-- No character is a `.`, as in the alphabet of base64url.
abbrev pub IsDotless : Text → Type 0
IsDotless id = All (λ c. (c == 46) ≡ false) id

cut_at_dot-append : (id sig : Text) → IsDotless id → cut_at_dot (id ++ (46 ∷ sig)) ≡ some (id, sig)
unfolding cut_at_dot
cut_at_dot-append [] sig h = refl
cut_at_dot-append (c ∷ cs) sig (h, hs) =
    if_false _ h ∙ ap (cut_after c) (cut_at_dot-append cs sig hs)

module _ (mac : Text → Text → Text) (pepper : Text) where
  session_token-verifies :
      (id : Text)
      → IsDotless id
      → is_empty id ≡ false
      → is_empty (mac pepper id) ≡ false
      → verify_session_token mac pepper (session_token mac pepper id) ≡ some id
  unfolding verify_session_token verify_cut session_token
  session_token-verifies id dotless named signed =
      ap (verify_cut mac pepper (session_token mac pepper id))
        (cut_at_dot-append id (mac pepper id) dotless)
      ∙ if_false _ (ap₂ (λ a b. a || b) named signed)
      ∙ if_true _ (text_eq_refl (session_token mac pepper id))

  verify_cut-token :
      (token id : Text) (o : Option (Text × Text))
      → verify_cut mac pepper token o ≡ some id
      → token ≡ session_token mac pepper id
  unfolding verify_cut
  verify_cut-token token id none h = absurd (cc h)
  verify_cut-token token id (some (a, sig)) h = elim (Bool-cases (is_empty a || is_empty sig)) [
    | inl y ↦ absurd (cc (sym (if_true _ y) ∙ h))
    | inr n ↦
        let h1 = sym (if_false _ n) ∙ h in
        elim (Bool-cases (text_eq token (session_token mac pepper a))) [
          | inl y ↦
              text_eq→eq token (session_token mac pepper a) y
              ∙ ap (session_token mac pepper) (some-eq (sym (if_true _ y) ∙ h1))
          | inr m ↦ absurd (cc (sym (if_false _ m) ∙ h1))
        ]
  ]

  -- A session's token verifies to its id, and no other text does: a token that verifies is the one that
  -- the server made. The id has no `.`, and neither it nor the mac is empty.
  pub verify_session_token_iff :
      (token id : Text)
      → IsDotless id
      → is_empty id ≡ false
      → is_empty (mac pepper id) ≡ false
      → (verify_session_token mac pepper token ≡ some id) ↔ (token ≡ session_token mac pepper id)
  unfolding verify_session_token
  verify_session_token_iff token id dotless named signed = (
    verify_cut-token token id (cut_at_dot token),
    λ e. ap (verify_session_token mac pepper) e ∙ session_token-verifies id dotless named signed,
  )
