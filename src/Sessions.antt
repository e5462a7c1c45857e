-- ===== src/Sessions.antt =====
-- The game sessions (store/sqlite/sessions.go, auth/auth.go): the table of sessions and the tokens that
-- carry a session's id. The mac of a token is a parameter, computed by the packages crypto/hmac and
-- encoding/base64.
pub mod Spent
pub mod Tokens
use queens.Prelude.{
  ℕ, zero, suc, ◌+◌, ◌-◌, ◌*◌, ◌/◌, ◌%◌, ◌^◌, ◌≤◌, ◌<◌, min, max, ◌≡◌, refl, sym, ap, ap₂, subst,
  ◌∙◌, ◌≢◌, ◌↔◌, ◌⊎◌, inl, inr, Bool, true, false, not, ◌&&◌, ◌||◌, Option, none, some, List, [],
  ◌∷◌, ◌++◌, map, arith, dec_lt, ℕ_discrete, ltb, leb, ◌==◌, if◌then◌else◌, ltb→lt, lt→ltb, leb→le,
  ==_iff, Bool-cases, Option-cases, length, get_elem?, set, length-append, length-set, get_or, take,
  drop, replicate, length-take, length-drop, length-replicate, length-map, take-append-drop, All,
  sum, some-eq, if_true, if_false, and_false_left, and_false_right, and_true, both_true,
}
use queens.Prelude.Int.{ℤ, pos, leb_ℤ, ltb_ℤ}
use queens.Prelude.Text.{Text, text_eq, text_lt}
use queens.League.{is_empty}
use queens.Group.{eqb_ℤ}
use queens.GroupTable.{is_none}

pub record Session : Type 0 where
  pub id : Text
  pub player_id : Text
  pub level_id : Text
  pub issued_at : ℤ
  pub expires_at : ℤ
  pub consumed_at : Option ℤ
  pub result_id : Option Text
  pub tier_at_issue : Text
  pub round_index_at_issue : ℤ
  pub group_id : Text
  pub client_version : Text

unfoldable pub get_session : List Session → Text → Option Session
get_session [] id = none
get_session (s ∷ ss) id = if text_eq s.id id then some s else get_session ss id

-- `ORDER BY issued_at DESC, id ASC`
abbrev newer : Session → Session → Bool
newer a b =
    if not (eqb_ℤ a.issued_at b.issued_at) then ltb_ℤ b.issued_at a.issued_at else text_lt a.id b.id

abbrev newer_of : Session → Option Session → Session
newer_of s none = s
newer_of s (some q) = if newer q s then q else s

unfoldable pub is_reusable : Text → Text → ℤ → Session → Bool
is_reusable player level since s =
    (text_eq s.player_id player && text_eq s.level_id level)
    && (is_none s.consumed_at && leb_ℤ since s.issued_at)

unfoldable pub find_reusable : List Session → Text → Text → ℤ → Option Session
find_reusable [] player level since = none
find_reusable (s ∷ ss) player level since =
    let rest = find_reusable ss player level since in
    if is_reusable player level since s then some (newer_of s rest) else rest

abbrev consumed_row : Text → ℤ → Session → Session
consumed_row result now s = record s { consumed_at = some now; result_id = some result }

-- `Consume` as an `UPDATE` of the table.
unfoldable pub consume_row : Text → Text → ℤ → Session → Session
consume_row id result now s =
    if text_eq s.id id && is_none s.consumed_at then consumed_row result now s else s

abbrev pub is_unspent : Option Session → Bool
is_unspent none = false
is_unspent (some s) = is_none s.consumed_at

-- A row is affected; `id` is the primary key.
unfoldable pub is_consumable : List Session → Text → Bool
is_consumable ss id = is_unspent (get_session ss id)

unfoldable pub consume : List Session → Text → Text → ℤ → List Session × Bool
consume ss id result now = (map (consume_row id result now) ss, is_consumable ss id)

abbrev pub spent_with : Option Text → Text → Bool
spent_with none result = false
spent_with (some r) result = text_eq r result

-- The session was spent by this result.
abbrev pub spent_by : Session → Text → Bool
spent_by s result = spent_with s.result_id result

-- The first character put back.
abbrev pub cut_after : ℕ → Option (Text × Text) → Option (Text × Text)
cut_after c none = none
cut_after c (some (a, b)) = some (c ∷ a, b)

-- `strings.Cut` at the first `.`; `none` without one.
unfoldable pub cut_at_dot : Text → Option (Text × Text)
cut_at_dot [] = none
cut_at_dot (c ∷ cs) =
    let rest = cut_at_dot cs in if c == 46 then some ([], cs) else cut_after c rest

module _ (mac : Text → Text → Text) where
  -- `<id>.<mac>` of the pepper and the id.
  unfoldable pub session_token : Text → Text → Text
  session_token pepper id = id ++ (46 ∷ mac pepper id)

  unfoldable pub verify_cut : Text → Text → Option (Text × Text) → Option Text
  verify_cut pepper token none = none
  verify_cut pepper token (some (id, sig)) =
      if is_empty id || is_empty sig
      then none
      else if text_eq token (session_token pepper id)
      then some id
      else none

  -- `VerifySessionToken`: `none` is its error.
  unfoldable pub verify_session_token : Text → Text → Option Text
  verify_session_token pepper token = verify_cut pepper token (cut_at_dot token)
