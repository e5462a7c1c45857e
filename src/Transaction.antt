-- ===== src/Transaction.antt =====
-- Transactions (store/sqlite/db.go: `InTx`, `runTx`; store/store.go: `CommitAndFail`) and the errors that
-- a request ends with (domain/errors.go). The database is a value, so a transaction that is rolled
-- back leaves the value that it began with; nothing else runs between two attempts.
pub mod Ends
use queens.Prelude.{
  ℕ, zero, suc, ◌+◌, ◌-◌, ◌*◌, ◌/◌, ◌%◌, ◌^◌, ◌≤◌, ◌<◌, min, max, ◌≡◌, refl, sym, ap, ap₂, subst,
  ◌∙◌, ◌≢◌, ◌↔◌, ◌⊎◌, inl, inr, Bool, true, false, not, ◌&&◌, ◌||◌, Option, none, some, List, [],
  ◌∷◌, ◌++◌, map, arith, dec_lt, ℕ_discrete, ltb, leb, ◌==◌, if◌then◌else◌, ltb→lt, lt→ltb, leb→le,
  ==_iff, Bool-cases, Option-cases, length, get_elem?, set, length-append, length-set, get_or, take,
  drop, replicate, length-take, length-drop, length-replicate, length-map, take-append-drop, All,
  sum, some-eq, if_true, if_false, and_false_left, and_false_right, and_true, both_true,
}
use queens.Prelude.Fallible.{Fallible, fail, done}
use queens.Prelude.Int.{ℤ}
use queens.Absence.{LeagueError, unknown_tier, unknown_player, retry, not_found, conflict}

-- The codes of domain/errors.go that the modelled services answer with.
pub data Code : Type 0 where
  friend_code_format friend_own_code friend_already friend_unknown : Code
  friend_code_unknown friend_limit : Code
  bad_request level_unknown level_locked : Code
  session_invalid session_expired session_used session_mismatch result_invalid : Code

-- A `CodedError` with its status and its numbers, or an error of the store or of the league.
pub data ApiError : Type 0 where
  coded : ℕ → Code → List ℤ → ApiError
  internal : LeagueError → ApiError

-- What the closure of a transaction returns: a value and the state, an error, or an error with a state
-- that is kept (`CommitAndFail`).
pub data Attempt (S A : Type 0) : Type 0 where
  ok : S → A → Attempt S A
  refused : ApiError → Attempt S A
  kept : S → ApiError → Attempt S A

-- The closure goes on with the value; an error ends it.
abbrev pub try : {S A B : Type 0} → Fallible LeagueError A → (A → Attempt S B) → Attempt S B
try (fail e) rest = refused (internal e)
try (done a) rest = rest a

abbrev pub chain : {S A B : Type 0} → Attempt S A → (S → A → Attempt S B) → Attempt S B
chain (ok s a) rest = rest s a
chain (refused e) rest = refused e
chain (kept s e) rest = kept s e

-- `runTx`: a commit, or the state of the beginning.
unfoldable pub run_tx : {S A : Type 0} → S → Attempt S A → S × Fallible ApiError A
run_tx s (ok s' a) = (s', done a)
run_tx s (refused e) = (s, fail e)
run_tx s (kept s' e) = (s', fail e)

abbrev pub is_retry : ApiError → Bool
is_retry (coded status code params) = false
is_retry (internal (unknown_tier id)) = false
is_retry (internal (unknown_player id)) = false
is_retry (internal retry) = true
is_retry (internal not_found) = false
is_retry (internal conflict) = false

unfoldable pub retried :
    {S A : Type 0} → S × Fallible ApiError A → S × Fallible ApiError A → S × Fallible ApiError A
retried (s, done a) again = (s, done a)
retried (s, fail e) again = if is_retry e then again else (s, fail e)

-- The loop of `InTx`, with the attempts that are left; the last error is returned.
unfoldable pub in_tx_from : {S A : Type 0} → ℕ → S → (S → Attempt S A) → S × Fallible ApiError A
in_tx_from zero s body = run_tx s (body s)
in_tx_from (suc left) s body = retried (run_tx s (body s)) (in_tx_from left s body)

-- Three attempts.
unfoldable pub in_tx : {S A : Type 0} → S → (S → Attempt S A) → S × Fallible ApiError A
in_tx s body = in_tx_from 2 s body
