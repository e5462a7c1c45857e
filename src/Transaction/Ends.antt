-- ===== src/Transaction/Ends.antt =====
-- How a transaction that returns a value went.
use queens.Prelude.{
  ℕ, zero, suc, ◌≡◌, refl, sym, ◌∙◌, ◌⊎◌, inl, inr, Bool-cases, if_true, if_false, subst, ap, Bool,
  true, false, if◌then◌else◌,
}
use queens.Prelude.Fallible.{Fallible, fail, done}
use queens.Absence.{LeagueError}
use queens.Transaction.{
  Attempt, ok, refused, kept, try, chain, run_tx, retried, in_tx_from, in_tx, is_retry, ApiError,
}

pub ok-injective :
    {S A : Type 0} {s s' : S} {a a' : A}
    → ◌≡◌ {A = Attempt S A} (ok s a) (ok s' a')
    → (s ≡ s') × (a ≡ a')
ok-injective h = (cc, cc)

pub try-ok :
    {S A B : Type 0} (m : Fallible LeagueError A) (rest : A → Attempt S B) {s : S} {b : B}
    → try m rest ≡ ok s b
    → (a : A) × (m ≡ done a) × (rest a ≡ ok s b)
try-ok (done a) rest h = (a, refl, h)
try-ok (fail e) rest h = cc

pub chain-ok :
    {S A B : Type 0} (m : Attempt S A) (rest : S → A → Attempt S B) {s : S} {b : B}
    → chain m rest ≡ ok s b
    → (v : S) × (a : A) × (m ≡ ok v a) × (rest v a ≡ ok s b)
chain-ok (ok v a) rest h = (v, a, refl, h)
chain-ok (refused e) rest h = cc
chain-ok (kept v e) rest h = cc

run_tx-done :
    {S A : Type 0} (s : S) (m : Attempt S A) {s' : S} {a : A}
    → run_tx s m ≡ (s', done a)
    → m ≡ ok s' a
unfolding run_tx
run_tx-done s (ok v b) h = cc
run_tx-done s (refused e) h = cc
run_tx-done s (kept v e) h = cc

-- The first of two attempts that returns a value.
retried-done :
    {S A : Type 0} (first again : S × Fallible ApiError A) {s : S} {a : A}
    → retried first again ≡ (s, done a)
    → (first ≡ (s, done a)) ⊎ (again ≡ (s, done a))
unfolding retried
retried-done (v, done b) again h = inl h
retried-done (v, fail e) again h = elim (Bool-cases (is_retry e)) [
  | inl y ↦ inr (sym (if_true _ y) ∙ h)
  | inr n ↦ absurd (cc (sym (if_false _ n) ∙ h))
]

in_tx_from-done :
    {S A : Type 0} (left : ℕ) (s : S) (body : S → Attempt S A) {s' : S} {a : A}
    → in_tx_from left s body ≡ (s', done a)
    → body s ≡ ok s' a
unfolding in_tx_from
in_tx_from-done zero s body h = run_tx-done s (body s) h
in_tx_from-done (suc left) s body h =
    elim (retried-done (run_tx s (body s)) (in_tx_from left s body) h) [
      | inl first ↦ run_tx-done s (body s) first
      | inr again ↦ in_tx_from-done left s body again
    ]

-- A transaction that returns a value has run on the state of the beginning and is committed.
pub in_tx-done :
    {S A : Type 0} (s : S) (body : S → Attempt S A) {s' : S} {a : A}
    → in_tx s body ≡ (s', done a)
    → body s ≡ ok s' a
unfolding in_tx
in_tx-done s body h = in_tx_from-done 2 s body h

-- The state that an attempt leaves, if it leaves one, has the property.
abbrev pub Leaves : {S A : Type 0} → (S → Type 0) → Attempt S A → Type 0
Leaves I (ok s a) = I s
Leaves I (refused e) = Unit {0}
Leaves I (kept s e) = I s

pub if-Leaves :
    {S A : Type 0} (I : S → Type 0) (b : Bool) (m n : Attempt S A)
    → (b ≡ true → Leaves I m)
    → (b ≡ false → Leaves I n)
    → Leaves I (if b then m else n)
if-Leaves I true m n h k = h refl
if-Leaves I false m n h k = k refl

run_tx-Leaves :
    {S A : Type 0} (I : S → Type 0) (s : S) (m : Attempt S A) → I s → Leaves I m → I (run_tx s m).0
unfolding run_tx
run_tx-Leaves I s (ok v a) h k = k
run_tx-Leaves I s (refused e) h k = h
run_tx-Leaves I s (kept v e) h k = k

retried-Leaves :
    {S A : Type 0} (I : S → Type 0) (first again : S × Fallible ApiError A)
    → I first.0
    → I again.0
    → I (retried first again).0
unfolding retried
retried-Leaves I (v, done b) again h k = h
retried-Leaves {S = S} {A = A} I (v, fail e) again h k = elim (Bool-cases (is_retry e)) [
  | inl y ↦ subst (λ (x : S × Fallible ApiError A). I x.0) (sym (if_true _ y)) k
  | inr n ↦ subst (λ (x : S × Fallible ApiError A). I x.0) (sym (if_false _ n)) h
]

in_tx_from-Leaves :
    {S A : Type 0} (left : ℕ) (I : S → Type 0) (s : S) (body : S → Attempt S A)
    → I s
    → Leaves I (body s)
    → I (in_tx_from left s body).0
unfolding in_tx_from
in_tx_from-Leaves zero I s body h k = run_tx-Leaves I s (body s) h k
in_tx_from-Leaves (suc left) I s body h k =
    retried-Leaves I (run_tx s (body s)) (in_tx_from left s body) (run_tx-Leaves I s (body s) h k)
      (in_tx_from-Leaves left I s body h k)

-- A transaction keeps what every state that its closure leaves has.
pub in_tx-Leaves :
    {S A : Type 0} (I : S → Type 0) (s : S) (body : S → Attempt S A)
    → I s
    → Leaves I (body s)
    → I (in_tx s body).0
unfolding in_tx
in_tx-Leaves I s body h k = in_tx_from-Leaves 2 I s body h k

pub in_tx-ok :
    {S A : Type 0} (s : S) (body : S → Attempt S A) {s' : S} {a : A}
    → body s ≡ ok s' a
    → in_tx s body ≡ (s', done a)
unfolding in_tx in_tx_from run_tx retried
in_tx-ok s body h = ap (λ m. retried (run_tx s m) (in_tx_from 1 s body)) h
