-- ===== src/Prelude/Fallible.antt =====
-- Go's `(T, error)`: a value, or an error and no value. `do` blocks return at the first error, as the
-- source does with `if err != nil`.
use mathlib.Core.Path.{◌≡◌, refl}
use mathlib.Core.Bool.{Bool, true, false}
use queens.Prelude.Tests.{if◌then◌else◌}

pub data Fallible (E A : Type 0) : Type 0 where
  fail : E → Fallible E A
  done : A → Fallible E A

infixl 5 ◌>>=◌ ◌>>◌
-- The rest runs on the value.
abbrev pub ◌>>=◌ : {E A B : Type 0} → Fallible E A → (A → Fallible E B) → Fallible E B
fail e >>= rest = fail e
done a >>= rest = rest a

abbrev pub ◌>>◌ : {E A B : Type 0} → Fallible E A → Fallible E B → Fallible E B
fail e >> rest = fail e
done a >> rest = rest

-- A return with the error unless the test holds.
abbrev pub check : {E : Type 0} → Bool → E → Fallible E (Unit {0})
check b e = if b then done tt else fail e

pub check-bind :
    {E B : Type 0} (b : Bool) (e : E) (rest : Fallible E B) {x : B}
    → (check b e >> rest) ≡ done x
    → (b ≡ true) × (rest ≡ done x)
check-bind true e rest h = (refl, h)
check-bind false e rest h = cc

pub >>=-done :
    {E A B : Type 0} (m : Fallible E A) (f : A → Fallible E B) {b : B}
    → (m >>= f) ≡ done b
    → (a : A) × (m ≡ done a) × (f a ≡ done b)
>>=-done (done a) f h = (a, refl, h)
>>=-done (fail e) f h = cc

pub >>-done :
    {E A B : Type 0} (m : Fallible E A) (rest : Fallible E B) {b : B}
    → (m >> rest) ≡ done b
    → (a : A) × (m ≡ done a) × (rest ≡ done b)
>>-done (done a) rest h = (a, refl, h)
>>-done (fail e) rest h = cc

pub done-injective : {E A : Type 0} {a b : A} → ◌≡◌ {A = Fallible E A} (done a) (done b) → a ≡ b
done-injective h = cc

-- A return with the error when the test holds.
pub reject-done :
    {E A : Type 0} (b : Bool) (e : E) (rest : Fallible E A) {x : A}
    → (if b then fail e else rest) ≡ done x
    → (b ≡ false) × (rest ≡ done x)
reject-done true e rest h = cc
reject-done false e rest h = (refl, h)
