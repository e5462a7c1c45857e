-- ===== src/Float.antt =====
-- Go's `float64` and the functions of `math` that the program calls, as a parameter: the development
-- computes with no floats of its own. What the theorems need of the operations is stated beside the
-- code that uses them, as a record over this interface, and holds of IEEE 754 doubles.
pub mod Exact
use queens.Prelude.{
  ℕ, zero, suc, ◌+◌, ◌-◌, ◌*◌, ◌/◌, ◌%◌, ◌^◌, ◌≤◌, ◌<◌, min, max, ◌≡◌, refl, sym, ap, ap₂, subst,
  ◌∙◌, ◌≢◌, ◌↔◌, ◌⊎◌, inl, inr, Bool, true, false, not, ◌&&◌, ◌||◌, Option, none, some, List, [],
  ◌∷◌, ◌++◌, map, arith, dec_lt, ℕ_discrete, ltb, leb, ◌==◌, if◌then◌else◌, ltb→lt, lt→ltb, leb→le,
  ==_iff, Bool-cases, Option-cases, length, get_elem?, set, length-append, length-set, get_or, take,
  drop, replicate, length-take, length-drop, length-replicate, length-map, take-append-drop, All,
  sum,
}
use queens.Prelude.Int.{ℤ}

pub record Float64 : Type 1 where
  pub Float : Type 0
  -- `lit m k` is the decimal literal m / 10^k.
  pub lit : ℕ → ℕ → Float
  pub of_int : ℤ → Float
  pub add : Float → Float → Float
  pub sub : Float → Float → Float
  pub mul : Float → Float → Float
  pub div : Float → Float → Float
  -- `math.Pow`
  pub pow : Float → Float → Float
  pub lt : Float → Float → Bool
  pub le : Float → Float → Bool
  -- `int(math.Round(x))`: half away from zero.
  pub round : Float → ℤ
  -- `int(x)`: towards zero.
  pub trunc : Float → ℤ
