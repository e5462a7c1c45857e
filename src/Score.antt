-- ===== src/Score.antt =====
-- server/internal/domain/scoring.go: the score of a single game, over the interface of float
-- operations. The order of the operations is that of the source, since floats do not reassociate.
pub mod Factors
pub mod Exact
use queens.Prelude.{
  ℕ, zero, suc, ◌+◌, ◌-◌, ◌*◌, ◌/◌, ◌%◌, ◌^◌, ◌≤◌, ◌<◌, min, max, ◌≡◌, refl, sym, ap, ap₂, subst,
  ◌∙◌, ◌≢◌, ◌↔◌, ◌⊎◌, inl, inr, Bool, true, false, not, ◌&&◌, ◌||◌, Option, none, some, List, [],
  ◌∷◌, ◌++◌, map, arith, dec_lt, ℕ_discrete, ltb, leb, ◌==◌, if◌then◌else◌, ltb→lt, lt→ltb, leb→le,
  ==_iff, Bool-cases, Option-cases, length, get_elem?, set, length-append, length-set, get_or, take,
  drop, replicate, length-take, length-drop, length-replicate, length-map, take-append-drop, All,
  sum, some-eq,
}
use queens.Prelude.Int.{ℤ, pos, ltb_ℤ}
use queens.League.{is_zero}
use queens.Float.{Float64}

module _ (fl : Float64) where
  unfoldable pub clampf : fl.Float → fl.Float → fl.Float → fl.Float
  clampf v lo hi = if fl.lt v lo then lo else if fl.lt hi v then hi else v

  -- 0.0
  abbrev pub zero_float : fl.Float
  zero_float = fl.lit 0 0

  -- 60 + 10 * size + 200 * (difficulty / 20)^1.6, to the nearest integer.
  unfoldable pub base : fl.Float → ℤ → ℤ
  base difficulty size =
      let d =
        fl.div (if fl.lt difficulty zero_float then zero_float else difficulty) (fl.lit 20 0) in
      fl.round (
        fl.add (fl.add (fl.lit 60 0) (fl.mul (fl.lit 10 0) (fl.of_int size)))
          (fl.mul (fl.lit 200 0) (fl.pow d (fl.lit 16 1))))

  -- 30 + 3 * difficulty + 0.5 * size * size
  unfoldable pub par_seconds : fl.Float → ℤ → fl.Float
  par_seconds difficulty size =
      fl.add (fl.add (fl.lit 30 0) (fl.mul (fl.lit 3 0) difficulty))
        (fl.mul (fl.mul (fl.lit 5 1) (fl.of_int size)) (fl.of_int size))

  -- A negative number counts as 0.
  abbrev pub at_least_zero : ℤ → ℤ
  at_least_zero n = if ltb_ℤ n (pos 0) then pos 0 else n

  -- 1 / (1 + wrong / 2), at least 0.1
  unfoldable pub accuracy_factor : ℤ → fl.Float
  accuracy_factor wrong =
      let v =
        fl.div (fl.lit 1 0)
          (fl.add (fl.lit 1 0) (fl.mul (fl.lit 5 1) (fl.of_int (at_least_zero wrong)))) in
      if fl.lt (fl.lit 1 1) v then v else fl.lit 1 1

  -- log 2 / log 3, as the literal of the source.
  abbrev speed_exponent : fl.Float
  speed_exponent = fl.lit 6309297535714574 16

  -- (par / elapsed)^0.63…, from 0.5 to 2
  unfoldable pub speed_factor : fl.Float → fl.Float → fl.Float
  speed_factor elapsed par =
      if fl.le elapsed zero_float || fl.le par zero_float
      then fl.lit 2 0
      else clampf (fl.pow (fl.div par elapsed) speed_exponent) (fl.lit 5 1) (fl.lit 2 0)

  -- 1 - hints / 5, from 0.1 to 1
  unfoldable pub hint_factor : ℤ → fl.Float
  hint_factor hints =
      clampf (fl.sub (fl.lit 1 0) (fl.mul (fl.lit 2 1) (fl.of_int (at_least_zero hints))))
        (fl.lit 1 1) (fl.lit 1 0)

  pub record ScoreBreakdown : Type 0 where
    pub score : ℤ
    pub base_points : ℤ
    pub par : fl.Float
    pub accuracy : fl.Float
    pub speed : fl.Float
    pub hint : fl.Float
    pub flawless : Bool

  unfoldable pub breakdown : fl.Float → ℤ → fl.Float → fl.Float → ℤ → ℤ → Bool → ScoreBreakdown
  breakdown difficulty size par' elapsed wrong hints completed =
      let par = if fl.le par' zero_float then par_seconds difficulty size else par' in
      let b = base difficulty size in
      let accuracy = accuracy_factor wrong in
      let speed = speed_factor elapsed par in
      let hint = hint_factor hints in
      record {
        score =
            if completed
            then fl.round (fl.mul (fl.mul (fl.mul (fl.of_int b) accuracy) speed) hint)
            else pos 0;
        base_points = b;
        par = par;
        accuracy = accuracy;
        speed = speed;
        hint = hint;
        flawless = completed && (is_zero wrong && is_zero hints);
      }
