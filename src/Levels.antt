-- ===== src/Levels.antt =====
-- The levels and a player's state on them: domain/types.go (`Par`, `BasePoints`, `CooldownRemaining`,
-- `ElapsedFloor`) and store/sqlite/levels.go (`GetPlayerLevel`, `RecordStart`, `ApplyResult`,
-- `EligibleLevelIDs`). Of a level the columns that the scoring reads.
use queens.Prelude.{
  ℕ, suc, ◌+◌, Bool, true, not, ◌&&◌, ◌||◌, Option, none, some, List, [], ◌∷◌, map, if◌then◌else◌,
}
use queens.Prelude.Int.{ℤ, pos, leb_ℤ, ltb_ℤ, ◌-ℤ◌, ◌+ℤ◌, max_ℤ}
use queens.Prelude.Text.{Text, text_eq}
use queens.Float.{Float64}
use queens.League.{is_empty}
use queens.Group.{eqb_ℤ}
use queens.Score.{base, par_seconds}

-- Clamped from 0 to the cooldown.
unfoldable pub cooldown_remaining : ℤ → ℤ → ℤ → ℤ
cooldown_remaining last_started_at now cooldown =
    let r = cooldown -ℤ (now -ℤ last_started_at) in
    if leb_ℤ last_started_at (pos 0)
    then pos 0
    else if ltb_ℤ r (pos 0)
    then pos 0
    else if ltb_ℤ cooldown r
    then cooldown
    else r

module _ (fl : Float64) where
  pub record Level : Type 0 where
    pub id : Text
    pub size : ℤ
    pub difficulty : ℤ
    pub stars : ℤ
    pub par_override : Option fl.Float

  unfoldable pub par : Level → fl.Float
  par lv = elim lv.par_override [
    | none ↦ par_seconds fl (fl.of_int lv.difficulty) lv.size
    | some p ↦ if fl.lt (fl.lit 0 0) p then p else par_seconds fl (fl.of_int lv.difficulty) lv.size
  ]

  unfoldable pub base_points : Level → ℤ
  base_points lv = base fl (fl.of_int lv.difficulty) lv.size

  -- 1.5 + 0.45 * size + 0.010 * size * size
  unfoldable pub elapsed_floor : ℤ → fl.Float
  elapsed_floor size =
      let s = fl.of_int size in
      fl.add (fl.add (fl.lit 15 1) (fl.mul (fl.lit 45 2) s)) (fl.mul (fl.mul (fl.lit 10 3) s) s)

  pub record PlayerLevel : Type 0 where
    pub player_id : Text
    pub level_id : Text
    pub last_started_at : ℤ
    pub plays : ℕ
    pub completions : ℕ
    pub last_completed_at : ℤ
    pub best_time : fl.Float
    pub best_score : ℤ
    pub best_score_time : fl.Float
    pub best_wrong : ℤ
    pub best_result_id : Text
    pub best_at : ℤ

  pub record PlayerLevelResult : Type 0 where
    pub result_id : Text
    pub started_at : ℤ
    pub count_play : Bool
    pub completed : Bool
    pub finished_at : ℤ
    pub elapsed : fl.Float
    pub score : ℤ
    pub wrong : ℤ

  unfoldable pub is_player_level : Text → Text → PlayerLevel → Bool
  is_player_level player level r = text_eq r.player_id player && text_eq r.level_id level

  unfoldable pub get_player_level : List PlayerLevel → Text → Text → Option PlayerLevel
  get_player_level [] player level = none
  get_player_level (r ∷ rs) player level =
      if is_player_level player level r then some r else get_player_level rs player level

  -- A row with the defaults of the table.
  abbrev pub fresh_level : Text → Text → ℤ → ℕ → PlayerLevel
  fresh_level player level started plays = record {
    player_id = player;
    level_id = level;
    last_started_at = started;
    plays = plays;
    completions = 0;
    last_completed_at = pos 0;
    best_time = fl.lit 0 0;
    best_score = pos 0;
    best_score_time = fl.lit 0 0;
    best_wrong = pos 0;
    best_result_id = [];
    best_at = pos 0;
  }

  -- `INSERT … ON CONFLICT DO UPDATE`: `f` on the row of the player and the level, which is made if
  -- there is none.
  unfoldable pub upsert_level :
      (PlayerLevel → PlayerLevel) → PlayerLevel → List PlayerLevel → List PlayerLevel
  upsert_level f new [] = new ∷ []
  upsert_level f new (r ∷ rs) =
      let rest = upsert_level f new rs in
      if is_player_level new.player_id new.level_id r then f r ∷ rs else r ∷ rest

  unfoldable pub record_start : List PlayerLevel → Text → Text → ℤ → List PlayerLevel
  record_start rs player level now =
      upsert_level (λ r. record r { last_started_at = now; plays = suc r.plays })
        (fresh_level player level now 1) rs

  -- The first statement of `ApplyResult`.
  abbrev pub count_play : PlayerLevelResult → PlayerLevel → PlayerLevel
  count_play x r = record r {
    plays = r.plays + (if x.count_play then 1 else 0);
    last_started_at = max_ℤ r.last_started_at (if x.count_play then x.started_at else pos 0);
  }

  -- The second one.
  abbrev count_completion : PlayerLevelResult → PlayerLevel → PlayerLevel
  count_completion x r = record r {
    completions = suc r.completions;
    last_completed_at = max_ℤ r.last_completed_at x.finished_at;
    best_time =
        if fl.le r.best_time (fl.lit 0 0) || fl.lt x.elapsed r.best_time
        then x.elapsed
        else r.best_time;
  }

  -- The condition of the third one: no best run yet, or a strictly better run.
  unfoldable pub beats_best : PlayerLevelResult → PlayerLevel → Bool
  beats_best x r =
      (is_empty r.best_result_id || ltb_ℤ r.best_score x.score)
      || ((eqb_ℤ x.score r.best_score && ltb_ℤ x.wrong r.best_wrong)
          || (eqb_ℤ x.score r.best_score
              && (eqb_ℤ x.wrong r.best_wrong && fl.lt x.elapsed r.best_score_time)))

  abbrev keep_best : PlayerLevelResult → PlayerLevel → PlayerLevel
  keep_best x r =
      if beats_best x r
      then record r {
        best_score = x.score;
        best_wrong = x.wrong;
        best_score_time = x.elapsed;
        best_result_id = x.result_id;
        best_at = x.finished_at;
      }
      else r

  abbrev on_level : Text → Text → (PlayerLevel → PlayerLevel) → PlayerLevel → PlayerLevel
  on_level player level f r = if is_player_level player level r then f r else r

  unfoldable pub apply_result :
      List PlayerLevel → Text → Text → PlayerLevelResult → List PlayerLevel
  apply_result rs player level x =
      let started = if x.count_play then x.started_at else pos 0 in
      let counted =
        upsert_level (count_play x)
          (fresh_level player level started (if x.count_play then 1 else 0)) rs in
      if not x.completed
      then counted
      else map (on_level player level (λ r. keep_best x (count_completion x r))) counted

  -- The condition of `EligibleLevelIDs`.
  abbrev is_eligible : ℤ → ℤ → ℤ → Option PlayerLevel → Bool
  is_eligible round_start round_end cooldown none = true
  is_eligible round_start round_end cooldown (some r) =
      ltb_ℤ (r.last_started_at +ℤ cooldown) round_end || leb_ℤ round_start r.last_started_at

  -- The levels that `EligibleLevelIDs` lists.
  unfoldable pub eligible_levels : List Level → List PlayerLevel → Text → ℤ → ℤ → ℤ → List Level
  eligible_levels [] rs player round_start round_end cooldown = []
  eligible_levels (lv ∷ lvs) rs player round_start round_end cooldown =
      let rest = eligible_levels lvs rs player round_start round_end cooldown in
      if is_eligible round_start round_end cooldown (get_player_level rs player lv.id)
      then lv ∷ rest
      else rest

  unfoldable pub get_level : List Level → Text → Option Level
  get_level [] id = none
  get_level (lv ∷ lvs) id = if text_eq lv.id id then some lv else get_level lvs id
