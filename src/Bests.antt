-- ===== src/Bests.antt =====
-- The best runs of the boards (store/sqlite/bests.go: `UpsertBest`, `UpsertFlawless`, `MyBest`, `Rank`).
use queens.Prelude.{Bool, ◌&&◌, ◌||◌, Option, none, some, List, [], ◌∷◌, if◌then◌else◌}
use queens.Prelude.Int.{ℤ, ltb_ℤ}
use queens.Prelude.Text.{Text, text_eq, text_lt}
use queens.Float.{Float64}
use queens.Group.{eqb_ℤ}

module _ (fl : Float64) where
  pub record LevelBest : Type 0 where
    pub player_id : Text
    pub level_id : Text
    pub result_id : Text
    pub score : ℤ
    pub wrong_placements : ℤ
    pub time_seconds : fl.Float
    pub achieved_at : ℤ

  pub record FlawlessBest : Type 0 where
    pub player_id : Text
    pub level_id : Text
    pub result_id : Text
    pub score : ℤ
    pub time_seconds : fl.Float
    pub achieved_at : ℤ

  -- `a = b` of two times.
  abbrev same_time : fl.Float → fl.Float → Bool
  same_time a b = fl.le a b && fl.le b a

  -- The condition of `UpsertBest`: `a` stands before `b` on the board.
  unfoldable pub beats : LevelBest → LevelBest → Bool
  beats a b =
      (ltb_ℤ b.score a.score
        || (eqb_ℤ a.score b.score && ltb_ℤ a.wrong_placements b.wrong_placements))
      || ((eqb_ℤ a.score b.score
            && (eqb_ℤ a.wrong_placements b.wrong_placements && fl.lt a.time_seconds b.time_seconds))
          || ((eqb_ℤ a.score b.score && eqb_ℤ a.wrong_placements b.wrong_placements)
              && (same_time a.time_seconds b.time_seconds && ltb_ℤ a.achieved_at b.achieved_at)))

  unfoldable pub same_run : LevelBest → LevelBest → Bool
  same_run a b = text_eq a.player_id b.player_id && text_eq a.level_id b.level_id

  -- `UpsertBest`: the table afterwards.
  unfoldable pub upsert_best : List LevelBest → LevelBest → List LevelBest
  upsert_best [] x = x ∷ []
  upsert_best (r ∷ rs) x =
      let rest = upsert_best rs x in
      if same_run r x then (if beats x r then x else r) ∷ rs else r ∷ rest

  -- The condition of `UpsertFlawless`.
  unfoldable pub beats_flawless : FlawlessBest → FlawlessBest → Bool
  beats_flawless a b =
      fl.lt a.time_seconds b.time_seconds
      || (same_time a.time_seconds b.time_seconds && ltb_ℤ a.achieved_at b.achieved_at)

  abbrev same_flawless : FlawlessBest → FlawlessBest → Bool
  same_flawless a b = text_eq a.player_id b.player_id && text_eq a.level_id b.level_id

  unfoldable pub upsert_flawless : List FlawlessBest → FlawlessBest → List FlawlessBest
  upsert_flawless [] x = x ∷ []
  upsert_flawless (r ∷ rs) x =
      let rest = upsert_flawless rs x in
      if same_flawless r x then (if beats_flawless x r then x else r) ∷ rs else r ∷ rest

  unfoldable pub my_best : List LevelBest → Text → Text → Option LevelBest
  my_best [] player level = none
  my_best (r ∷ rs) player level =
      if text_eq r.player_id player && text_eq r.level_id level
      then some r
      else my_best rs player level

  -- The condition of `Rank`: ties go to the smaller player id.
  unfoldable pub ranks_before : LevelBest → LevelBest → Bool
  ranks_before a b =
      beats a b
      || ((eqb_ℤ a.score b.score && eqb_ℤ a.wrong_placements b.wrong_placements)
          && (same_time a.time_seconds b.time_seconds
              && (eqb_ℤ a.achieved_at b.achieved_at && text_lt a.player_id b.player_id)))
