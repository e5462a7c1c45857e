-- ===== src/Bots.antt =====
-- server/internal/domain/league.go: the bots that top up a group. `Park-Miller` steps decide when a
-- bot plays and what it scores; `BotProgress` is what it has played by an instant. The numbers that
-- the code derives with `%` are natural, as ℕ; instants, seeds and the configured numbers are ℤ.
pub mod Stream
pub mod Progress
pub mod Fill
use queens.Prelude.{
  ℕ, zero, suc, ◌+◌, ◌-◌, ◌*◌, ◌/◌, ◌%◌, ◌^◌, ◌≤◌, ◌<◌, min, max, ◌≡◌, refl, sym, ap, ap₂, subst,
  ◌∙◌, ◌≢◌, ◌↔◌, ◌⊎◌, inl, inr, Bool, true, false, not, ◌&&◌, ◌||◌, Option, none, some, List, [],
  ◌∷◌, ◌++◌, map, arith, dec_lt, ℕ_discrete, ltb, leb, ◌==◌, if◌then◌else◌, ltb→lt, lt→ltb, leb→le,
  ==_iff, Bool-cases, Option-cases, length, get_elem?, set, length-append, length-set, get_or, take,
  drop, replicate, length-take, length-drop, length-replicate, length-map, take-append-drop, All,
  sum, some-eq,
}
use queens.Prelude.Int.{ℤ, pos, negsuc, pos_part, neg_part, is_neg, ltb_ℤ, leb_ℤ, ◌≤ℤ◌, ◌+ℤ◌, ◌-ℤ◌}
use queens.Prelude.Text.{Text, bytes}
use queens.League.{Bots, Tier, LeagueConfig}
use queens.Round.{rem}
use queens.Scores.{round_score}

-- `n > 0 ? n : 0` for the bots that a group of `humans` lacks to `fill_to`.
unfoldable pub bot_count : Tier → ℤ → ℤ
bot_count t humans = elim t.bots [
  | none ↦ pos 0
  | some b ↦ let n = b.fill_to -ℤ humans in if ltb_ℤ (pos 0) n then n else pos 0
]

abbrev pub pm_mod : ℕ
pm_mod = 2147483647

abbrev pm_mul : ℕ
pm_mul = 48271

-- One Park-Miller step.
unfoldable pub pm : ℕ → ℕ
pm x = x * pm_mul % pm_mod

-- `b` is positive, so the result is a natural number.
unfoldable pub posmod : ℤ → ℕ → ℕ
posmod a b = let m = rem a (pos b) in pos_part (if ltb_ℤ m (pos 0) then m +ℤ pos b else m)

unfoldable pub bot_seed : ℤ → ℕ → ℕ
bot_seed group_seed slot = posmod group_seed pm_mod * 131 + slot * 7919

-- `Player <n>` without names in the config: `itoa` prints a decimal number.
unfoldable pub bot_nickname : (ℕ → Text) → LeagueConfig → ℤ → ℕ → Text
bot_nickname itoa cfg group_seed slot = elim cfg.bot_names [
  | [] ↦ bytes "Player " ++ itoa (slot + 1)
  | n ∷ ns ↦ get_or (n ∷ ns) (posmod (group_seed +ℤ pos slot) (length (n ∷ ns))) []
]

pub record BotState : Type 0 where
  pub round_score : ℕ
  pub games : ℕ
  pub last_submit_at : ℤ

-- The numbers that `BotProgress` draws before its loop.
pub record BotPlan : Type 0 where
  pub x : ℕ
  pub game_score : ℕ
  skill : ℕ
  pub start_pct : ℕ
  pub total : ℕ
  pub starts_at : ℤ
  pub duration : ℕ

-- At least 1; 15 without bots in the tier.
unfoldable pub games_max_of : Tier → ℕ
games_max_of t =
    let n : ℤ = elim t.bots [ none ↦ pos 15 | some b ↦ b.games_max ] in
    if ltb_ℤ n (pos 1) then 1 else pos_part n

-- At least 0; 400 without bots in the tier.
unfoldable pub game_score_of : Tier → ℕ
game_score_of t =
    let n : ℤ = elim t.bots [ none ↦ pos 400 | some b ↦ b.game_score ] in
    if ltb_ℤ n (pos 0) then 0 else pos_part n

-- Two warm-up steps, then one step for each of activity, skill and the start.
unfoldable pub plan : Tier → ℤ → ℤ → ℤ → BotPlan
plan t bot round_start round_end =
    let x1 = pm (pm (pm (posmod bot (pm_mod - 1) + 1))) in
    let x2 = pm x1 in
    let x3 = pm x2 in
    let activity = x1 % 100 in
    let span = round_end -ℤ round_start in
    record {
      x = x3;
      game_score = game_score_of t;
      skill = 60 + x2 % 81;
      start_pct = x3 % 40;
      total = 1 + activity * activity * (games_max_of t - 1) / 9801;
      starts_at = round_start;
      duration = if ltb_ℤ span (pos 0) then 0 else pos_part span;
    }

-- The instant of game `k`.
unfoldable pub plays_at : BotPlan → ℕ → ℤ
plays_at p k =
    p.starts_at
    +ℤ pos (p.duration * (p.start_pct * p.total + (100 - p.start_pct) * k) / (100 * p.total))

unfoldable pub game_points : BotPlan → ℕ → ℕ
game_points p x = p.game_score * p.skill * (85 + x % 31) / 10000

-- The loop from game `k` on, with `left` games to `total`: the scores and the last instant. It stops
-- at the first game that lies after `now`.
unfoldable pub bot_games : BotPlan → ℤ → ℕ → ℕ → ℕ → ℤ → List ℕ × ℤ
bot_games p now zero k x last = ([], last)
bot_games p now (suc left) k x last =
    let x' = pm x in
    let at = plays_at p k in
    let (scores, end) = bot_games p now left (suc k) x' at in
    if ltb_ℤ now at then ([], last) else (game_points p x' ∷ scores, end)

unfoldable pub bot_progress : Tier → LeagueConfig → ℤ → ℤ → ℤ → ℤ → BotState
bot_progress t cfg bot round_start round_end now =
    let p = plan t bot round_start round_end in
    let (scores, last) = bot_games p now p.total 0 p.x (pos 0) in
    record { round_score = round_score scores cfg; games = length scores; last_submit_at = last }
