-- ===== src/Bots/Progress.antt =====
-- What a bot has played grows with time, stays in its round and in the configured number of games.
use queens.Prelude.{
  ℕ, zero, suc, ◌+◌, ◌-◌, ◌*◌, ◌/◌, ◌%◌, ◌≤◌, ◌<◌, ◌≡◌, refl, ap, subst, inl, inr, false, List, [],
  ◌∷◌, ◌++◌, arith, if◌then◌else◌, Bool-cases, length, length-append,
}
use native.Mathlib.Nat.{
  mul-le-mul, mul-le-mul_right, mul-le-mul_left, mul-lt-mul_of_pos_left, div-add-mod,
  le-div_iff_mul-le, div-lt_iff_lt-mul,
}
use queens.Prelude.Int.{ℤ, pos, negsuc, pos_part, ltb_ℤ, ◌≤ℤ◌, ◌<ℤ◌, ◌+ℤ◌, ◌-ℤ◌, int_laws}
use queens.League.{Tier, LeagueConfig}
use queens.Scores.Best.{round_score-append}
use queens.Bots.{
  BotPlan, plan, plays_at, game_points, bot_games, bot_progress, pm, posmod, games_max_of,
}

-- The score of a later instant starts with the scores of an earlier one.
bot_games-extends :
    (p : BotPlan) (now later : ℤ) (left k x : ℕ) (last : ℤ)
    → now ≤ℤ later
    → (more : List ℕ) × ((bot_games p later left k x last).0
        ≡ (bot_games p now left k x last).0 ++ more)
unfolding bot_games
bot_games-extends p now later zero k x last h = ([], refl)
bot_games-extends p now later (suc left) k x last h = elim (Bool-cases (ltb_ℤ now (plays_at p k))) [
  | inl e ↦ rw e (_, refl)
  | inr e ↦
      let late : ltb_ℤ later (plays_at p k) ≡ false = ground arith in
      let (more, same) = bot_games-extends p now later left (suc k) (pm x) (plays_at p k) h in
      rw (e, late) (more, ap (λ l. game_points p (pm x) ∷ l) same)
]

bot_games-length :
    (p : BotPlan) (now : ℤ) (left k x : ℕ) (last : ℤ)
    → length (bot_games p now left k x last).0 ≤ left
unfolding bot_games
bot_games-length p now zero k x last = omega arith
bot_games-length p now (suc left) k x last =
    ground (arith, bot_games-length p now left (suc k) (pm x) (plays_at p k))

-- What holds of the instant so far and of every game that is played holds of the last instant.
bot_games-last :
    (P : ℤ → Type 0) (p : BotPlan) (now : ℤ) (left k x : ℕ) (last : ℤ)
    → ((j : ℕ) → k ≤ j → j < k + left → plays_at p j ≤ℤ now → P (plays_at p j))
    → P last
    → P (bot_games p now left k x last).1
unfolding bot_games
bot_games-last P p now zero k x last each h = h
bot_games-last P p now (suc left) k x last each h = elim (Bool-cases (ltb_ℤ now (plays_at p k))) [
  | inl e ↦ rw e h
  | inr e ↦ rw e (
      bot_games-last P p now left (suc k) (pm x) (plays_at p k)
        (λ j a b. each j (omega arith) (omega arith))
        (each k (omega arith) (omega arith) (ground arith)))
]

-- With a game played, the instant before the loop does not matter.
bot_games-last_played :
    (P : ℤ → Type 0) (p : BotPlan) (now : ℤ) (left k x : ℕ) (last : ℤ)
    → ((j : ℕ) → k ≤ j → j < k + left → plays_at p j ≤ℤ now → P (plays_at p j))
    → 0 < length (bot_games p now left k x last).0
    → P (bot_games p now left k x last).1
unfolding bot_games
bot_games-last_played P p now zero k x last each = λ h. absurd (omega arith)
bot_games-last_played P p now (suc left) k x last each =
    elim (Bool-cases (ltb_ℤ now (plays_at p k))) [
      | inl e ↦ rw e λ h. absurd (omega arith)
      | inr e ↦ rw e λ h.
          bot_games-last P p now left (suc k) (pm x) (plays_at p k)
            (λ j a b. each j (omega arith) (omega arith))
            (each k (omega arith) (omega arith) (ground arith))
    ]

div_mono : (a b c : ℕ) → 0 < c → a ≤ b → a / c ≤ b / c
div_mono a b c nonzero h = (le-div_iff_mul-le nonzero).1 (omega (arith, div-add-mod a c))

offset_mono : (d a b c : ℕ) → 0 < c → a ≤ b → d * a / c ≤ d * b / c
offset_mono d a b c h k = div_mono (d * a) (d * b) c h (mul-le-mul_left d k)

plays_at_mono : (p : BotPlan) (j k : ℕ) → 0 < p.total → j ≤ k → plays_at p j ≤ℤ plays_at p k
unfolding plays_at
plays_at_mono p j k some_games h =
    let o =
      offset_mono p.duration (p.start_pct * p.total + (100 - p.start_pct) * j)
        (p.start_pct * p.total + (100 - p.start_pct) * k) (100 * p.total)
        (omega (arith, some_games)) (omega (arith, mul-le-mul_right (100 - p.start_pct) h)) in
    omega int_laws

-- A later instant has no earlier last game.
bot_games-last_mono :
    (p : BotPlan) (now later : ℤ) (left k x : ℕ) (last : ℤ)
    → now ≤ℤ later
    → 0 < p.total
    → last ≤ℤ plays_at p k
    → (bot_games p now left k x last).1 ≤ℤ (bot_games p later left k x last).1
unfolding bot_games
bot_games-last_mono p now later zero k x last h t b = omega arith
bot_games-last_mono p now later (suc left) k x last h t b =
    elim (Bool-cases (ltb_ℤ now (plays_at p k))) [
      | inl e ↦ rw e (
          bot_games-last (λ z. last ≤ℤ z) p later (suc left) k x last
            (λ j a l m. omega (arith, plays_at_mono p k j t a)) (omega arith))
      | inr e ↦
          let late : ltb_ℤ later (plays_at p k) ≡ false = ground arith in
          rw (e, late)
            (bot_games-last_mono p now later left (suc k) (pm x) (plays_at p k) h t
              (plays_at_mono p k (suc k) t (omega arith)))
    ]

square-le : (a : ℕ) → a < 100 → a * a ≤ 9801
square-le a h =
    let b : a ≤ 99 = omega (arith, h) in mul-le-mul {n₁ = a} {m₁ = a} {n₂ = 99} {m₂ = 99} b b

scaled-le : (q g : ℕ) → q ≤ 9801 → q * g / 9801 ≤ g
scaled-le q g h = omega (arith, mul-le-mul_right g h)

games_max_of-pos : (t : Tier) → 0 < games_max_of t
unfolding games_max_of
games_max_of-pos t = ground arith

-- The plan has a game, and at most `games_max`.
total_games :
    (t : Tier) (bot start end : ℤ)
    → (0 < (plan t bot start end).total) × ((plan t bot start end).total ≤ games_max_of t)
unfolding plan
total_games t bot start end =
    let a = pm (pm (pm (posmod bot 2147483646 + 1))) % 100 in
    let fits = scaled-le (a * a) (games_max_of t - 1) (square-le a (omega arith)) in
    (omega (arith, fits), omega (arith, fits, games_max_of-pos t))

offset-lt : (d a c : ℕ) → a < c → 0 < d → d * a / c < d
offset-lt d a c h k = (div-lt_iff_lt-mul (omega arith)).1 (mul-lt-mul_of_pos_left h k)

share_lt : (s t k : ℕ) → s < 40 → k < t → s * t + (100 - s) * k < 100 * t
share_lt s t k h l =
    let u = 100 - s in
    let whole : s + u ≡ 100 = omega arith in
    omega
      (arith, mul-lt-mul_of_pos_left {m = k} {n = t} {k = u} l (omega arith), ap (λ w. w * t) whole)

-- A game of the plan lies in the plan's time.
plays_at-within :
    (p : BotPlan) (k : ℕ)
    → p.start_pct < 40
    → k < p.total
    → 0 < p.duration
    → (p.starts_at ≤ℤ plays_at p k) × (plays_at p k <ℤ p.starts_at +ℤ pos p.duration)
unfolding plays_at
plays_at-within p k s h d =
    let o =
      offset-lt p.duration (p.start_pct * p.total + (100 - p.start_pct) * k) (100 * p.total)
        (share_lt p.start_pct p.total k s h) d in
    (omega int_laws, omega int_laws)

-- A span as its length.
span_end :
    (start end : ℤ)
    → start <ℤ end
    → let span = end -ℤ start in
      let d = if ltb_ℤ span (pos 0) then 0 else pos_part span in (start +ℤ pos d ≡ end) × (0 < d)
unfolding ◌+ℤ◌ ◌-ℤ◌
span_end (pos a) (pos b) h = (ground arith, ground arith)
span_end (pos a) (negsuc b) h = absurd (omega arith)
span_end (negsuc a) (pos b) h = (ground arith, ground arith)
span_end (negsuc a) (negsuc b) h = (ground arith, ground arith)

-- A game of the plan lies in the round.
game_in_round :
    (t : Tier) (bot start end : ℤ) (k : ℕ)
    → start <ℤ end
    → k < (plan t bot start end).total
    → (start ≤ℤ plays_at (plan t bot start end) k) × (plays_at (plan t bot start end) k <ℤ end)
unfolding plan
game_in_round t bot start end k h l =
    let (is_end, some_time) = span_end start end h in
    let (lo, hi) = plays_at-within (plan t bot start end) k (omega arith) l some_time in
    (lo, subst (λ e. plays_at (plan t bot start end) k <ℤ e) is_end hi)

plays_at-from : (p : BotPlan) (k : ℕ) → p.starts_at ≤ℤ plays_at p k
unfolding plays_at
plays_at-from p k = omega int_laws

-- A bot's row stays inside its round: once it has a game, the last one lies in the round and not after
-- the instant that is asked for.
pub bot_progress_in_round :
    (t : Tier) (cfg : LeagueConfig) (bot start end now : ℤ)
    → start <ℤ end
    → 0 < (bot_progress t cfg bot start end now).games
    → (start ≤ℤ (bot_progress t cfg bot start end now).last_submit_at)
      × ((bot_progress t cfg bot start end now).last_submit_at <ℤ end)
      × ((bot_progress t cfg bot start end now).last_submit_at ≤ℤ now)
unfolding bot_progress
bot_progress_in_round t cfg bot start end now h played =
    let p = plan t bot start end in
    bot_games-last_played (λ z. (start ≤ℤ z) × (z <ℤ end) × (z ≤ℤ now)) p now p.total 0 p.x (pos 0)
      (λ j a l m.
        let (lo, hi) = game_in_round t bot start end j h (omega (arith, l)) in (lo, hi, m))
      played

-- A bot has played at most the `games_max` of its tier, whatever the instant.
pub bot_progress_games :
    (t : Tier) (cfg : LeagueConfig) (bot start end now : ℤ)
    → (bot_progress t cfg bot start end now).games ≤ games_max_of t
unfolding bot_progress
bot_progress_games t cfg bot start end now =
    let p = plan t bot start end in
    omega (arith, bot_games-length p now p.total 0 p.x (pos 0), total_games t bot start end)

first_game :
    (t : Tier) (bot start end : ℤ) → pos 0 ≤ℤ start → pos 0 ≤ℤ plays_at (plan t bot start end) 0
unfolding plan
first_game t bot start end s = omega (arith, plays_at-from (plan t bot start end) 0)

-- A bot's row never goes back: at a later instant its games, its score and its last game are at least
-- those of an earlier one, for a round that does not start before 1970.
pub bot_progress_mono :
    (t : Tier) (cfg : LeagueConfig) (bot start end now later : ℤ)
    → pos 0 ≤ℤ start
    → now ≤ℤ later
    → let earlier_row = bot_progress t cfg bot start end now in
      let later_row = bot_progress t cfg bot start end later in
      (earlier_row.games ≤ later_row.games)
      × (earlier_row.round_score ≤ later_row.round_score)
      × (earlier_row.last_submit_at ≤ℤ later_row.last_submit_at)
unfolding bot_progress
bot_progress_mono t cfg bot start end now later s h =
    let p = plan t bot start end in
    let (more, same) = bot_games-extends p now later p.total 0 p.x (pos 0) h in
    (
      rw same (omega (arith, length-append (bot_games p now p.total 0 p.x (pos 0)).0 more)),
      rw same (round_score-append cfg (bot_games p now p.total 0 p.x (pos 0)).0 more),
      bot_games-last_mono p now later p.total 0 p.x (pos 0) h (total_games t bot start end).0
          (first_game t bot start end s),
    )
