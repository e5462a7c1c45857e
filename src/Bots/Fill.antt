-- ===== src/Bots/Fill.antt =====
-- `BotCount` tops a group up, and names and seeds stay in range.
use queens.Prelude.{
  ℕ, zero, suc, ◌+◌, ◌<◌, ◌≡◌, refl, some, List, [], ◌∷◌, ◌++◌, arith, if◌then◌else◌, length,
  get_elem?, get_or,
}
use queens.Prelude.Text.{Text, bytes}
use queens.Prelude.Int.{ℤ, pos, negsuc, ltb_ℤ, ◌+ℤ◌, ◌-ℤ◌, max_ℤ}
use queens.League.{Bots, Tier, LeagueConfig}
use queens.Bots.{bot_count, bot_nickname, posmod}
use queens.Bots.Stream.{posmod-lt}

topped_up :
    (humans want : ℤ)
    → (let n = want -ℤ humans in humans +ℤ (if ltb_ℤ (pos 0) n then n else pos 0))
      ≡ max_ℤ humans want
unfolding ◌+ℤ◌ ◌-ℤ◌
topped_up (pos a) (pos b) = ground arith
topped_up (pos a) (negsuc b) = ground arith
topped_up (negsuc a) (pos b) = ground arith
topped_up (negsuc a) (negsuc b) = ground arith

-- The bots of a tier with bots top a group up to `fill_to`, and a larger group gets none.
pub bot_count_fills :
    (t : Tier) (b : Bots) (humans : ℤ)
    → t.bots ≡ some b
    → humans +ℤ bot_count t humans ≡ max_ℤ humans b.fill_to
unfolding bot_count
bot_count_fills t b humans e = rw e (topped_up humans b.fill_to)

in_range : (l : List Text) (i : ℕ) → i < length l → get_elem? l i ≡ some (get_or l i [])
in_range [] i h = absurd (omega arith)
in_range (n ∷ ns) zero h = refl
in_range (n ∷ ns) (suc i) h = in_range ns i (omega arith)

-- With at least one name in the config, a bot has one of them: the index that `BotNickname` computes lies in the list.
bot_nickname-get :
    (itoa : ℕ → Text) (cfg : LeagueConfig) (group_seed : ℤ) (slot : ℕ)
    → 0 < length cfg.bot_names
    → get_elem? cfg.bot_names (posmod (group_seed +ℤ pos slot) (length cfg.bot_names))
      ≡ some (bot_nickname itoa cfg group_seed slot)
unfolding bot_nickname
bot_nickname-get itoa cfg group_seed slot h = named cfg.bot_names h
  where
    named :
        (names : List Text)
        → 0 < length names
        → get_elem? names (posmod (group_seed +ℤ pos slot) (length names))
          ≡ some (elim names [
            | [] ↦ bytes "Player " ++ itoa (slot + 1)
            | n ∷ ns ↦ get_or (n ∷ ns) (posmod (group_seed +ℤ pos slot) (length (n ∷ ns))) []
          ])
    named [] h = absurd (omega arith)
    named (n ∷ ns) h = in_range (n ∷ ns) _ (posmod-lt (group_seed +ℤ pos slot) (length (n ∷ ns)) h)
