-- ===== src/Closer.antt =====
-- server/internal/service/league.go: `CloseRound`, which claims a round, closes its open groups until
-- none is left, and finishes it; `closeGroup` on the tables, and `groupMembers`, the people and the
-- bots of a group; with `OpenGroups`, `ClaimGroupClose` and `GroupMembersSorted`
-- (store/sqlite/league.go). Each transaction is a step on the tables; one that fails ends the closing.
pub mod Drained
pub mod Finished
use Prim.Native.Nat.{bit_xor}
use queens.Prelude.{
  ℕ, zero, suc, ◌+◌, ◌-◌, ◌*◌, ◌/◌, ◌%◌, ◌^◌, ◌≤◌, ◌<◌, min, max, ◌≡◌, refl, sym, ap, ap₂, subst,
  ◌∙◌, ◌≢◌, ◌↔◌, ◌⊎◌, inl, inr, Bool, true, false, not, ◌&&◌, ◌||◌, Option, none, some, List, [],
  ◌∷◌, ◌++◌, map, arith, dec_lt, ℕ_discrete, ltb, leb, ◌==◌, if◌then◌else◌, ltb→lt, lt→ltb, leb→le,
  ==_iff, Bool-cases, Option-cases, length, get_elem?, set, length-append, length-set, get_or, take,
  drop, replicate, length-take, length-drop, length-replicate, length-map, take-append-drop, All,
  sum, some-eq, if_true, if_false, and_false_left, and_false_right, and_true,
}
use queens.Prelude.Fallible.{Fallible, fail, done, ◌>>=◌}
use queens.Prelude.Int.{ℤ, pos, pos_part}
use queens.Prelude.Sort.{sort_by}
use queens.Prelude.Text.{Text, text_eq, text_lt}
use queens.Float.{Float64}
use queens.League.{Tier, LeagueConfig}
use queens.Round.{round_start, round_end}
use queens.Group.{Member, sort_members, evaluate, eqb_ℤ}
use queens.Bots.{bot_count, bot_seed, bot_nickname, bot_progress}
use queens.Absence.{Player, Summary, LeagueError, not_found, known_tier}
use queens.Closing.{MemberRow, LeagueStore, RoundRow, settle_members}
use queens.Freeze.{Round, get_round, claim_round, finish_rows, up_count_or}
use queens.GroupTable.{GroupRow, MemberEntry, get_group}

-- The tables that a closing reads or writes; `outcomes` are the columns that it writes to the members
-- of the round.
pub record LeagueTables : Type 0 where
  pub rounds : List Round
  pub groups : List GroupRow
  pub entries : List MemberEntry
  pub players : List Player
  pub summaries : List Summary
  pub outcomes : List MemberRow

-- `fnv.New32a`
unfoldable pub fnv32a : ℕ → Text → ℕ
fnv32a h [] = h
fnv32a h (c ∷ cs) = fnv32a (bit_xor h c * 16777619 % 2 ^ 32) cs

unfoldable pub group_seed : Text → ℤ
group_seed id = pos (fnv32a 2166136261 id)

-- What the code takes from elsewhere: `nickname` reads the column of a player, `bot_id` is the
-- package uuid's name-based id of the bot in a slot, `itoa` prints a number.
pub record Names : Type 0 where
  pub nickname : Text → Text
  pub bot_id : Text → ℕ → Text
  pub itoa : ℕ → Text

abbrev pub person : Names → MemberEntry → Member
person names e = record {
  player_id = e.player_id;
  nickname = names.nickname e.player_id;
  round_score = e.round_score;
  games = e.games;
  last_submit_at = e.last_submit_at;
  is_me = false;
  is_friend = false;
  rank = 0;
  zone = none;
  left_at = elim e.left_at [ none ↦ pos 0 | some t ↦ t ];
  group_id = [];
  bot = false;
}

unfoldable pub people_in : Names → List MemberEntry → Text → List Member
people_in names [] group = []
people_in names (e ∷ es) group =
    let rest = people_in names es group in
    if text_eq e.group_id group then person names e ∷ rest else rest

unfoldable pub bot_member : Names → LeagueConfig → Tier → GroupRow → ℤ → ℕ → Member
bot_member names cfg t g at slot =
    let seed = group_seed g.id in
    let st =
      bot_progress t cfg (pos (bot_seed seed slot)) (round_start t g.round_index)
        (round_end t g.round_index) at in
    record {
      player_id = names.bot_id g.id slot;
      nickname = bot_nickname names.itoa cfg seed slot;
      round_score = st.round_score;
      games = st.games;
      last_submit_at = st.last_submit_at;
      is_me = false;
      is_friend = false;
      rank = 0;
      zone = none;
      left_at = pos 0;
      group_id = g.id;
      bot = true;
    }

-- The bots from `slot` on.
unfoldable pub bots_from : Names → LeagueConfig → Tier → GroupRow → ℤ → ℕ → ℕ → List Member
bots_from names cfg t g at zero slot = []
bots_from names cfg t g at (suc left) slot =
    bot_member names cfg t g at slot ∷ bots_from names cfg t g at left (suc slot)

unfoldable pub group_members :
    Names → LeagueConfig → Tier → List MemberEntry → GroupRow → ℤ → List Member
group_members names cfg t es g at =
    sort_members (people_in names es g.id)
    ++ bots_from names cfg t g at (pos_part (bot_count t (pos g.member_count))) 0

-- `WHERE tier = ? AND round_index = ? AND state = 'open'`
abbrev pub is_open_in : Text → ℤ → GroupRow → Bool
is_open_in tier idx g = text_eq g.tier tier && (eqb_ℤ g.round_index idx && g.group_open)

unfoldable pub open_rows : List GroupRow → Text → ℤ → List GroupRow
open_rows [] tier idx = []
open_rows (g ∷ gs) tier idx =
    let rest = open_rows gs tier idx in if is_open_in tier idx g then g ∷ rest else rest

abbrev pub id_before : GroupRow → GroupRow → Bool
id_before a b = text_lt a.id b.id

unfoldable pub open_groups : List GroupRow → Text → ℤ → List GroupRow
open_groups gs tier idx = sort_by id_before (open_rows gs tier idx)

-- `ClaimGroupClose` as an `UPDATE` of the table.
unfoldable pub close_row : Text → GroupRow → GroupRow
close_row id g = if text_eq g.id id && g.group_open then record g { group_open = false } else g

-- A row was affected.
unfoldable pub is_claimed : List GroupRow → Text → Bool
is_claimed [] id = false
is_claimed (g ∷ gs) id = (text_eq g.id id && g.group_open) || is_claimed gs id

-- `FinishRound`, after the loop.
unfoldable pub finish_closing : Text → ℤ → ℤ → Option LeagueTables → Option LeagueTables
finish_closing tier idx now none = none
finish_closing tier idx now (some w) =
    some (record w { rounds = finish_rows w.rounds tier idx now })

module _ (fl : Float64) (names : Names) (cfg : LeagueConfig) where
  -- The members of the group evaluated, and settled.
  unfoldable pub group_outcome :
      Text → ℤ → ℤ → ℤ → GroupRow → LeagueTables → Round → Tier → Fallible LeagueError LeagueStore
  group_outcome tier idx ends_at now g w fresh t =
      let ev =
        evaluate fl (group_members names cfg t w.entries g ends_at) t cfg (up_count_or fresh) in
      let round : RoundRow = record { tier = tier; round_index = idx; ends_at = ends_at } in
      settle_members cfg round (length ev.members) now ev.members (record {
        players = w.players;
        summaries = w.summaries;
        members = w.outcomes;
        group_open = false;
      })

  -- `closeGroup` after the claim, with the rows of the round and of the tier.
  unfoldable pub settle_group :
      Text → ℤ → ℤ → ℤ → GroupRow → LeagueTables → Round → Tier → Fallible LeagueError LeagueTables
  settle_group tier idx ends_at now g w fresh t =
      group_outcome tier idx ends_at now g w fresh t >>= λ st.
      done (record w { players = st.players; summaries = st.summaries; outcomes = st.members })

  unfoldable pub settle_claimed :
      Text → ℤ → ℤ → ℤ → GroupRow → LeagueTables → Option Round → Fallible LeagueError LeagueTables
  settle_claimed tier idx ends_at now g w none = fail not_found
  settle_claimed tier idx ends_at now g w (some fresh) =
      known_tier cfg tier >>= λ t. settle_group tier idx ends_at now g w fresh t

  -- `closeGroup` for a group of the round of `tier` with the index `idx`.
  unfoldable pub close_one :
      Text → ℤ → ℤ → ℤ → GroupRow → LeagueTables → Fallible LeagueError LeagueTables
  close_one tier idx ends_at now g w =
      let marked = record w { groups = map (close_row g.id) w.groups } in
      if not (is_claimed w.groups g.id)
      then done marked
      else settle_claimed tier idx ends_at now g marked (get_round w.rounds tier idx)

  -- The loop over the groups that were listed.
  unfoldable pub close_listed :
      Text → ℤ → ℤ → ℤ → List GroupRow → LeagueTables → Fallible LeagueError LeagueTables
  close_listed tier idx ends_at now [] w = done w
  close_listed tier idx ends_at now (g ∷ gs) w =
      close_one tier idx ends_at now g w >>= λ w'. close_listed tier idx ends_at now gs w'

  -- The loop of `CloseRound`, with `fuel` for its rounds; `none` when it is spent.
  unfoldable pub close_loop :
      ℕ → Text → ℤ → ℤ → ℤ → LeagueTables → Fallible LeagueError (Option LeagueTables)
  close_loop zero tier idx ends_at now w = done none
  close_loop (suc fuel) tier idx ends_at now w =
      let groups = open_groups w.groups tier idx in
      if length groups == 0
      then done (some w)
      else (close_listed tier idx ends_at now groups w >>= λ w'.
          close_loop fuel tier idx ends_at now w')

  -- `CloseRound` for the row `round`.
  unfoldable pub close_round :
      ℕ → Round → ℤ → LeagueTables → Fallible LeagueError (Option LeagueTables)
  close_round fuel round now w =
      claim_round fl cfg now w.players w.rounds round.tier round.round_index >>= λ rounds.
      close_loop fuel round.tier round.round_index round.ends_at now (record w { rounds = rounds })
      >>= λ closed. done (finish_closing round.tier round.round_index now closed)
