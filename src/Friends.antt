-- ===== src/Friends.antt =====
-- The friends of a player: server/internal/service/friends.go with store/sqlite/misc.go (`friendRepo`) and the
-- lookups of players by id and by code. A link is directed: a player follows another.
pub mod Limit
pub mod Undone
use queens.Prelude.{
  ℕ, zero, suc, ◌+◌, ◌-◌, ◌*◌, ◌/◌, ◌%◌, ◌^◌, ◌≤◌, ◌<◌, min, max, ◌≡◌, refl, sym, ap, ap₂, subst,
  ◌∙◌, ◌≢◌, ◌↔◌, ◌⊎◌, inl, inr, Bool, true, false, not, ◌&&◌, ◌||◌, Option, none, some, List, [],
  ◌∷◌, ◌++◌, map, arith, dec_lt, ℕ_discrete, ltb, leb, ◌==◌, if◌then◌else◌, ltb→lt, lt→ltb, leb→le,
  ==_iff, Bool-cases, Option-cases, length, get_elem?, set, length-append, length-set, get_or, take,
  drop, replicate, length-take, length-drop, length-replicate, length-map, take-append-drop, All,
  sum, some-eq, if_true, if_false, and_false_left, and_false_right, and_true, both_true, if_both,
}
use queens.Prelude.Fallible.{Fallible, fail, done}
use queens.Prelude.Int.{ℤ, pos, ltb_ℤ, ◌-ℤ◌}
use queens.Prelude.Text.{Text, bytes, text_eq, text_lt}
use queens.Prelude.Sort.{sort_by}
use queens.Prelude.Runes.{trim_space}
use queens.Float.{Float64}
use queens.League.{LeagueConfig, Tier, is_empty}
use queens.Round.{round_index, has_rounds}
use queens.Group.{eqb_ℤ}
use queens.Absence.{Player, LeagueError, not_found, known_tier}
use queens.Anomaly.{Signals, flag}
use queens.GroupTable.{MemberEntry, FriendLink, get_member}
use queens.Transaction.{
  Attempt, ok, refused, kept, try, in_tx, ApiError, coded, internal, friend_code_format,
  friend_own_code, friend_already, friend_unknown, friend_code_unknown, friend_limit,
}

-- A row of `players` with its names.
pub record Profile : Type 0 where
  pub row : Player
  pub nickname : Text
  pub friend_code : Text

-- An entry of `probes`, which is kept in the memory of the program.
pub record Probe : Type 0 where
  pub player_id : Text
  pub count : ℕ
  pub since : ℤ

pub record FriendRow : Type 0 where
  pub player_id : Text
  pub nickname : Text
  pub tier : Text
  pub round_score : ℤ
  pub tier_points : ℤ
  pub friend_since : ℤ
  pub friend_code : Text

pub record Network (fl : Float64) : Type 0 where
  pub profiles : List Profile
  pub links : List FriendLink
  pub entries : List MemberEntry
  pub signals : Signals fl
  pub probes : List Probe

-- A code is a list of runes. `strings.ToUpper` on the runes that it takes to an ASCII letter: a to z, dotless i and long s. It takes
-- no other rune to a character of the pattern that it was not, so the test below is the code's.
abbrev upper_rune : ℕ → ℕ
upper_rune r =
    if leb 97 r && leb r 122 then r - 32 else if r == 305 then 73 else if r == 383 then 83 else r

unfoldable pub canonical : Text → Text
canonical code = map upper_rune (trim_space code)

-- `[A-Z2-7]{6}$`
unfoldable pub code_tail : ℕ → Text → Bool
code_tail zero rs = is_empty rs
code_tail (suc n) [] = false
code_tail (suc n) (r ∷ rs) = ((leb 65 r && leb r 90) || (leb 50 r && leb r 55)) && code_tail n rs

-- `friendCodeRe`
unfoldable pub is_friend_code : Text → Bool
is_friend_code code = text_eq (take 3 code) (bytes "QN-") && code_tail 6 (drop 3 code)

abbrev bumped : ℤ → Probe → Probe
bumped now e =
    if ltb_ℤ (pos 3600) (now -ℤ e.since)
    then record e { count = 1; since = now }
    else record e { count = suc e.count }

-- `bump`: the entries afterwards.
unfoldable pub bump : List Probe → Text → ℤ → List Probe
bump [] id now = record { player_id = id; count = 1; since = now } ∷ []
bump (e ∷ es) id now =
    let rest = bump es id now in if text_eq e.player_id id then bumped now e ∷ es else e ∷ rest

unfoldable pub probe_count : List Probe → Text → ℕ
probe_count [] id = 0
probe_count (e ∷ es) id = if text_eq e.player_id id then e.count else probe_count es id

unfoldable pub get_profile : List Profile → Text → Option Profile
get_profile [] id = none
get_profile (p ∷ ps) id = if text_eq p.row.id id then some p else get_profile ps id

unfoldable pub get_by_friend_code : List Profile → Text → Option Profile
get_by_friend_code [] code = none
get_by_friend_code (p ∷ ps) code =
    if text_eq p.friend_code code then some p else get_by_friend_code ps code

unfoldable pub is_link : Text → Text → FriendLink → Bool
is_link id friend l = text_eq l.player_id id && text_eq l.friend_id friend

unfoldable pub has_link : List FriendLink → Text → Text → Bool
has_link [] id friend = false
has_link (l ∷ ls) id friend = is_link id friend l || has_link ls id friend

-- `Count`
unfoldable pub count_links : List FriendLink → Text → ℕ
count_links [] id = 0
count_links (l ∷ ls) id =
    let rest = count_links ls id in if text_eq l.player_id id then suc rest else rest

-- `Add`, with `ON CONFLICT DO NOTHING`.
unfoldable pub add_link : List FriendLink → Text → Text → ℤ → List FriendLink × Bool
add_link ls id friend now =
    if has_link ls id friend
    then (ls, false)
    else (record { player_id = id; friend_id = friend; created_at = now } ∷ ls, true)

-- `Remove`
unfoldable pub remove_links : List FriendLink → Text → Text → List FriendLink
remove_links [] id friend = []
remove_links (l ∷ ls) id friend =
    let rest = remove_links ls id friend in if is_link id friend l then rest else l ∷ rest

-- `ORDER BY created_at ASC, friend_id ASC`
abbrev older : FriendRow → FriendRow → Bool
older a b =
    if not (eqb_ℤ a.friend_since b.friend_since)
    then ltb_ℤ a.friend_since b.friend_since
    else text_lt a.player_id b.player_id

abbrev pub friend_row : Profile → ℤ → FriendRow
friend_row p since = record {
  player_id = p.row.id;
  nickname = p.nickname;
  tier = p.row.tier;
  round_score = pos 0;
  tier_points = p.row.tier_points;
  friend_since = since;
  friend_code = p.friend_code;
}

abbrev joined_row : FriendLink → Option Profile → List FriendRow → List FriendRow
joined_row l none rows = rows
joined_row l (some p) rows = friend_row p l.created_at ∷ rows

-- The join of `List`.
unfoldable pub friend_rows_of : List Profile → List FriendLink → Text → List FriendRow
friend_rows_of ps [] id = []
friend_rows_of ps (l ∷ ls) id =
    let rest = friend_rows_of ps ls id in
    if text_eq l.player_id id then joined_row l (get_profile ps l.friend_id) rest else rest

abbrev pub member_score : FriendRow → Option MemberEntry → FriendRow
member_score row none = row
member_score row (some e) = record row { round_score = pos e.round_score }

module _ (fl : Float64) (cfg : LeagueConfig) (now : ℤ) where
  -- The score of a friend in the round of the friend's own tier.
  unfoldable pub scored : List MemberEntry → FriendRow → Fallible LeagueError Tier → FriendRow
  scored es row (fail e) = row
  scored es row (done t) =
      if not (has_rounds t)
      then record row { round_score = row.tier_points }
      else member_score row (get_member es row.player_id t.id (round_index t now))

  -- `Friends`
  unfoldable pub friends : Network fl → Text → List FriendRow
  friends w id =
      map (λ (row : FriendRow). scored w.entries row (known_tier cfg row.tier))
        (sort_by older (friend_rows_of w.profiles w.links id))

  -- The signal of a player who tries codes.
  unfoldable pub signal_probing :
      Network fl → Fallible LeagueError (Signals fl) → Attempt (Network fl) FriendRow
  signal_probing w (fail e) = kept w (internal e)
  signal_probing w (done s) = kept (record w { signals = s }) (coded 404 friend_code_unknown [])

  -- A code of no player. Nothing of the database has changed before, so the error that keeps the state
  -- is the rollback, which keeps the probes in memory.
  unfoldable pub reject_unknown : Network fl → Text → Attempt (Network fl) FriendRow
  reject_unknown w id =
      let probed = record w { probes = bump w.probes id now } in
      if ltb 50 (probe_count probed.probes id)
      then signal_probing probed
          (flag fl now id (bytes "friend_code_probing") (fl.lit 2 0) w.signals)
      else kept probed (coded 404 friend_code_unknown [])

  unfoldable pub link_added :
      Network fl → Profile → List FriendLink × Bool → Attempt (Network fl) FriendRow
  link_added w other (links, added) =
      if not added
      then refused (coded 409 friend_already [])
      else ok (record w { links = links }) (friend_row other now)

  unfoldable pub link_to : Network fl → Text → Option Profile → Attempt (Network fl) FriendRow
  link_to w id none = reject_unknown w id
  link_to w id (some other) =
      if leb 50 (count_links w.links id)
      then refused (coded 409 friend_limit (pos 50 ∷ []))
      else link_added w other (add_link w.links id other.row.id now)

  unfoldable pub add_as : Network fl → Text → Text → Option Profile → Attempt (Network fl) FriendRow
  add_as w id code none = refused (internal not_found)
  add_as w id code (some me) =
      if text_eq code me.friend_code
      then refused (coded 422 friend_own_code [])
      else link_to w id (get_by_friend_code w.profiles code)

  -- The closure of the transaction.
  unfoldable pub add_in_tx : Text → Text → Network fl → Attempt (Network fl) FriendRow
  add_in_tx id code w = add_as w id code (get_profile w.profiles id)

  unfoldable pub add_scored :
      Network fl × Fallible ApiError FriendRow → Network fl × Fallible ApiError FriendRow
  add_scored (w, fail e) = (w, fail e)
  add_scored (w, done row) = (w, done (scored w.entries row (known_tier cfg row.tier)))

  -- `AddFriend`
  unfoldable pub add_friend : Network fl → Text → Text → Network fl × Fallible ApiError FriendRow
  add_friend w id code =
      if not (is_friend_code (canonical code))
      then (w, fail (coded 422 friend_code_format []))
      else add_scored (in_tx w (add_in_tx id (canonical code)))

unfoldable pub remove_in_tx :
    (fl : Float64) → Text → Text → Network fl → Attempt (Network fl) (Unit {0})
remove_in_tx fl id friend w =
    if not (has_link w.links id friend)
    then refused (coded 404 friend_unknown [])
    else ok (record w { links = remove_links w.links id friend }) tt

-- `RemoveFriend`
unfoldable pub remove_friend :
    (fl : Float64) → Network fl → Text → Text → Network fl × Fallible ApiError (Unit {0})
remove_friend fl w id friend = in_tx w (remove_in_tx fl id friend)
