-- ===== src/GroupTable.antt =====
-- The tables of groups and memberships (store/sqlite/league.go: `GetMember`, `FriendGroups`,
-- `IncGroupCount`, `FindOpenGroup`, `CreateGroup`; store/sqlite/players.go: `IncRoundsPlayed`). Of a group
-- and of a member the columns that the services read or write.
use queens.Prelude.{
  ℕ, suc, Bool, true, false, not, ◌&&◌, ◌||◌, Option, none, some, List, [], ◌∷◌, map, ltb, ◌==◌,
  if◌then◌else◌,
}
use queens.Prelude.Fallible.{Fallible, fail, done}
use queens.Prelude.Int.{ℤ, pos, ltb_ℤ}
use queens.Prelude.Sort.{sort_by}
use queens.Prelude.Text.{Text, text_eq, text_lt}
use queens.Group.{eqb_ℤ}
use queens.Absence.{LeagueError, conflict}
use queens.Freeze.{Round}

pub record GroupRow : Type 0 where
  pub id : Text
  pub tier : Text
  pub round_index : ℤ
  pub quarantine : Bool
  -- `NULL` in a tier with one group for everyone.
  pub capacity : Option ℤ
  pub member_count : ℕ
  -- The state is `open`.
  pub group_open : Bool
  pub created_at : ℤ

-- A row of `league_members`.
pub record MemberEntry : Type 0 where
  pub player_id : Text
  pub tier : Text
  pub round_index : ℤ
  pub group_id : Text
  pub round_score : ℕ
  pub games : ℕ
  pub last_submit_at : ℤ
  pub left_at : Option ℤ
  pub joined_at : ℤ

-- The column of `players` that a join changes.
pub record RoundsPlayed : Type 0 where
  pub player_id : Text
  pub rounds_played : ℕ

-- `player_id` follows `friend_id`.
pub record FriendLink : Type 0 where
  pub player_id : Text
  pub friend_id : Text
  pub created_at : ℤ

pub record Tables : Type 0 where
  pub rounds : List Round
  pub groups : List GroupRow
  pub entries : List MemberEntry
  pub played : List RoundsPlayed
  pub friends : List FriendLink

abbrev pub eqb_bool : Bool → Bool → Bool
eqb_bool true b = b
eqb_bool false b = not b

unfoldable pub get_group : List GroupRow → Text → Option GroupRow
get_group [] id = none
get_group (g ∷ gs) id = if text_eq g.id id then some g else get_group gs id

unfoldable pub is_entry : Text → Text → ℤ → MemberEntry → Bool
is_entry player tier idx e =
    text_eq e.player_id player && (text_eq e.tier tier && eqb_ℤ e.round_index idx)

unfoldable pub get_member : List MemberEntry → Text → Text → ℤ → Option MemberEntry
get_member [] player tier idx = none
get_member (e ∷ es) player tier idx =
    if is_entry player tier idx e then some e else get_member es player tier idx

-- `capacity IS NULL OR member_count < limit`
abbrev pub room_for : Option ℤ → ℕ → ℤ → Bool
room_for none n limit = true
room_for (some c) n limit = ltb_ℤ (pos n) limit

abbrev pub has_room : GroupRow → ℤ → Bool
has_room g limit = room_for g.capacity g.member_count limit

-- `capacity IS NULL OR member_count < capacity`
abbrev pub below_capacity : GroupRow → Bool
below_capacity g = elim g.capacity [ none ↦ true | some c ↦ ltb_ℤ (pos g.member_count) c ]

-- `ORDER BY member_count DESC, id ASC`
unfoldable pub fuller : GroupRow → GroupRow → Bool
fuller a b =
    if not (a.member_count == b.member_count)
    then ltb b.member_count a.member_count
    else text_lt a.id b.id

abbrev pub fuller_of : GroupRow → Option GroupRow → GroupRow
fuller_of g none = g
fuller_of g (some h) = if fuller h g then h else g

abbrev pub in_round : Text → ℤ → Bool → GroupRow → Bool
in_round tier idx quarantine g =
    (text_eq g.tier tier && eqb_ℤ g.round_index idx)
    && (eqb_bool g.quarantine quarantine && g.group_open)

unfoldable pub find_open_group : List GroupRow → Text → ℤ → Bool → Option GroupRow
find_open_group [] tier idx quarantine = none
find_open_group (g ∷ gs) tier idx quarantine =
    let rest = find_open_group gs tier idx quarantine in
    if in_round tier idx quarantine g && below_capacity g then some (fuller_of g rest) else rest

-- One of the two follows the other.
unfoldable pub linked : List FriendLink → Text → Text → Bool
linked [] a b = false
linked (l ∷ ls) a b =
    ((text_eq l.player_id a && text_eq l.friend_id b)
      || (text_eq l.player_id b && text_eq l.friend_id a))
    || linked ls a b

abbrev pub is_none : {A : Type 0} → Option A → Bool
is_none none = true
is_none (some a) = false

-- A friend of the player is a member of the group and has not left it.
unfoldable pub holds_friend : List FriendLink → List MemberEntry → Text → Text → ℤ → Text → Bool
holds_friend ls [] player tier idx group = false
holds_friend ls (e ∷ es) player tier idx group =
    ((text_eq e.group_id group && (text_eq e.tier tier && eqb_ℤ e.round_index idx))
      && (is_none e.left_at && (not (text_eq e.player_id player) && linked ls player e.player_id)))
    || holds_friend ls es player tier idx group

-- `capacity IS NOT NULL AND member_count < limit`
abbrev pub has_seat : GroupRow → ℤ → Bool
has_seat g limit = elim g.capacity [ none ↦ false | some c ↦ ltb_ℤ (pos g.member_count) limit ]

abbrev pub offers_seat : Tables → Text → Text → ℤ → Bool → ℤ → GroupRow → Bool
offers_seat st player tier idx quarantine limit g =
    (g.group_open && (eqb_bool g.quarantine quarantine && has_seat g limit))
    && holds_friend st.friends st.entries player tier idx g.id

unfoldable pub friend_rows : Tables → List GroupRow → Text → Text → ℤ → Bool → ℤ → List GroupRow
friend_rows st [] player tier idx quarantine limit = []
friend_rows st (g ∷ gs) player tier idx quarantine limit =
    let rest = friend_rows st gs player tier idx quarantine limit in
    if offers_seat st player tier idx quarantine limit g then g ∷ rest else rest

-- `FriendGroups`, without the friends of each group.
unfoldable pub friend_groups : Tables → Text → Text → ℤ → Bool → ℤ → List GroupRow
friend_groups st player tier idx quarantine limit =
    sort_by fuller (friend_rows st st.groups player tier idx quarantine limit)

abbrev pub grown : GroupRow → GroupRow
grown g = record g { member_count = suc g.member_count }

unfoldable pub grow_row : Text → GroupRow → GroupRow
grow_row id g = if text_eq g.id id then grown g else g

-- The rest of `IncGroupCount` when the row is read; `id` is the primary key.
unfoldable pub inc_found : List GroupRow → Text → ℤ → Option GroupRow → List GroupRow × Bool
inc_found gs id limit none = (gs, false)
inc_found gs id limit (some g) =
    if g.group_open && has_room g limit then (map (grow_row id) gs, true) else (gs, false)

unfoldable pub inc_group_count : List GroupRow → Text → ℤ → List GroupRow × Bool
inc_group_count gs id limit = inc_found gs id limit (get_group gs id)

unfoldable pub played_row : Text → RoundsPlayed → RoundsPlayed
played_row player r =
    if text_eq r.player_id player then record r { rounds_played = suc r.rounds_played } else r

-- `CreateGroup`: the id is a primary key.
unfoldable pub create_group : List GroupRow → GroupRow → Fallible LeagueError (List GroupRow)
create_group gs g = if is_none (get_group gs g.id) then done (g ∷ gs) else fail conflict
