-- ===== src/Friends/Limit.antt =====
-- How many friends a player can have.
use queens.Prelude.{
  ◌≤◌, ◌<◌, sym, ap, subst, inl, inr, Bool, true, false, not, Option, none, some, List, [], ◌∷◌,
  arith, ltb, leb, Bool-cases, if_true, if_false,
}
use queens.Prelude.Fallible.{Fallible, fail, done}
use queens.Prelude.Int.{ℤ}
use queens.Prelude.Text.{Text, text_eq, text_eq→eq}
use queens.Float.{Float64}
use queens.League.{LeagueConfig}
use queens.Absence.{LeagueError}
use queens.Anomaly.{Signals}
use queens.GroupTable.{FriendLink}
use queens.Transaction.{ApiError}
use queens.Transaction.Ends.{Leaves, if-Leaves, in_tx-Leaves}
use queens.Friends.{
  Network, Profile, FriendRow, canonical, is_friend_code, is_link, has_link, count_links, add_link,
  remove_links, signal_probing, reject_unknown, link_added, link_to, add_as, add_in_tx, add_scored,
  add_friend, remove_in_tx, remove_friend, get_profile, get_by_friend_code, bump, probe_count,
}

-- No player follows more than 50 others.
abbrev pub IsBounded : {fl : Float64} → Network fl → Type 0
IsBounded w = (id : Text) → count_links w.links id ≤ 50

add_link-count :
    (ls : List FriendLink) (id friend : Text) (now : ℤ)
    → count_links ls id < 50
    → ((x : Text) → count_links ls x ≤ 50)
    → (x : Text) → count_links (add_link ls id friend now).0 x ≤ 50
unfolding add_link count_links
add_link-count ls id friend now room h x = elim (Bool-cases (has_link ls id friend)) [
  | inl y ↦
      subst (λ (r : List FriendLink × Bool). count_links r.0 x ≤ 50)
        (sym (if_true {A = List FriendLink × Bool} _ y)) (h x)
  | inr n ↦
      subst (λ (r : List FriendLink × Bool). count_links r.0 x ≤ 50)
        (sym (if_false {A = List FriendLink × Bool} _ n))
        (elim (Bool-cases (text_eq id x)) [
          | inl s ↦
              subst (λ n. n ≤ 50) (sym (if_true _ s))
                (subst (λ y. count_links ls y < 50) (text_eq→eq id x s) room)
          | inr d ↦ subst (λ n. n ≤ 50) (sym (if_false _ d)) (h x)
        ])
]

remove_links-count :
    (ls : List FriendLink) (id friend x : Text)
    → count_links (remove_links ls id friend) x ≤ count_links ls x
unfolding remove_links count_links
remove_links-count [] id friend x = omega arith
remove_links-count (l ∷ ls) id friend x =
    let rest = remove_links-count ls id friend x in
    elim (Bool-cases (is_link id friend l)) [ inl y ↦ ground arith | inr n ↦ ground arith ]

module _ (fl : Float64) (cfg : LeagueConfig) (now : ℤ) where
  signal_probing-Leaves :
      (w : Network fl) (m : Fallible LeagueError (Signals fl))
      → IsBounded w
      → Leaves IsBounded (signal_probing fl cfg now w m)
  unfolding signal_probing
  signal_probing-Leaves w (fail e) h = h
  signal_probing-Leaves w (done s) h = h

  reject_unknown-Leaves :
      (w : Network fl) (id : Text) → IsBounded w → Leaves IsBounded (reject_unknown fl cfg now w id)
  unfolding reject_unknown
  reject_unknown-Leaves w id h =
      if-Leaves IsBounded (ltb 50 (probe_count (bump w.probes id now) id)) _ _
        (λ y. signal_probing-Leaves (record w { probes = bump w.probes id now }) _ h) (λ n. h)

  link_added-Leaves :
      (w : Network fl) (other : Profile) (r : List FriendLink × Bool)
      → ((x : Text) → count_links r.0 x ≤ 50)
      → Leaves IsBounded (link_added fl cfg now w other r)
  unfolding link_added
  link_added-Leaves w other (links, true) h = h
  link_added-Leaves w other (links, false) h = tt

  link_to-Leaves :
      (w : Network fl) (id : Text) (o : Option Profile)
      → IsBounded w
      → Leaves IsBounded (link_to fl cfg now w id o)
  unfolding link_to
  link_to-Leaves w id none h = reject_unknown-Leaves w id h
  link_to-Leaves w id (some other) h =
      if-Leaves IsBounded (leb 50 (count_links w.links id)) _ _ (λ y. tt)
        (λ n.
          link_added-Leaves w other _ (add_link-count w.links id other.row.id now (ground arith) h))

  add_as-Leaves :
      (w : Network fl) (id code : Text) (o : Option Profile)
      → IsBounded w
      → Leaves IsBounded (add_as fl cfg now w id code o)
  unfolding add_as
  add_as-Leaves w id code none h = tt
  add_as-Leaves w id code (some me) h =
      if-Leaves IsBounded (text_eq code me.friend_code) _ _ (λ y. tt)
        (λ n. link_to-Leaves w id (get_by_friend_code w.profiles code) h)

  add_scored-IsBounded :
      (r : Network fl × Fallible ApiError FriendRow)
      → IsBounded r.0
      → IsBounded (add_scored fl cfg now r).0
  unfolding add_scored
  add_scored-IsBounded (w, fail e) h = h
  add_scored-IsBounded (w, done row) h = h

  -- No request makes a player follow more than 50 others: where no player does, none does after
  -- `AddFriend`, whatever it answers.
  pub add_friend-IsBounded :
      (w : Network fl) (id code : Text)
      → IsBounded w
      → IsBounded (add_friend fl cfg now w id code).0
  unfolding add_friend add_in_tx
  add_friend-IsBounded w id code h = elim (Bool-cases (is_friend_code (canonical code))) [
    | inl y ↦
        subst (λ (r : Network fl × Fallible ApiError FriendRow). IsBounded r.0)
          (sym (if_false _ (ap not y)))
          (add_scored-IsBounded _ (
            in_tx-Leaves IsBounded w (add_in_tx fl cfg now id (canonical code)) h
              (add_as-Leaves w id (canonical code) (get_profile w.profiles id) h)))
    | inr n ↦
        subst (λ (r : Network fl × Fallible ApiError FriendRow). IsBounded r.0)
          (sym (if_true _ (ap not n))) h
  ]

  -- Nor after a friend is removed.
  remove_friend-IsBounded :
      (w : Network fl) (id friend : Text) → IsBounded w → IsBounded (remove_friend fl w id friend).0
  unfolding remove_friend remove_in_tx
  remove_friend-IsBounded w id friend h = in_tx-Leaves IsBounded w (remove_in_tx fl id friend) h (
      if-Leaves IsBounded (not (has_link w.links id friend)) _ _ (λ y. tt)
        (λ n x. let c = remove_links-count w.links id friend x in let d = h x in omega arith))
