-- ===== src/Friends/Undone.antt =====
-- That a link can be taken back.
use queens.Prelude.{
  ◌≡◌, refl, sym, ap, subst, ◌∙◌, ◌≢◌, inl, inr, Bool, true, false, not, ◌||◌, Option, none, some,
  List, [], ◌∷◌, ltb, leb, Bool-cases, if_true, if_false, both_true, if_both,
}
use queens.Prelude.Fallible.{Fallible, fail, done, done-injective}
use queens.Prelude.Int.{ℤ}
use queens.Prelude.Text.{Text, text_eq, text_eq_refl}
use queens.Float.{Float64}
use queens.League.{LeagueConfig, Tier}
use queens.Absence.{LeagueError, known_tier}
use queens.Anomaly.{Signals}
use queens.GroupTable.{FriendLink, MemberEntry}
use queens.Round.{has_rounds}
use queens.Transaction.{ok, ApiError}
use queens.Transaction.Ends.{ok-injective, in_tx-done, in_tx-ok}
use queens.Friends.{
  Network, Profile, FriendRow, canonical, is_friend_code, is_link, has_link, count_links, add_link,
  remove_links, scored, member_score, signal_probing, reject_unknown, link_added, link_to, add_as,
  add_in_tx, add_scored, add_friend, remove_in_tx, remove_friend, get_profile, get_by_friend_code,
  bump, probe_count,
}

remove_links-fresh :
    (ls : List FriendLink) (id friend : Text)
    → has_link ls id friend ≡ false
    → remove_links ls id friend ≡ ls
unfolding remove_links has_link
remove_links-fresh [] id friend h = refl
remove_links-fresh (l ∷ ls) id friend h = elim (Bool-cases (is_link id friend l)) [
  | inl y ↦ absurd (cc (sym h ∙ ap (λ b. b || has_link ls id friend) y))
  | inr n ↦
      if_false _ n
      ∙ ap (λ rest. l ∷ rest)
          (remove_links-fresh ls id friend (sym (ap (λ b. b || has_link ls id friend) n) ∙ h))
]

is_link_self :
    (id friend : Text) (at : ℤ)
    → is_link id friend (record { player_id = id; friend_id = friend; created_at = at }) ≡ true
unfolding is_link
is_link_self id friend at = both_true (text_eq_refl id) (text_eq_refl friend)

remove_in_tx-undoes :
    (fl : Float64) (w : Network fl) (id friend : Text) (at : ℤ)
    → has_link w.links id friend ≡ false
    → remove_in_tx fl id friend (record w {
      links = record { player_id = id; friend_id = friend; created_at = at } ∷ w.links;
    })
      ≡ ok w tt
unfolding remove_in_tx has_link remove_links
remove_in_tx-undoes fl w id friend at fresh =
    let self = is_link_self id friend at in
    if_false _ (ap (λ b. not (b || has_link w.links id friend)) self)
    ∙ ap (λ ls. ok (record w { links = ls }) tt)
        (if_true _ self ∙ remove_links-fresh w.links id friend fresh)

module _ (fl : Float64) (cfg : LeagueConfig) (now : ℤ) where
  -- A link that is added.
  IsAdded : Network fl → Network fl → Text → FriendRow → Type 0
  IsAdded w w' id row =
      (has_link w.links id row.player_id ≡ false)
      × (w' ≡ record w {
        links = record { player_id = id; friend_id = row.player_id; created_at = now } ∷ w.links;
      })

  add_link-IsAdded :
      (w w' : Network fl) (id : Text) (other : Profile) (row : FriendRow)
      → link_added fl cfg now w other (add_link w.links id other.row.id now) ≡ ok w' row
      → IsAdded w w' id row
  unfolding add_link link_added IsAdded
  add_link-IsAdded w w' id other row h = elim (Bool-cases (has_link w.links id other.row.id)) [
    | inl y ↦
        absurd (
          cc
            (sym h ∙ ap (link_added fl cfg now w other) (if_true {A = List FriendLink × Bool} _ y)))
    | inr n ↦
        let (e, r) = ok-injective (
          sym (ap (link_added fl cfg now w other) (if_false {A = List FriendLink × Bool} _ n))
          ∙ h) in
        subst (IsAdded w w' id) r (n, sym e)
  ]

  signal_probing-fails :
      (w w' : Network fl) (m : Fallible LeagueError (Signals fl)) (row : FriendRow)
      → signal_probing fl cfg now w m ≢ ok w' row
  unfolding signal_probing
  signal_probing-fails w w' (fail e) row h = cc
  signal_probing-fails w w' (done s) row h = cc

  reject_unknown-fails :
      (w w' : Network fl) (id : Text) (row : FriendRow) → reject_unknown fl cfg now w id ≢ ok w' row
  unfolding reject_unknown
  reject_unknown-fails w w' id row h =
      elim (Bool-cases (ltb 50 (probe_count (bump w.probes id now) id))) [
        | inl y ↦ signal_probing-fails _ w' _ row (sym (if_true _ y) ∙ h)
        | inr n ↦ absurd (cc (sym (if_false _ n) ∙ h))
      ]

  link_to-IsAdded :
      (w w' : Network fl) (id : Text) (o : Option Profile) (row : FriendRow)
      → link_to fl cfg now w id o ≡ ok w' row
      → IsAdded w w' id row
  unfolding link_to
  link_to-IsAdded w w' id none row h = absurd (reject_unknown-fails w w' id row h)
  link_to-IsAdded w w' id (some other) row h = elim (Bool-cases (leb 50 (count_links w.links id))) [
    | inl y ↦ absurd (cc (sym (if_true _ y) ∙ h))
    | inr n ↦ add_link-IsAdded w w' id other row (sym (if_false _ n) ∙ h)
  ]

  add_as-IsAdded :
      (w w' : Network fl) (id code : Text) (o : Option Profile) (row : FriendRow)
      → add_as fl cfg now w id code o ≡ ok w' row
      → IsAdded w w' id row
  unfolding add_as
  add_as-IsAdded w w' id code none row h = absurd (cc h)
  add_as-IsAdded w w' id code (some me) row h = elim (Bool-cases (text_eq code me.friend_code)) [
    | inl y ↦ absurd (cc (sym (if_true _ y) ∙ h))
    | inr n ↦
        link_to-IsAdded w w' id (get_by_friend_code w.profiles code) row (sym (if_false _ n) ∙ h)
  ]

  member_score-id :
      (row : FriendRow) (o : Option MemberEntry) → (member_score row o).player_id ≡ row.player_id
  member_score-id row none = refl
  member_score-id row (some e) = refl

  scored-id :
      (es : List MemberEntry) (row : FriendRow) (t : Fallible LeagueError Tier)
      → (scored fl cfg now es row t).player_id ≡ row.player_id
  unfolding scored
  scored-id es row (fail e) = refl
  scored-id es row (done t) =
      if_both (λ (r : FriendRow). r.player_id) (not (has_rounds t)) _ _ refl (member_score-id row _)

  add_scored-done :
      (r : Network fl × Fallible ApiError FriendRow) (w' : Network fl) (row : FriendRow)
      → add_scored fl cfg now r ≡ (w', done row)
      → (raw : FriendRow) × (r ≡ (w', done raw)) × (raw.player_id ≡ row.player_id)
  unfolding add_scored
  add_scored-done (w, fail e) w' row h = absurd (cc h)
  add_scored-done (w, done raw) w' row h = (
    raw,
    ap (λ v. (v, done raw)) (ap (λ (r : Network fl × Fallible ApiError FriendRow). r.0) h),
    sym (scored-id w.entries raw (known_tier cfg raw.tier))
        ∙ ap (λ (r : FriendRow). r.player_id)
            (done-injective (ap (λ (r : Network fl × Fallible ApiError FriendRow). r.1) h)),
  )

  add_friend-IsAdded :
      (w w' : Network fl) (id code : Text) (row : FriendRow)
      → add_friend fl cfg now w id code ≡ (w', done row)
      → IsAdded w w' id row
  unfolding add_friend add_in_tx IsAdded
  add_friend-IsAdded w w' id code row h = elim (Bool-cases (is_friend_code (canonical code))) [
    | inl y ↦
        let (raw, e, same) = add_scored-done _ w' row (sym (if_false _ (ap not y)) ∙ h) in
        subst
          (λ i.
            (has_link w.links id i ≡ false)
            × (w' ≡ record w {
              links = record { player_id = id; friend_id = i; created_at = now } ∷ w.links;
            }))
          same
          (add_as-IsAdded w w' id (canonical code) (get_profile w.profiles id) raw
            (in_tx-done w (add_in_tx fl cfg now id (canonical code)) e))
    | inr n ↦ absurd (cc (sym (if_true _ (ap not n)) ∙ h))
  ]

  -- `RemoveFriend` of the friend that `AddFriend` answers with succeeds and undoes it.
  pub remove_friend-add_friend :
      (w w' : Network fl) (id code : Text) (row : FriendRow)
      → add_friend fl cfg now w id code ≡ (w', done row)
      → remove_friend fl w' id row.player_id ≡ (w, done tt)
  unfolding IsAdded remove_friend
  remove_friend-add_friend w w' id code row h =
      let (fresh, e) = add_friend-IsAdded w w' id code row h in
      ap (λ v. remove_friend fl v id row.player_id) e
      ∙ in_tx-ok _ (remove_in_tx fl id row.player_id)
          (remove_in_tx-undoes fl w id row.player_id now fresh)
