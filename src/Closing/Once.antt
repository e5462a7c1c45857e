-- ===== src/Closing/Once.antt =====
-- A member is settled once: settling again, as a resumed close does, changes nothing.
use queens.Prelude.{
  ℕ, ◌≡◌, refl, sym, ap, subst, ◌∙◌, ◌≢◌, inl, inr, true, false, not, none, some, List, [], ◌∷◌,
  Bool-cases, Option-cases,
}
use queens.Prelude.Fallible.{Fallible, fail, done, ◌>>=◌, >>=-done, done-injective}
use queens.Prelude.Int.{ℤ}
use queens.Prelude.Text.{Text, text_eq_refl}
use queens.League.{LeagueConfig, outcome_for_zone, apply, is_zero, Tier}
use queens.Round.{round_start, round_index}
use queens.Group.{Member}
use queens.Absence.{
  Player, Summary, LeagueError, unknown_player, known_tier, insert_summary, has_key, reason_round,
}
use queens.Closing.{
  LeagueStore, RoundRow, get_player, update_tier, set_member_outcome, zone_of, round_summary,
  settle_player, settle_member,
}
use queens.Closing.Rows.{set_member_outcome_twice, get_player-update_tier, eqb_ℤ_refl}

module _ (cfg : LeagueConfig) (round : RoundRow) (size : ℕ) (now : ℤ) (m : Member) where
  -- Whether a summary is there does not depend on the row of the player.
  has_key_same :
      (ss : List Summary) (p q : Player)
      → has_key ss (round_summary cfg round size now m p)
        ≡ has_key ss (round_summary cfg round size now m q)
  unfolding has_key
  has_key_same [] p q = refl
  has_key_same (s ∷ ss) p q = rw (has_key_same ss p q) refl

  -- The summary is found once it is there.
  has_key_added :
      (ss : List Summary) (p q : Player)
      → has_key (round_summary cfg round size now m p ∷ ss) (round_summary cfg round size now m q)
        ≡ true
  unfolding has_key
  has_key_added ss p q =
      rw
        (
          text_eq_refl m.player_id,
          text_eq_refl round.tier,
          eqb_ℤ_refl round.round_index,
          text_eq_refl reason_round,
        )
        refl

  insert_summary-again :
      (ss : List Summary) (s : Summary) → has_key ss s ≡ true → insert_summary ss s ≡ (ss, false)
  unfolding insert_summary
  insert_summary-again ss s h = rw h refl

  -- Settling a player leaves the member rows and the group, keeps every player in the table, and
  -- leaves a summary with the key.
  record Settled (st st' : LeagueStore) : Type 0 where
    same_rows : st'.members ≡ st.members
    same_group : st'.group_open ≡ st.group_open
    keeps :
        (id : Text) (x : Player)
        → get_player st.players id ≡ some x
        → (q : Player) × (get_player st'.players id ≡ some q)
    has_summary : (q : Player) → has_key st'.summaries (round_summary cfg round size now m q) ≡ true

  settle_old :
      (p : Player) (st : LeagueStore)
      → has_key st.summaries (round_summary cfg round size now m p) ≡ true
      → settle_player cfg round size now m p st ≡ done st
  unfolding settle_player
  settle_old p st h =
      rw (insert_summary-again st.summaries (round_summary cfg round size now m p) h) refl

  -- The tier that the member goes to.
  abbrev after : Text
  after = apply cfg round.tier (outcome_for_zone (zone_of m))

  moved_store : Player → Tier → LeagueStore → LeagueStore
  moved_store p t st = record st {
    summaries = round_summary cfg round size now m p ∷ st.summaries;
    players =
        update_tier st.players m.player_id round.tier after round.ends_at
          (round_start t (round_index t round.ends_at));
  }

  settle_new :
      (p : Player) (st : LeagueStore)
      → has_key st.summaries (round_summary cfg round size now m p) ≡ false
      → settle_player cfg round size now m p st
        ≡ (known_tier cfg after >>= λ t. done (moved_store p t st))
  unfolding settle_player insert_summary moved_store
  settle_new p st h = rw h refl

  moved_store-Settled :
      (p : Player) (t : Tier) (st : LeagueStore)
      → has_key st.summaries (round_summary cfg round size now m p) ≡ false
      → Settled st (moved_store p t st)
  unfolding moved_store
  moved_store-Settled p t st new = record {
    same_rows = refl;
    same_group = refl;
    keeps =
        λ id x found. get_player-update_tier st.players id m.player_id round.tier after _ _ x found;
    has_summary = λ q. has_key_added st.summaries p q;
  }

  settle_player-Settled :
      (p : Player) (st st' : LeagueStore)
      → settle_player cfg round size now m p st ≡ done st'
      → Settled st st'
  settle_player-Settled p st st' h =
      elim (Bool-cases (has_key st.summaries (round_summary cfg round size now m p))) [
        | inl old ↦ subst (Settled st) (done-injective (sym (settle_old p st old) ∙ h)) (record {
          same_rows = refl;
          same_group = refl;
          keeps = λ id x found. (x, found);
          has_summary = λ q. sym (has_key_same st.summaries p q) ∙ old;
        })
        | inr new ↦
            let (t, known, e) =
              >>=-done (known_tier cfg after) (λ t. done (moved_store p t st))
                (sym (settle_new p st new) ∙ h) in
            subst (Settled st) (done-injective e) (moved_store-Settled p t st new)
      ]

  -- The store with the outcome of the member on its row.
  abbrev mark : LeagueStore → LeagueStore
  mark st = record st {
    members =
        set_member_outcome st.members m.player_id m.rank (zone_of m) (outcome_for_zone (zone_of m));
  }

  mark-same : (st st' : LeagueStore) → st'.members ≡ (mark st).members → mark st' ≡ st'
  mark-same st st' e =
      ap (λ rows. record st' { members = rows })
        (ap
            (λ rows.
              set_member_outcome rows m.player_id m.rank (zone_of m) (outcome_for_zone (zone_of m)))
            e
          ∙ set_member_outcome_twice st.members m.player_id m.rank (zone_of m)
              (outcome_for_zone (zone_of m))
          ∙ sym e)

  settle_bot : (st : LeagueStore) → m.bot ≡ true → settle_member cfg round size now m st ≡ done st
  unfolding settle_member
  settle_bot st b = rw b refl

  settle_left :
      (st : LeagueStore)
      → m.bot ≡ false
      → not (is_zero m.left_at) ≡ true
      → settle_member cfg round size now m st ≡ done (mark st)
  unfolding settle_member
  settle_left st b l = rw (b, l) refl

  settle_missing :
      (st : LeagueStore)
      → m.bot ≡ false
      → not (is_zero m.left_at) ≡ false
      → get_player st.players m.player_id ≡ none
      → settle_member cfg round size now m st ≡ fail (unknown_player m.player_id)
  unfolding settle_member
  settle_missing st b l p = rw (b, l, p) refl

  settle_present :
      (st : LeagueStore) (p : Player)
      → m.bot ≡ false
      → not (is_zero m.left_at) ≡ false
      → get_player st.players m.player_id ≡ some p
      → settle_member cfg round size now m st ≡ settle_player cfg round size now m p (mark st)
  unfolding settle_member settle_player
  settle_present st p b l e = rw (b, l, e) refl

  fail≢done :
      {e : LeagueError} {st : LeagueStore}
      → ◌≢◌ {A = Fallible LeagueError LeagueStore} (fail e) (done st)
  fail≢done h = cc

  settle_member_present :
      (st st' : LeagueStore) (p : Player)
      → m.bot ≡ false
      → not (is_zero m.left_at) ≡ false
      → get_player st.players m.player_id ≡ some p
      → settle_member cfg round size now m st ≡ done st'
      → settle_member cfg round size now m st' ≡ done st'
  settle_member_present st st' p b l e h =
      let s = settle_player-Settled p (mark st) st' (sym (settle_present st p b l e) ∙ h) in
      let (q, found) = s.keeps m.player_id p e in
      settle_present st' q b l found
      ∙ ap (settle_player cfg round size now m q) (mark-same st st' s.same_rows)
      ∙ settle_old q st' (s.has_summary q)

  -- A member is settled once. Where settling a member succeeds, settling the same member again, whether
  -- a bot, one who left in mid-round or one with a place in the table, changes nothing: the summary
  -- that is there keeps the tier from moving a second time.
  pub settle_member_twice :
      (st st' : LeagueStore)
      → settle_member cfg round size now m st ≡ done st'
      → settle_member cfg round size now m st' ≡ done st'
  settle_member_twice st st' h = elim (Bool-cases m.bot) [
    | inl bot ↦ settle_bot st' bot
    | inr b ↦ elim (Bool-cases (not (is_zero m.left_at))) [
      | inl left ↦
          let e : mark st ≡ st' = done-injective (sym (settle_left st b left) ∙ h) in
          settle_left st' b left
          ∙ ap done (mark-same st st' (ap (λ (x : LeagueStore). x.members) (sym e)))
      | inr stays ↦ elim (Option-cases (get_player st.players m.player_id)) [
        | inl missing ↦ absurd (fail≢done (sym (settle_missing st b stays missing) ∙ h))
        | inr (p, found) ↦ settle_member_present st st' p b stays found h
      ]
    ]
  ]
