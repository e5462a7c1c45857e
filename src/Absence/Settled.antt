-- ===== src/Absence/Settled.antt =====
-- `catchUp` settles every missed round, and a second run at the same instant changes nothing.
use queens.Prelude.{
  ℕ, ◌≡◌, refl, sym, ap, subst, ◌∙◌, inl, inr, true, false, some, List, arith, Bool-cases, set,
}
use queens.Prelude.Fallible.{done}
use queens.Prelude.Int.{ℤ, pos, pos_part, leb_ℤ, ◌-ℤ◌, -ℤ_parts}
use queens.Prelude.Text.{Text, text_eq, text_eq_refl, text_eq→eq}
use queens.League.{Tier, LeagueConfig, tier_by_id}
use queens.League.Ladder.{DistinctIds}
use queens.Round.{round_index, round_start}
use queens.Round.Calendar.{round_index-round_start}
use queens.Absence.{
  Player, Summary, tier_after_absence, insert_summary, absence_summary, set_tier, move_absent,
  settle_missed, settle_absence,
}
use queens.Absence.Rounds.{known_tier-done, place_of, miss_all, tier_after_absence-miss_all}

set_tier_lem :
    (p : Player) (to : Text) (since settled : ℤ)
    → (q : Player) × (set_tier p p.tier to since settled ≡ some q)
      × (q.tier ≡ to)
      × (q.settled_round_end ≡ settled)
unfolding set_tier
set_tier_lem p to since settled = elim (Bool-cases (text_eq p.tier to)) [
  | inl same ↦ rw (text_eq_refl p.tier, same) (_, refl, text_eq→eq p.tier to same, refl)
  | inr differ ↦ rw (text_eq_refl p.tier, differ) (_, refl, refl, refl)
]

-- No round is missed since the start of the current one.
none_missed :
    (t : Tier) (now : ℤ)
    → leb_ℤ (round_index t now -ℤ round_index t (round_start t (round_index t now))) (pos 0) ≡ true
none_missed t now = rw (round_index-round_start t now) (settled_diff (round_index t now))
  where
    settled_diff : (i : ℤ) → leb_ℤ (i -ℤ i) (pos 0) ≡ true
    settled_diff i = ground (arith, -ℤ_parts i i)

-- The rounds that a player missed, as `catchUp` counts them.
abbrev missed_rounds : Tier → ℤ → Player → ℕ
missed_rounds t now p = pos_part (round_index t now -ℤ round_index t p.settled_round_end)

-- The player and the summaries after a catch-up that does not fail.
pub record Settles (cfg : LeagueConfig) (now : ℤ) (p : Player) (ss : List Summary) (t : Tier)
    : Type 0 where
  pub player : Player
  pub summaries : List Summary
  pub settles : settle_absence cfg now p ss ≡ done (player, summaries)
  pub moved : player.tier ≡ miss_all cfg (missed_rounds t now p) p.tier
  pub again : settle_absence cfg now player summaries ≡ done (player, summaries)

-- Nothing happens where no round was missed.
settle_nothing :
    (cfg : LeagueConfig) (now : ℤ) (p : Player) (ss : List Summary) (t : Tier)
    → tier_by_id cfg p.tier ≡ some t
    → leb_ℤ (round_index t now -ℤ round_index t p.settled_round_end) (pos 0) ≡ true
    → settle_absence cfg now p ss ≡ done (p, ss)
unfolding settle_absence
settle_nothing cfg now p ss t e h = rw (known_tier-done cfg p.tier t e, h) refl

not_positive : (z : ℤ) → leb_ℤ z (pos 0) ≡ true → pos_part z ≡ 0
not_positive z h = ground arith

move_absent-done :
    (now : ℤ) (p : Player) (ss : List Summary) (after : Tier) (to : Text) (q : Player)
    → set_tier p p.tier to now (round_start after (round_index after now)) ≡ some q
    → move_absent now p ss after to ≡ done (q, ss)
unfolding move_absent
move_absent-done now p ss after to q e = rw (e, move_absent) refl

module _ (cfg : LeagueConfig) (now : ℤ) (p : Player) (ss : List Summary) (t : Tier)
    (d : DistinctIds cfg.tiers) (e : tier_by_id cfg p.tier ≡ some t) where
  nothing_missed :
      leb_ℤ (round_index t now -ℤ round_index t p.settled_round_end) (pos 0) ≡ true
      → Settles cfg now p ss t
  unfolding miss_all
  nothing_missed h = record {
    player = p;
    summaries = ss;
    settles = settle_nothing cfg now p ss t e h;
    moved = rw (not_positive (round_index t now -ℤ round_index t p.settled_round_end) h) refl;
    again = settle_nothing cfg now p ss t e h;
  }

  -- Where rounds were missed, the player moves to `u`.
  settle_missed_lem :
      (u : Tier) (missed : ℕ)
      → tier_after_absence cfg t missed ≡ done u
      → tier_by_id cfg u.id ≡ some u
      → (q : Player) × (ss' : List Summary) × (settle_missed cfg now p ss t missed ≡ done (q, ss'))
        × (q.tier ≡ u.id)
        × (q.settled_round_end ≡ round_start u (round_index u now))
  unfolding settle_missed
  settle_missed_lem u missed walked known =
      let (q, set, moved, settled) = set_tier_lem p u.id now (round_start u (round_index u now)) in
      (
        q,
        (insert_summary ss (absence_summary now p t t u)).0,
        rw (walked, known_tier-done cfg p.tier t e, known_tier-done cfg u.id u known)
            (move_absent-done now p (insert_summary ss (absence_summary now p t t u)).0 u u.id q
              set),
        moved,
        settled,
      )

  settle_absence-missed :
      leb_ℤ (round_index t now -ℤ round_index t p.settled_round_end) (pos 0) ≡ false
      → settle_absence cfg now p ss ≡ settle_missed cfg now p ss t (missed_rounds t now p)
  unfolding settle_absence
  settle_absence-missed h = rw (known_tier-done cfg p.tier t e, h) refl

  some_missed :
      leb_ℤ (round_index t now -ℤ round_index t p.settled_round_end) (pos 0) ≡ false
      → Settles cfg now p ss t
  some_missed h =
      let m = missed_rounds t now p in
      let (k, lt, place) = place_of cfg p.tier t e in
      let (u, walked, (by_id, same)) =
        tier_after_absence-miss_all cfg m k t d lt
          (subst (λ i. tier_by_id cfg i ≡ some t) place e) in
      let known : tier_by_id cfg u.id ≡ some u =
        subst (λ i. tier_by_id cfg i ≡ some u) (sym same) by_id in
      let (q, ss', result, moved, settled) = settle_missed_lem u m walked known in
      record {
        player = q;
        summaries = ss';
        settles = settle_absence-missed h ∙ result;
        moved = moved ∙ same ∙ ap (miss_all cfg m) (sym place);
        again =
            settle_nothing cfg now q ss' u
              (subst (λ i. tier_by_id cfg i ≡ some u) (sym moved) known)
              (rw settled (none_missed u now));
      }

  -- In a ladder with different tier ids, `catchUp` settles the absence of a player of a known tier
  -- without an error: the player lands in the tier that settling the missed rounds one by one leads
  -- to, and a second run at the same instant changes neither player nor summaries.
  pub settle_absence-Settles : Settles cfg now p ss t
  settle_absence-Settles =
      elim (Bool-cases (leb_ℤ (round_index t now -ℤ round_index t p.settled_round_end) (pos 0))) [
        | inl h ↦ nothing_missed h
        | inr h ↦ some_missed h
      ]
