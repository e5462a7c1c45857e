-- ===== src/Closer/Finished.antt =====
-- `CloseRound` ends, with every group of the round closed and the round closed.
use queens.Prelude.{
  ℕ, suc, ◌≡◌, refl, sym, ap, ◌∙◌, inl, inr, true, false, Option, some, List, [], ◌∷◌, arith, ◌==◌,
  Bool-cases, length, if_true, if_false, and_false_right, both_true,
}
use mathlib.Core.Option
use queens.Prelude.Fallible.{done, >>=-done, done-injective}
use queens.Prelude.Int.{ℤ}
use queens.Prelude.Text.{Text}
use queens.Float.{Float64}
use queens.League.{LeagueConfig}
use queens.Freeze.{
  Round, RoundState, round_open, round_closing, round_closed, is_open, is_closing, is_round,
  get_round, finish_row, finish_rows, claim_round,
}
use queens.Freeze.Rows.{get_round-update, finish_row-SameKeys, get_round-is_round}
use queens.Freeze.Claim.{claim_round-closing}
use queens.Closer.{
  LeagueTables, Names, open_groups, close_listed, close_loop, finish_closing, close_round,
}
use queens.Closer.Drained.{close_all-drains, close_listed-Closes}

length-none : {A : Type 0} (l : List A) → (length l == 0) ≡ true → l ≡ []
length-none [] h = refl
length-none (x ∷ l) h = absurd (ground arith)

-- The state that `FinishRound` leaves a claimed round in.
finish_row-closed :
    (tier : Text) (idx now : ℤ) (r : Round)
    → is_round tier idx r ≡ true
    → is_open r.state ≡ false
    → (finish_row tier idx now r).state ≡ round_closed
unfolding finish_row
finish_row-closed tier idx now r key shut = elim (Bool-cases (is_closing r.state)) [
  | inl y ↦ ap (λ (x : Round). x.state) (if_true _ (both_true key y))
  | inr n ↦
      ap (λ (x : Round). x.state) (if_false _ (and_false_right (is_round tier idx r) n))
      ∙ neither r.state shut n
]
  where
    neither : (s : RoundState) → is_open s ≡ false → is_closing s ≡ false → s ≡ round_closed
    neither round_open h k = cc
    neither round_closing h k = cc
    neither round_closed h k = refl

module _ (fl : Float64) (names : Names) (cfg : LeagueConfig) where
  module _ (tier : Text) (idx ends_at now : ℤ) where
    -- With nothing open the loop is over.
    close_loop-over :
        (fuel : ℕ) (w : LeagueTables)
        → open_groups w.groups tier idx ≡ []
        → close_loop fl names cfg (suc fuel) tier idx ends_at now w ≡ done (some w)
    unfolding close_loop
    close_loop-over fuel w none_open = if_true _ (ap (λ l. length l == 0) none_open)

    close_loop-drains :
        (fuel : ℕ) (w : LeagueTables) (o : Option LeagueTables)
        → close_loop fl names cfg (suc (suc fuel)) tier idx ends_at now w ≡ done o
        → (w' : LeagueTables) × (o ≡ some w')
          × (open_groups w'.groups tier idx ≡ [])
          × (w'.rounds ≡ w.rounds)
    unfolding close_loop
    close_loop-drains fuel w o h =
        let groups = open_groups w.groups tier idx in
        elim (Bool-cases (length groups == 0)) [
          | inl y ↦ (w, sym (done-injective (sym (if_true _ y) ∙ h)), length-none groups y, refl)
          | inr n ↦
              let (w', pass, rest) =
                >>=-done (close_listed fl names cfg tier idx ends_at now groups w) _
                  (sym (if_false _ n) ∙ h) in
              let (closed, rounds) =
                close_listed-Closes fl names cfg tier idx ends_at now groups w w' pass in
              let drained : open_groups w'.groups tier idx ≡ [] =
                ap (λ x. open_groups x tier idx) closed ∙ close_all-drains tier idx w.groups in
              (
                w',
                sym (done-injective (sym (close_loop-over fuel w' drained) ∙ rest)),
                drained,
                rounds,
              )
        ]

  -- The loop of `CloseRound` lists the open groups at most twice: with fuel for two passes or more a
  -- closing that meets no error comes to its end. Then no group of the round is open, and the round
  -- is closed.
  pub close_round-ends :
      (fuel : ℕ) (round : Round) (now : ℤ) (w : LeagueTables) (o : Option LeagueTables)
      → close_round fl names cfg (suc (suc fuel)) round now w ≡ done o
      → (w' : LeagueTables) × (o ≡ some w')
        × (open_groups w'.groups round.tier round.round_index ≡ [])
        × (r : Round) × (get_round w'.rounds round.tier round.round_index ≡ some r)
        × (r.state ≡ round_closed)
  unfolding close_round finish_closing
  close_round-ends fuel round now w o h =
      let tier = round.tier in
      let idx = round.round_index in
      let (rounds, claim, rest) =
        >>=-done (claim_round fl cfg now w.players w.rounds tier idx) _ h in
      let claimed = record w { rounds = rounds } in
      let (closed, loop, finish) =
        >>=-done (close_loop fl names cfg (suc (suc fuel)) tier idx round.ends_at now claimed) _
          rest in
      let (v, is_v, drained, same) =
        close_loop-drains tier idx round.ends_at now fuel claimed closed loop in
      let (r, found, shut) =
        claim_round-closing fl cfg now w.players w.rounds rounds tier idx claim in
      let finished = finish_row tier idx now in
      (
        record v { rounds = finish_rows v.rounds tier idx now },
        sym (done-injective finish) ∙ ap (finish_closing tier idx now) is_v,
        drained,
        finished r,
        ap (λ x. get_round (finish_rows x tier idx now) tier idx) same
            ∙ get_round-update finished (finish_row-SameKeys tier idx now) rounds tier idx
            ∙ ap (Option.map finished) found,
        finish_row-closed tier idx now r (get_round-is_round rounds tier idx r found) shut,
      )
