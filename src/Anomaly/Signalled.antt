-- ===== src/Anomaly/Signalled.antt =====
-- Whose rows a signal changes.
use queens.Prelude.{
  ◌≡◌, refl, sym, ap, ◌∙◌, ◌≢◌, inl, inr, Bool, false, Option, none, some, List, [], ◌∷◌, map,
  Bool-cases, if_true, if_false, if◌then◌else◌,
}
use queens.Prelude.Fallible.{done, done-injective}
use queens.Prelude.Int.{ℤ}
use queens.Prelude.Text.{Text, text_eq, text_eq→eq, text_eq_ne}
use queens.Float.{Float64}
use queens.Anomaly.{Signals, Flag, AnomalyRow, read_anomaly, anomaly_row, flag_found, flag}

module _ (fl : Float64) where
  -- One flag of the player is new, and the score of every other player is as it was.
  pub record IsSignalOf (id : Text) (before after : Signals fl) : Type 0 where
    pub raised : Flag fl
    pub is_own : raised.player_id ≡ id
    pub flags_kept : after.flags ≡ raised ∷ before.flags
    pub others_kept :
        (other : Text)
        → other ≢ id
        → read_anomaly fl after.scores other ≡ read_anomaly fl before.scores other

  read_anomaly-others :
      (rs : List (AnomalyRow fl)) (id other : Text) (score : fl.Float) (at : ℤ) (shadow : Bool)
      → other ≢ id
      → read_anomaly fl (map (anomaly_row fl id score at shadow) rs) other
        ≡ read_anomaly fl rs other
  unfolding read_anomaly anomaly_row
  read_anomaly-others [] id other score at shadow differ = refl
  read_anomaly-others (r ∷ rs) id other score at shadow differ =
      let rest = read_anomaly-others rs id other score at shadow differ in
      elim (Bool-cases (text_eq r.player_id id)) [
        | inl y ↦
            let apart : text_eq r.player_id other ≡ false =
              text_eq_ne (λ e. differ (sym e ∙ text_eq→eq r.player_id id y)) in
            ap (λ x. read_anomaly fl (x ∷ map (anomaly_row fl id score at shadow) rs) other)
              (if_true _ y)
            ∙ if_false _ apart
            ∙ rest
            ∙ sym (if_false _ apart)
        | inr n ↦
            ap (λ x. read_anomaly fl (x ∷ map (anomaly_row fl id score at shadow) rs) other)
              (if_false _ n)
            ∙ ap (λ o. if text_eq r.player_id other then some r else o) rest
      ]

  flag_found-IsSignalOf :
      (now : ℤ) (id signal : Text) (weight : fl.Float) (st after : Signals fl)
      (o : Option (AnomalyRow fl))
      → flag_found fl now id signal weight st o ≡ done after
      → IsSignalOf id st after
  unfolding flag_found
  flag_found-IsSignalOf now id signal weight st after none h = absurd (cc h)
  flag_found-IsSignalOf now id signal weight st after (some r) h =
      let e = done-injective h in
      record {
        raised = record { player_id = id; signal = signal; weight = weight; created_at = now };
        is_own = refl;
        flags_kept = ap (λ (x : Signals fl). x.flags) (sym e);
        others_kept = λ other differ.
            ap (λ (x : Signals fl). read_anomaly fl x.scores other) (sym e)
            ∙ read_anomaly-others st.scores id other _ now _ differ;
      }

  -- `flag` raises one flag of its player.
  pub flag-IsSignalOf :
      (now : ℤ) (id signal : Text) (weight : fl.Float) (st after : Signals fl)
      → flag fl now id signal weight st ≡ done after
      → IsSignalOf id st after
  unfolding flag
  flag-IsSignalOf now id signal weight st after h =
      flag_found-IsSignalOf now id signal weight st after (read_anomaly fl st.scores id) h
