-- ===== src/Payloads/Spent.antt =====
-- A session backs one result.
use queens.Prelude.{◌≡◌, ◌⊎◌, false, some}
use queens.Prelude.Fallible.{Fallible}
use queens.Prelude.Text.{Text, text_eq}
use queens.Float.{Float64}
use queens.GroupTable.{is_none}
use queens.Anomaly.{Signals}
use queens.Anomaly.Signalled.{IsSignalOf}
use queens.Sessions.{Session, get_session, spent_by}
use queens.Transaction.{Attempt, refused, kept, ApiError}
use queens.World.{World}

module _ (fl : Float64) where
  -- A session that passed: its row, spent by the result.
  abbrev pub IsSpent : World fl → Text → Text → Type 0
  IsSpent w id result =
      (s : Session) × (get_session w.sessions id ≡ some s)
      × (is_none s.consumed_at ≡ false)
      × ((other : Text) → spent_by s other ≡ text_eq result other)

  -- A request of a player that fails: nothing is kept, or nothing but one signal of that player.
  abbrev pub Fails : {A : Type 0} → Text → World fl → Attempt (World fl) A → Type 0
  Fails id w m =
      (e : ApiError) × ((m ≡ refused e)
        ⊎ ((g : Signals fl) × IsSignalOf fl id w.signals g
            × (m ≡ kept (record w { signals = g }) e)))
