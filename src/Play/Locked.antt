-- ===== src/Play/Locked.antt =====
-- The cooldown of a level: a start locks it.
use queens.Prelude.Fallible.{Fallible}
use queens.Prelude.Text.{Text}
use queens.World.{World}
