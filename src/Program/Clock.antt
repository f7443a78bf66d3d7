-- ===== src/Program/Clock.antt =====
-- The environment's step: time passes between two operations.
use sprintctl.Prelude.{ℕ, ◌+◌}
use sprintctl.Ledger.{Ledger, Action, ok}

abbrev pub later : ℕ → Ledger → Ledger
later seconds s = record s { clock = s.clock + seconds }

abbrev pub tick : ℕ → Action (Unit {0})
tick seconds s = (ok tt, later seconds s)
