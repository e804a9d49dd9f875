-- ===== src/Shared/Values.antt =====
-- The Python values that plugins compute and the agent serves: `None`, `int` (and `long`), `str`.
use snmpy.Shared.Int.{ℤ}
use snmpy.Shared.Text.{Text}

pub data Value : Type 0 where
  null : Value
  int : ℤ → Value
  str : Text → Value
