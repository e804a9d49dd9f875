-- ===== src/Tasks.antt =====
-- lib/snmpy/__init__.py: background tasks. A thread or process runs `work_func`, in which no exception
-- is left: `log_fatal` ends the whole process.
pub mod Log
pub mod Work
mod Tests
use snmpy.Shared.{Exc, Result, ok, raise, ℕ}

pub data Outcome : Type 0 where
  finished : Outcome
  exited : ℕ → Outcome

-- log_fatal(e), whose `exit` is 1
unfoldable pub log_fatal : Exc → Outcome
log_fatal e = exited 1

-- work_func, for how `func` ends
unfoldable pub work_func {ℓ} : {A : Type ℓ} → Result A → Outcome
unfolding log_fatal
work_func (ok _) = finished
work_func (raise e) = log_fatal e
