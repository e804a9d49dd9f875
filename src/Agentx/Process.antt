-- ===== src/Agentx/Process.antt =====
-- `check_and_process` of lib/snmpy/agentx.py: the calls that it makes, in their order. What `select`
-- returns is a parameter.
use snmpy.Shared.{Bool, List, [], false, suc, true, zero, ◌++◌, ◌∷◌}
use snmpy.Shared.Int.{negsuc, pos, ℤ}

pub data Event : Type 0 where
  acquire release : Event
  snmp_read snmp_timeout store_if_needed run_alarms check_outstanding_requests : Event

-- `if lock:` around the calls.
under : Bool → List Event → List Event
under false calls = calls
under true calls = acquire ∷ calls ++ release ∷ []

-- What is done in each case but an error of `select`.
finish : Bool → List Event
unfolding under
finish lock = under lock (store_if_needed ∷ run_alarms ∷ check_outstanding_requests ∷ [])

-- check_and_process(lock)
unfoldable pub check_and_process : Bool → ℤ → List Event
unfolding under finish
check_and_process lock (pos zero) = snmp_timeout ∷ finish lock
check_and_process lock (pos (suc count)) = under lock (snmp_read ∷ []) ++ finish lock
check_and_process lock (negsuc _) = []
