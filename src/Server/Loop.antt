-- ===== src/Server/Loop.antt =====
-- The main loop of lib/snmpy/server.py and its lock.
use snmpy.Shared.{
  Bool, Bool-cases, List, Option, [], false, if◌then◌else◌, inl, inr, none, not, refl, some, suc,
  true, zero, ◌&&◌, ◌++◌, ◌∙◌, ◌∷◌, ◌≡◌,
}
use snmpy.Shared.Int.{negsuc, pos, ℤ}
use snmpy.Agentx.Process.{
  Event, acquire, check_and_process, check_outstanding_requests, release, run_alarms, snmp_read,
  snmp_timeout, store_if_needed,
}

-- Before a round: `self.done`, and whether `multiprocessing.active_children()` has a child; in it, what
-- `select` returns.
pub record Round : Type 0 where
  pub done : Bool
  pub children : Bool
  pub count : ℤ

-- The loop of start_snmpd.
unfoldable pub start_snmpd : List Round → List Event
start_snmpd [] = []
start_snmpd (r ∷ rs) =
    let rest = start_snmpd rs in
    if not r.done && r.children then check_and_process true r.count ++ rest else []

-- The lock after an event; `none` where a free lock is released, a held one is acquired, or net-snmp
-- reads a request, works off an outstanding one or runs an alarm while the lock is not held.
unfoldable pub step : Event → Bool → Option Bool
step acquire false = some true
step acquire true = none
step release true = some false
step release false = none
step snmp_timeout held = some held
step snmp_read held = if held then some true else none
step store_if_needed held = if held then some true else none
step run_alarms held = if held then some true else none
step check_outstanding_requests held = if held then some true else none

unfoldable pub steps : List Event → Bool → Option Bool
steps [] held = some held
steps (e ∷ es) held = elim (step e held) [ none ↦ none | some held' ↦ steps es held' ]

steps-check_and_process :
    (count : ℤ) (rest : List Event)
    → steps (check_and_process true count ++ rest) false ≡ steps rest false
unfolding steps step check_and_process
steps-check_and_process (pos zero) rest = refl
steps-check_and_process (pos (suc n)) rest = refl
steps-check_and_process (negsuc n) rest = refl

-- Throughout the main loop, net-snmp reads requests, works off outstanding ones and runs its alarms
-- only while the loop holds the lock; the lock is never acquired twice, and it is free after the loop.
pub start_snmpd-steps : (rs : List Round) → steps (start_snmpd rs) false ≡ some false
unfolding start_snmpd steps
start_snmpd-steps [] = refl
start_snmpd-steps (r ∷ rs) = elim (Bool-cases (not r.done && r.children)) [
  | inl goes_on ↦
      rw (goes_on, start_snmpd)
        (steps-check_and_process r.count (start_snmpd rs) ∙ start_snmpd-steps rs)
  | inr ended ↦ rw (ended, start_snmpd) refl
]
