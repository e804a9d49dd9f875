-- ===== src/Server/Signals.antt =====
-- How the agent of lib/snmpy/server.py ends: `end_agent`, the handler of SIGINT and SIGTERM, sets
-- `self.done`, and the loops of `start_snmpd` and `start_fetch` look at it before each round. The
-- rounds of a loop are counted by fuel, where the source has `while`.
pub mod Ends
use snmpy.Shared.{
  Bool, List, Option, Result, [], if◌then◌else◌, none, not, some, suc, true, zero, ℕ, ◌&&◌, ◌++◌,
  ◌+◌, false, ok, raise,
}
use snmpy.Shared.Int.{ℤ}
use snmpy.Agentx.Process.{Event, check_and_process}
use snmpy.Agentx.NetSnmp.{NetSnmp}
use snmpy.Server.{Content, Period, Server, fetch_once, pause}

-- A round of the main loop, as the system shows it: whether there is a child process when the loop
-- looks, what `select` returns, and whether a signal comes before the loop looks again.
pub record Seen : Type 0 where
  pub child : Bool
  pub selected : ℤ
  pub signal : Bool

-- end_agent(signum): `self.done` after it.
end_agent : Bool → Bool
end_agent done = true

after_round : Seen → Bool → Bool
unfolding end_agent
after_round seen done = if seen.signal then end_agent done else done

also : List Event → Option (List Event) → Option (List Event)
also events none = none
also events (some rest) = some (events ++ rest)

-- The loop of start_snmpd from round `i` on: the calls that it makes, `none` where the fuel is spent.
pub main_loop : ℕ → (ℕ → Seen) → ℕ → Bool → Option (List Event)
unfolding after_round also
main_loop zero seen i done = none
main_loop (suc fuel) seen i done =
    let rest = main_loop fuel seen (i + 1) (after_round (seen i) done) in
    if not done && (seen i).child
    then also (check_and_process true (seen i).selected) rest
    else some []

module _ (n : NetSnmp) where
  -- What comes behind a round, given what comes after the sleep.
  while_pause :
      Result Bool
      → Content × Server n
      → Option (Result (Unit {0}) × Content × Server n)
      → Option (Result (Unit {0}) × Content × Server n)
  while_pause (raise e) st rest = some (raise e, st.0, st.1)
  while_pause (ok false) st rest = some (ok tt, st.0, st.1)
  while_pause (ok true) st rest = rest

  -- The loop of start_fetch from round `i` on: `done i` is `self.done` when it looks for round `i`.
  pub fetch_while :
      ℕ
      → Period
      → (ℕ → Bool)
      → (ℕ → Content → Result (Unit {0}) × Content)
      → ℕ
      → Content × Server n
      → Option (Result (Unit {0}) × Content × Server n)
  fetch_while zero period done update i st = none
  fetch_while (suc fuel) period done update i st =
      let st' = fetch_once n (update i) st in
      let rest = fetch_while fuel period done update (i + 1) st' in
      if done i then some (ok tt, st.0, st.1) else while_pause (pause period) st' rest
