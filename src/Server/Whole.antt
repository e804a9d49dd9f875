-- ===== src/Server/Whole.antt =====
-- `SnmpyAgent.__init__` of lib/snmpy/server.py: the text of the MIB, the start, and the main loop. The
-- HTTP process, which is started between, is among the children that the main loop sees.
pub mod Lifetime
use snmpy.Shared.{List, Option, Result, false, none, ok, raise, some, ℕ, []}
use snmpy.Shared.Text.{Text}
use snmpy.Agentx.Process.{Event}
use snmpy.Agentx.NetSnmp.{NetSnmp}
use snmpy.Agentx.Agent.{start}
use snmpy.Mib.Create.{MibConf, create_mib}
use snmpy.Server.{Plugin, start_agent, Starting}
use snmpy.Server.Signals.{Seen, main_loop}

module _ (n : NetSnmp) where
  new_agent : Starting n
  new_agent = record { agent = start n; fetching = [] }

  -- start_snmpd(), with the agent as it was started; `none` where the fuel is spent.
  serve : Starting n → Option (List Event) → Option (Result (List Event) × Starting n)
  serve a none = none
  serve a (some events) = some (ok events, a)

  run_started :
      Result (Unit {0}) × Starting n
      → Option (List Event)
      → Option (Result (List Event) × Starting n)
  unfolding serve
  run_started (raise e, a) served = some (raise e, a)
  run_started (ok _, a) served = serve a served

  run_agent :
      Result Text
      → Text
      → List Plugin
      → Option (List Event)
      → Option (Result (List Event) × Starting n)
  unfolding run_started new_agent
  run_agent (raise e) version ps served = some (raise e, new_agent)
  run_agent (ok mib) version ps served = run_started (start_agent n version ps new_agent) served

  -- SnmpyAgent(conf, mods), with the rounds that the main loop would see
  pub agent_init :
      MibConf
      → Text
      → Text
      → List Plugin
      → ℕ
      → (ℕ → Seen)
      → Option (Result (List Event) × Starting n)
  unfolding run_agent
  agent_init conf date version ps fuel seen =
      run_agent (create_mib none conf date ps).0 version ps (main_loop fuel seen 0 false)
