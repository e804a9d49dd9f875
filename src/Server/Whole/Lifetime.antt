-- ===== src/Server/Whole/Lifetime.antt =====
-- The agent of lib/snmpy/server.py from its start to its end.
use snmpy.Shared.{All, Distinct, List, false, length, ok, refl, some, ℕ, ◌+◌, ◌∷◌, ◌≡◌, ◌≤◌}
use snmpy.Shared.Text.{Text}
use snmpy.Agentx.NetSnmp.{NetSnmp}
use snmpy.Agentx.Agent.{Agent}
use snmpy.Agentx.Asn.{max_str_len}
use snmpy.Mib.Create.{MibConf}
use snmpy.Server.{Plugin}
use snmpy.Server.Signals.{Seen}
use snmpy.Server.Signals.Ends.{IsLast, main_loop_ends, rounds_seen}
use snmpy.Server.Loop.{start_snmpd, start_snmpd-steps, steps}
use snmpy.Server.Startup.Plugins.{IsReady, IsServed}
use snmpy.Server.Startup.Registered.{plugins_oid, start_agent-IsServed, version_oid}
use snmpy.Server.Startup.Sequence.{HaveNames}
use snmpy.Server.Whole.{agent_init, run_agent, run_started, serve, new_agent}
use snmpy.Mib.Create.Made.{CanDeclare, create_mib_made}

module _ (n : NetSnmp) where
  -- Of plugins whose names and keys have a camel case, whose object names are all different, and whose
  -- items have values that their objects hold, with a version of at most 1024 bytes: an agent that has a
  -- signal in round `k` of its main loop, or no child process behind it, registers its objects, each name
  -- once and in the order of the configuration, starts a fetch thread for each plugin in that order, and
  -- its main loop ends after the calls of the rounds up to `k`, as far as it goes on in them. In these
  -- calls the loop itself takes the lock only where it does not have it, gives it back only where it has
  -- it, and does not have it at the end; a fetch thread may have it then. `k` + 2 rounds are fuel enough.
  -- What the fetch threads do to the objects is not in it.
  pub agent_init-IsServed :
      (conf : MibConf) (date version : Text) (ps : List Plugin) (oids : List Text) (k fuel : ℕ)
      (seen : ℕ → Seen)
      → All CanDeclare ps
      → length version ≤ max_str_len
      → HaveNames ps oids
      → Distinct (version_oid ∷ plugins_oid ∷ oids)
      → All (λ p. IsReady p.content) ps
      → IsLast seen k
      → k + 2 ≤ fuel
      → (b : Agent n) × (agent_init n conf date version ps fuel seen
          ≡ some
              (ok (start_snmpd (rounds_seen k seen 0 false)), record { agent = b; fetching = ps }))
        × (b.handlers ≡ version_oid ∷ plugins_oid ∷ oids)
        × All (λ p. IsServed n b p.content) ps
        × (steps (start_snmpd (rounds_seen k seen 0 false)) false ≡ some false)
  unfolding agent_init run_agent run_started serve new_agent
  agent_init-IsServed conf date version ps oids k fuel seen can small named distinct ready last
        enough =
      let (text, mib) = create_mib_made conf date ps can in
      let (b, started, served, handlers) =
        start_agent-IsServed n version ps oids small named distinct ready in
      let (ends, rounds) = main_loop_ends k fuel seen last enough in
      (
        b,
        rw (mib, started, ends) refl,
        handlers,
        served,
        start_snmpd-steps (rounds_seen k seen 0 false),
      )
