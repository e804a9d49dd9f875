-- ===== src/Server/Startup/Tests.antt =====
-- A start of the agent with two plugins.
use snmpy.Shared.{
  All, Distinct, List, [], arith, false, none, ok, refl, ◌∷◌, ◌≡◌, ◌≢◌, inl, some, true, ℕ, ◌==◌,
}
use snmpy.Shared.Text.{Text, codes, text_eq, text_eq_iff}
use snmpy.Shared.Values.{int}
use snmpy.Shared.Int.{pos}
use snmpy.Module.Item.{Item}
use snmpy.Mibgen.Syntax.{integer32_syntax}
use snmpy.Mibgen.Names.{get_oidstr, camel_case}
use snmpy.Agentx.NetSnmp.Simple.{simple}
use snmpy.Agentx.Agent.{Agent, start}
use snmpy.Server.{Plugin, minutes, once, start_agent, table_module, value_module}
use snmpy.Server.Startup.Plugins.{IsServed}
use snmpy.Server.Startup.Registered.{plugins_oid, start_agent-IsServed, version_oid}
use snmpy.Mib.Create.{MibConf}
use snmpy.Server.Loop.{start_snmpd, steps}
use snmpy.Server.Signals.{Seen}
use snmpy.Server.Signals.Ends.{rounds_seen}
use snmpy.Server.Whole.{agent_init}
use snmpy.Server.Whole.Lifetime.{agent_init-IsServed}
use snmpy.Server.Startup.Sequence.{HaveNames}
use snmpy.Mib.Create.Made.{CanDeclare}

abbrev used : Item
used = record {
  oidnum = 1;
  oidstr = codes "SNMPY-MIB::snmpyLoadUsed";
  syntax = integer32_syntax;
  regex = none;
  cdef = none;
  join = [];
  value = int (pos 4);
}

abbrev loads : Plugin
loads = record {
  name = codes "load";
  index = 1;
  period = minutes 1;
  save = false;
  content =
      value_module
        (record { name = codes "load"; save = false; items = (codes "used", used) ∷ [] });
}

abbrev disks : Plugin
disks = record {
  name = codes "disk";
  index = 2;
  period = once;
  save = false;
  content =
      table_module
        (record { name = codes "disk"; save = false; cols = (codes "used", used) ∷ []; rows = [] });
}

abbrev oids : List Text
oids = codes "SNMPY-MIB::snmpyLoadUsed" ∷ codes "SNMPY-MIB::snmpyDiskTable" ∷ []

disks_named :
    get_oidstr (codes "disk" ∷ codes "table" ∷ []) ≡ ok (codes "SNMPY-MIB::snmpyDiskTable")
unfolding get_oidstr
disks_named = refl

differ : (s t : Text) → text_eq s t ≡ false → s ≢ t
differ s t h = ground (arith, text_eq_iff s t)

oids-Distinct : Distinct (version_oid ∷ plugins_oid ∷ oids)
unfolding text_eq
oids-Distinct = (
  (differ _ _ refl, (differ _ _ refl, (differ _ _ refl, tt))),
  ((differ _ _ refl, (differ _ _ refl, tt)), ((differ _ _ refl, tt), (tt, tt))),
)

plugins_named : HaveNames (loads ∷ disks ∷ []) oids
plugins_named = (
  codes "SNMPY-MIB::snmpyLoadUsed" ∷ [],
  codes "SNMPY-MIB::snmpyDiskTable" ∷ [],
  refl,
  (
    codes "SNMPY-MIB::snmpyDiskTable" ∷ [],
    [],
    (codes "SNMPY-MIB::snmpyDiskTable", disks_named, refl),
    refl,
    refl,
  ),
  refl,
)

start_agent-IsServed_example :
    (b : Agent simple) × (start_agent simple
        (codes "1.0")
        (loads ∷ disks ∷ [])
        (record { agent = start simple; fetching = [] })
      ≡ (ok tt, record { agent = b; fetching = loads ∷ disks ∷ [] }))
    × All (λ p. IsServed simple b p.content) (loads ∷ disks ∷ [])
    × (b.handlers ≡ version_oid ∷ plugins_oid ∷ oids)
start_agent-IsServed_example =
    start_agent-IsServed simple (codes "1.0") (loads ∷ disks ∷ []) oids (omega arith) plugins_named
      oids-Distinct ((tt, tt), (tt, tt))

abbrev root : MibConf
root = record { parent = codes "enterprises"; system = codes "1123" }

named : All CanDeclare (loads ∷ disks ∷ [])
unfolding camel_case
named = (
  ((codes "Load", refl), ((codes "Used", refl), tt)),
  (((codes "Disk", refl), ((codes "Used", refl), tt)), tt),
)

-- A signal in the first round.
abbrev signalled : ℕ → Seen
signalled i = record { child = true; selected = pos 0; signal = i == 0 }

agent_init-IsServed_example :
    (b : Agent simple) × (agent_init simple root
        (codes "today")
        (codes "1.0")
        (loads ∷ disks ∷ [])
        3
        signalled
      ≡ some (
        ok (start_snmpd (rounds_seen 0 signalled 0 false)),
        record { agent = b; fetching = loads ∷ disks ∷ [] },
      ))
    × (b.handlers ≡ version_oid ∷ plugins_oid ∷ oids)
    × All (λ p. IsServed simple b p.content) (loads ∷ disks ∷ [])
    × (steps (start_snmpd (rounds_seen 0 signalled 0 false)) false ≡ some false)
agent_init-IsServed_example =
    agent_init-IsServed simple root (codes "today") (codes "1.0") (loads ∷ disks ∷ []) oids 0 3
      signalled named (omega arith) plugins_named oids-Distinct ((tt, tt), (tt, tt)) (inl refl)
      (omega arith)
