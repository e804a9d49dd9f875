-- ===== src/Server/Tests.antt =====
-- The agent's commits at concrete inputs.
use snmpy.Shared.{
  All, Result, [], arith, false, length-replicate, none, ok, os_error, raise, refl, replicate,
  value_error, ℕ, ◌++◌, ◌∷◌, ◌≡◌, Exc, some, true, ◌↔◌, ◌==◌, length, ◌<◌, ◌⊎◌,
}
use snmpy.Shared.Text.{Text, codes, text_eq}
use snmpy.Shared.Values.{Value, int, null, str}
use snmpy.Shared.Dicts.{lookup}
use snmpy.Shared.Int.{pos}
use snmpy.Module.Item.{Item}
use snmpy.Module.Tables.{TableModule}
use snmpy.Mibgen.Syntax.{Syntax, counter64_syntax, integer32_syntax, octet_string_syntax}
use snmpy.Agentx.Asn.{bits, buffer, words}
use snmpy.Agentx.NetSnmp.Simple.{simple}
use snmpy.Agentx.Agent.{Agent, value}
use snmpy.Server.{
  Content, Plugin, Server, commit_items, fetch_loop, minutes, start_fetch, table_module,
  commit_data, once,
}
use snmpy.Server.Commit.{IsRegistered, Shows, commit_items_lem}
use snmpy.Server.Abort.{commit_items_long}
use snmpy.Server.Fetch.{start_fetch-locked}
use snmpy.Server.Exits.{start_fetch-exits, IsBadPeriod}
use snmpy.Server.Signals.{fetch_while}
use snmpy.Server.Signals.Ends.{fetch_while_ends, updates_seen}
use snmpy.Tasks.{exited, work_func}

abbrev item_of : Text → Syntax → Value → Item
item_of name k v = record {
  oidnum = 1;
  oidstr = name;
  syntax = k;
  regex = none;
  cdef = none;
  join = [];
  value = v;
}

abbrev used : Item
used = item_of (codes "used") integer32_syntax (int (pos 4))

abbrev none_yet : Item
none_yet = item_of (codes "free") counter64_syntax null

abbrev blank : Text
blank = replicate 1024 0

abbrev too_long : Text
too_long = replicate 1025 b'x'

abbrev verbose : Item
verbose = item_of (codes "status") octet_string_syntax (str too_long)

abbrev load_agent : Agent simple
load_agent = record {
  objects =
      (codes "used", value (record { body = bits 0; watcher = none }))
      ∷ (codes "free", value (record { body = words 0 9; watcher = none }))
      ∷ (codes "status", value (record { body = buffer blank; watcher = none }))
      ∷ [];
  handlers = codes "used" ∷ codes "free" ∷ codes "status" ∷ [];
}

used_differs : text_eq (codes "used") (codes "free") ≡ false
unfolding text_eq
used_differs = refl

used_is_not_status : text_eq (codes "used") (codes "status") ≡ false
unfolding text_eq
used_is_not_status = refl

free_is_not_status : text_eq (codes "free") (codes "status") ≡ false
unfolding text_eq
free_is_not_status = refl

used-IsRegistered : IsRegistered simple load_agent used
unfolding lookup text_eq
used-IsRegistered = record { body = bits 0; watcher = none; found = refl; of_class = tt }

free-IsRegistered : IsRegistered simple load_agent none_yet
unfolding lookup text_eq
free-IsRegistered = record { body = words 0 9; watcher = none; found = refl; of_class = tt }

status-IsRegistered : IsRegistered simple load_agent verbose
unfolding lookup text_eq
status-IsRegistered = record {
  body = buffer blank;
  watcher = none;
  found = refl;
  of_class = length-replicate {A = ℕ} 1024 0;
}

commit_items_lem_example :
    (b : Agent simple) × (commit_items simple (used ∷ none_yet ∷ []) load_agent ≡ (ok tt, b))
    × All (Shows simple load_agent b) (used ∷ none_yet ∷ [])
    × ((j : Text)
        → All (λ item. text_eq item.oidstr j ≡ false) (used ∷ none_yet ∷ [])
        → lookup j b.objects ≡ lookup j load_agent.objects)
commit_items_lem_example =
    commit_items_lem simple (used ∷ none_yet ∷ []) load_agent ((used_differs, tt), (tt, tt))
      (used-IsRegistered, (free-IsRegistered, tt)) (tt, (tt, tt))

commit_items_long_example :
    (b : Agent simple) × (commit_items simple ((used ∷ []) ++ verbose ∷ none_yet ∷ []) load_agent
      ≡ (raise value_error, b))
    × All (Shows simple load_agent b) (used ∷ [])
    × All
        (λ j. lookup j.oidstr b.objects ≡ lookup j.oidstr load_agent.objects)
        (verbose ∷ none_yet ∷ [])
commit_items_long_example =
    commit_items_long simple (used ∷ []) (none_yet ∷ []) verbose too_long load_agent (tt, tt)
      (used-IsRegistered, tt) (tt, tt) ((used_is_not_status, (used_differs, tt)), tt)
      status-IsRegistered refl refl (rw (length-replicate {A = ℕ} 1025 b'x') (omega arith))

abbrev disks : TableModule
disks = record { name = codes "disks"; save = false; cols = []; rows = [] }

abbrev disk_plugin : Plugin
disk_plugin = record {
  name = codes "disks";
  index = 1;
  period = minutes 5;
  save = false;
  content = table_module disks;
}

abbrev good : Content → Result (Unit {0}) × Content
good c = (ok tt, c)

abbrev bad : Content → Result (Unit {0}) × Content
bad c = (raise os_error, c)

abbrev idle : Server simple
idle = record { agent = load_agent; locked = false }

start_fetch-locked_example :
    (start_fetch simple disk_plugin (good ∷ bad ∷ good ∷ []) idle).2.locked ≡ false
start_fetch-locked_example =
    start_fetch-locked simple disk_plugin (good ∷ bad ∷ good ∷ []) idle refl

-- A plugin that retains its rows and is not registered.
abbrev status_plugin : Plugin
status_plugin = record {
  name = codes "status";
  index = 2;
  period = once;
  save = true;
  content = table_module disks;
}

start_fetch-exits_example :
    (work_func (start_fetch simple status_plugin (good ∷ []) idle).0 ≡ exited 1) ↔ (
      ((status_plugin.save ≡ true)
        × (e : Exc) × ((commit_data simple status_plugin.content idle).0 ≡ raise e))
      ⊎ ((0 < length (good ∷ [])) × IsBadPeriod status_plugin.period))
start_fetch-exits_example = start_fetch-exits simple status_plugin (good ∷ []) idle

fetch_while_ends_example :
    fetch_while simple 5 (minutes 5) (λ i. i == 2) (λ i. good) 0 (table_module disks, idle)
    ≡ some (fetch_loop simple (minutes 5) (updates_seen 2 (λ i. good) 0) (table_module disks, idle))
fetch_while_ends_example =
    fetch_while_ends simple (λ i. i == 2) (λ i. good) 2 5 0 (minutes 5) (table_module disks, idle)
      (refl, (refl, refl)) (omega arith)
