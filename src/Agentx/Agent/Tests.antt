-- ===== src/Agentx/Agent/Tests.antt =====
-- Runs of the agent at concrete inputs, over a simple net-snmp.
use snmpy.Shared.{List, [], arith, false, none, ok, refl, some, ◌∷◌, ◌≡◌}
use snmpy.Shared.Text.{Text, codes, text_eq}
use snmpy.Shared.Values.{Value, int, str}
use snmpy.Shared.Int.{pos}
use snmpy.Shared.Dicts.{lookup}
use snmpy.Agentx.Asn.{bits}
use snmpy.Agentx.NetSnmp.Simple.{simple, simple-IsNetSnmp}
use snmpy.Agentx.Table.{Table, integer32_class, octet_string_class}
use snmpy.Agentx.Table.Laws.{ServesAll}
use snmpy.Agentx.Agent.{Agent, replace_table, start, table}
use snmpy.Agentx.Agent.Serving.{replace_table_lem}
use snmpy.Agentx.Agent.Registry.{
  IsRegistry, Op, make_table_op, make_value_op, perform_all, perform_all-IsRegistry,
  replace_value_op,
}

abbrev disk_table : Table simple
disk_table = record {
  types = octet_string_class ∷ integer32_class ∷ [];
  index = record { body = bits 0; watcher = none };
  table = [];
}

abbrev disk_agent : Agent simple
disk_agent = record {
  objects = (codes "disks", table disk_table) ∷ [];
  handlers = codes "disks" ∷ [];
}

abbrev disk_rows : List (List Value)
disk_rows = (str (codes "sda") ∷ int (pos 7) ∷ []) ∷ (str (codes "sdb") ∷ int (pos 9) ∷ []) ∷ []

disk_table_found : lookup (codes "disks") disk_agent.objects ≡ some (table disk_table)
unfolding lookup text_eq
disk_table_found = refl

replace_table_lem_example :
    (a' : Agent simple) × (t' : Table simple) × (replace_table simple
        (codes "disks")
        disk_rows
        disk_agent
      ≡ (ok tt, a'))
    × (lookup (codes "disks") a'.objects ≡ some (table t'))
    × ServesAll simple disk_table.types 0 disk_rows t'.table
    × ((j : Text)
        → text_eq (codes "disks") j ≡ false
        → lookup j a'.objects ≡ lookup j disk_agent.objects)
replace_table_lem_example =
    replace_table_lem simple simple-IsNetSnmp disk_agent (codes "disks") disk_table 0 none disk_rows
      disk_table_found refl (omega arith) ((tt, (tt, tt)), ((tt, (tt, tt)), tt))

abbrev calls : List (Op simple)
calls =
    make_value_op octet_string_class (str (codes "2.0")) (codes "version")
    ∷ make_table_op (codes "disks") []
    ∷ make_value_op octet_string_class (str []) (codes "version")
    ∷ replace_value_op (codes "version") (str (codes "2.0.20"))
    ∷ []

perform_all-IsRegistry_example : IsRegistry simple (perform_all simple calls (start simple))
perform_all-IsRegistry_example = perform_all-IsRegistry simple simple-IsNetSnmp calls
