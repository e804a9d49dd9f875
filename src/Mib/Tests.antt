-- ===== src/Mib/Tests.antt =====
-- The MIB of a plugin.
use snmpy.Shared.{All, List, [], false, none, ok, refl, some, ◌++◌, ◌∷◌, ◌≡◌}
use snmpy.Shared.Text.{Text, codes, starts_with}
use snmpy.Shared.Values.{null}
use snmpy.Shared.Dicts.{insert}
use snmpy.Mibgen.Names.{camel_case, get_oidstr}
use snmpy.Mibgen.Syntax.{integer32_syntax}
use snmpy.Module.Item.{Item, ItemConf, make_item, make_items}
use snmpy.Module.Values.{ValueModule}
use snmpy.Server.{Plugin, minutes, value_module}
use snmpy.Mib.{config_mib}
use snmpy.Mib.Declared.{IsDeclared, config_mib-declares}
use snmpy.Mibgen.Syntax.Prefixes.{get_syntax_lem}

abbrev confs : List (Text × ItemConf)
confs =
    (codes "used", record { type = some (codes "integer"); regex = none; cdef = none; join = none })
    ∷ []

abbrev used : Item
used = record {
  oidnum = 1;
  oidstr = codes "SNMPY-MIB::snmpyLoadUsed";
  syntax = integer32_syntax;
  regex = none;
  cdef = none;
  join = [];
  value = null;
}

abbrev used_values : ValueModule
used_values = record { name = codes "load"; save = false; items = (codes "used", used) ∷ [] }

abbrev loads : Plugin
loads = record {
  name = codes "load";
  index = 1;
  period = minutes 1;
  save = false;
  content = value_module used_values;
}

load_made : make_items (codes "load") 0 confs [] ≡ ok used_values.items
unfolding make_items make_item get_oidstr insert starts_with
load_made = rw (get_syntax_lem (codes "integer")) refl

load_named : camel_case (codes "load") ≡ ok (codes "Load")
unfolding camel_case
load_named = refl

config_mib-declares_example :
    (text : Text) × (config_mib loads ≡ ok text) × All (IsDeclared text) used_values.items
config_mib-declares_example =
    config_mib-declares loads used_values confs (codes "Load") refl load_made load_named

abbrev template : Text
template = codes "  snmpyLoad" ++ b'\n' ∷ codes "     SYNTAX"
