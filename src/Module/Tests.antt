-- ===== src/Module/Tests.antt =====
-- The plugin classes at concrete inputs.
use snmpy.Shared.{[], io_error, key_error, none, ok, raise, refl, true, ◌∷◌, ◌≡◌, List, false}
use snmpy.Shared.Text.{codes, text_eq}
use snmpy.Shared.Values.{int, null, Value, str}
use snmpy.Shared.Dicts.{lookup}
use snmpy.Shared.Int.{pos}
use snmpy.Module.Item.{Item}
use snmpy.Module.Values.{SaveFile, ValueModule, dump, load}
use snmpy.Module.Values.Retained.{load-dump, load_unknown_key, value_at}
use snmpy.Mibgen.Syntax.{integer32_syntax}
use snmpy.Module.Tables.{TableModule, append, mapping}
use snmpy.Module.Tables.Rows.{Outcome, append-Outcome}

abbrev load_item : Item
load_item = record {
  oidnum = 1;
  oidstr = codes "SNMPY-MIB::snmpyLoadUsed";
  syntax = integer32_syntax;
  regex = none;
  cdef = none;
  join = [];
  value = int (pos 4);
}

-- The plugin before the restart, and after it.
abbrev load_module : ValueModule
load_module = record { name = codes "load"; save = true; items = (codes "used", load_item) ∷ [] }

abbrev fresh_module : ValueModule
fresh_module = record {
  name = codes "load";
  save = true;
  items = (codes "used", record load_item { value = null }) ∷ [];
}

abbrev no_file : SaveFile
no_file = record { content = raise io_error; writable = true }

load-dump_example :
    (m' : ValueModule) × (load (dump load_module no_file) fresh_module ≡ ok m')
    × (value_at (codes "used") m'.items ≡ value_at (codes "used") load_module.items)
load-dump_example =
    load-dump load_module fresh_module no_file (codes "used") refl refl refl (tt, tt) refl

-- The file of an older configuration, which had an item `free`.
abbrev old_file : SaveFile
old_file = record {
  content = ok ((codes "used", int (pos 4)) ∷ (codes "free", int (pos 6)) ∷ []);
  writable = true;
}

no_free : lookup (codes "free") fresh_module.items ≡ none
unfolding lookup text_eq
no_free = refl

load_unknown_key_example : load old_file fresh_module ≡ raise key_error
load_unknown_key_example =
    load_unknown_key fresh_module old_file ((codes "used", int (pos 4)) ∷ []) [] (codes "free")
      (int (pos 6)) refl refl no_free

-- A table with an integer column, given a text that is no integer.
abbrev loads : TableModule
loads = record {
  name = codes "loads";
  save = false;
  cols = (codes "used", load_item) ∷ [];
  rows = [];
}

append-Outcome_example :
    (row : List Value) × ((append (mapping ((codes "used", str (codes "no")) ∷ [])) loads).1
      ≡ record loads { rows = row ∷ [] })
    × Outcome
        (mapping ((codes "used", str (codes "no")) ∷ []))
        loads.cols
        ((append (mapping ((codes "used", str (codes "no")) ∷ [])) loads).0, row)
append-Outcome_example = append-Outcome (mapping ((codes "used", str (codes "no")) ∷ [])) loads refl
