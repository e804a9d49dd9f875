-- ===== src/Start/Tests.antt =====
-- Two plugins at concrete inputs.
use snmpy.Shared.{
  Distinct, List, Result, [], false, map, none, ok, refl, some, ◌++◌, ◌∷◌, ◌≡◌, arith, ◌≢◌,
}
use snmpy.Shared.Text.{Text, codes, text_eq, find, text_eq_iff}
use snmpy.Shared.Int.{pos, ℤ, eq_ℤ}
use snmpy.Shared.Dicts.{Dict, keys, lookup, insert, update_with}
use snmpy.Shared.Sorting.{IsAscending, sorted_items, text_lt}
use snmpy.Start.{
  Conf, ConfFile, PluginConf, add_files, create_plugin, global, indexes, initialize, mapping,
  new_entry, number, plugins_of, text,
}
use snmpy.Start.Numbered.{IsNumbered, LeavesIndex, add_files-IsNumbered, index_in}
use snmpy.Start.Ordered.{AreMade, initialize_lem}
use snmpy.Shared.Numbers.{parse_int}

abbrev settings : Conf
settings = (global, []) ∷ []

abbrev load_file : ConfFile
load_file = record {
  stem = codes "0002_load";
  loaded = mapping ((codes "module", text (codes "exec_value")) ∷ []);
}

abbrev disk_file : ConfFile
disk_file = record {
  stem = codes "0001_disk";
  loaded = mapping ((codes "module", text (codes "exec_table")) ∷ []);
}

abbrev entry : Text → ℤ → Text → PluginConf
entry name z module_name = new_entry name z [] ++ (codes "module", text module_name) ∷ []

abbrev gathered : Conf
gathered =
    settings
    ++ (codes "load", entry (codes "load") (pos 2) (codes "exec_value"))
      ∷ (codes "disk", entry (codes "disk") (pos 1) (codes "exec_table"))
      ∷ []

settings-IsNumbered : IsNumbered settings []
unfolding indexes text_eq lookup
settings-IsNumbered = record { read = refl; distinct = tt; positive = tt; global_set = refl }

load-LeavesIndex : LeavesIndex load_file.loaded
unfolding lookup text_eq
load-LeavesIndex = refl

disk-LeavesIndex : LeavesIndex disk_file.loaded
unfolding lookup text_eq
disk-LeavesIndex = refl

files_added : add_files none [] (load_file ∷ disk_file ∷ []) settings ≡ ok (some gathered)
unfolding add_files find lookup text_eq parse_int indexes insert update_with eq_ℤ
files_added = refl

add_files-IsNumbered_example :
    (more : List ℤ) × (map index_in (load_file ∷ disk_file ∷ []) ≡ map ok more)
    × IsNumbered gathered ([] ++ more)
add_files-IsNumbered_example =
    add_files-IsNumbered none [] (load_file ∷ disk_file ∷ []) settings gathered []
      (load-LeavesIndex, (disk-LeavesIndex, tt)) settings-IsNumbered files_added

-- A file that sets its index: two plugins have one.
abbrev index_file : ConfFile
index_file = record {
  stem = codes "0003_both";
  loaded = mapping ((codes "snmpy_index", number (pos 1)) ∷ []);
}

-- The indexes after that.
index_set :
    add_files none [] (disk_file ∷ index_file ∷ []) settings
    ≡ ok (
        some (
          settings
          ++ (codes "disk", entry (codes "disk") (pos 1) (codes "exec_table"))
            ∷ (codes "both", new_entry (codes "both") (pos 1) [])
            ∷ []))
unfolding add_files find lookup text_eq parse_int indexes insert update_with eq_ℤ
index_set = refl

-- A plugin that is nothing but its module's name.
abbrev named_only : Text → Text → PluginConf → Result Text
named_only name item e = ok item

abbrev made : Dict Text
made = (codes "disk", codes "exec_table") ∷ (codes "load", codes "exec_value") ∷ []

differ : (s t : Text) → text_eq s t ≡ false → s ≢ t
differ s t h = ground (arith, text_eq_iff s t)

gathered-Distinct : Distinct (keys gathered)
unfolding text_eq
gathered-Distinct = ((differ _ _ refl, (differ _ _ refl, tt)), ((differ _ _ refl, tt), (tt, tt)))

made-AreMade : AreMade named_only (plugins_of (sorted_items gathered)) made
unfolding plugins_of sorted_items create_plugin text_eq lookup text_lt
made-AreMade = (refl, refl, (refl, refl, tt))

initialize_lem_example :
    (initialize named_only gathered ≡ ok made)
    × IsAscending (keys made)
    × ((name : Text)
        → text_eq name global ≡ false
        → lookup name (plugins_of (sorted_items gathered)) ≡ lookup name gathered)
initialize_lem_example = initialize_lem named_only gathered made gathered-Distinct made-AreMade
