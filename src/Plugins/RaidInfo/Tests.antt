-- ===== src/Plugins/RaidInfo/Tests.antt =====
-- Two arrays at concrete inputs.
use snmpy.Shared.{List, [], false, none, ok, refl, some, ℕ, ◌∷◌, ◌≡◌, ◌++◌}
use snmpy.Shared.Text.{Text, codes, join, split, is_space, starts_with, text_eq}
use snmpy.Shared.Int.{pos}
use snmpy.Shared.Values.{Value, int, null, str}
use snmpy.Shared.Dicts.{Dict, insert, keys, lookup}
use snmpy.Module.Item.{Item}
use snmpy.Mibgen.Syntax.{Syntax, counter64_syntax, integer32_syntax, octet_string_syntax}
use snmpy.Module.Tables.{TableModule}
use snmpy.Module.Tables.Typed.{HasColumns}
use snmpy.Plugins.RaidInfo.{
  Volume, member_state, printed, read_output, volume_state, fetch_mdadm, Raid,
}
use snmpy.Plugins.RaidInfo.Patterns.{
  Attr, bytes_attr, extra_attr, level_attr, state_attr, match_label, search_attr, search_disk,
  is_label_char, is_word,
}
use snmpy.Plugins.RaidInfo.Shown.{columns, rows_of, fetch_mdadm_lem}
use snmpy.Plugins.RaidInfo.Patterns.DiskLines.{disk_line, labelled, search_disk_lem, state_before}
use snmpy.Shared.Numbers.{parse_int}
use snmpy.Shared.Sorting.{IsAscending, sorted_items, text_lt}
use snmpy.Plugins.RaidInfo.Blocks.{Block}

abbrev column : ℕ → Text × Syntax → Text × Item
column oid k = (
  k.0,
  record {
    oidnum = oid;
    oidstr = [];
    syntax = k.1;
    regex = none;
    cdef = none;
    join = [];
    value = null;
  },
)

abbrev raid_table : TableModule
raid_table = record {
  name = codes "raid";
  save = false;
  cols =
      column 1 (codes "controller", octet_string_syntax)
      ∷ column 2 (codes "volume_label", octet_string_syntax)
      ∷ column 3 (codes "volume_bytes", counter64_syntax)
      ∷ column 4 (codes "volume_level", integer32_syntax)
      ∷ column 5 (codes "volume_state", octet_string_syntax)
      ∷ column 6 (codes "volume_extra", octet_string_syntax)
      ∷ column 7 (codes "member_label", octet_string_syntax)
      ∷ column 8 (codes "member_state", octet_string_syntax)
      ∷ [];
  rows = [];
}

raid-HasColumns : HasColumns 0 columns raid_table.cols
raid-HasColumns = (
  refl,
  refl,
  refl,
  (
    refl,
    refl,
    refl,
    (
      refl,
      refl,
      refl,
      (
        refl,
        refl,
        refl,
        (refl, refl, refl, (refl, refl, refl, (refl, refl, refl, (refl, refl, refl, tt)))),
      ),
    ),
  ),
)

abbrev attributes : List Attr
attributes = extra_attr ∷ bytes_attr ∷ state_attr ∷ level_attr ∷ []

abbrev mdadm_text : Text
mdadm_text = join (b'\n' ∷ []) (
    codes "/dev/md1:"
    ∷ codes "     Raid Level : raid1"
    ∷ codes "     Array Size : 512 (0.50 MiB)"
    ∷ codes "          State : clean, degraded"
    ∷ codes "       0       8       17        0      active sync   /dev/sdb1"
    ∷ codes "       1       0        0        1      removed"
    ∷ codes "/dev/md0:"
    ∷ codes "     Raid Level : raid5"
    ∷ codes "     Array Size : 1024 (1.00 MiB)"
    ∷ codes "          State : active, resyncing"
    ∷ codes "  Resync Status : 10% complete"
    ∷ codes "       0       8        1        0      active sync   /dev/sda1"
    ∷ [])

abbrev members : List (List Value)
members =
    (str (codes "mdadm")
      ∷ str (codes "/dev/md0")
      ∷ int (pos 1048576)
      ∷ int (pos 5)
      ∷ str (codes "RECOVERING")
      ∷ str (codes "10% complete")
      ∷ str (codes "/dev/sda1")
      ∷ str (codes "ACTIVE")
      ∷ [])
    ∷ (str (codes "mdadm")
        ∷ str (codes "/dev/md1")
        ∷ int (pos 524288)
        ∷ int (pos 1)
        ∷ str (codes "DEGRADED")
        ∷ str []
        ∷ str (codes "/dev/sdb1")
        ∷ str (codes "ACTIVE")
        ∷ [])
    ∷ (str (codes "mdadm")
        ∷ str (codes "/dev/md1")
        ∷ int (pos 524288)
        ∷ int (pos 1)
        ∷ str (codes "DEGRADED")
        ∷ str []
        ∷ str (codes "(missing)")
        ∷ str (codes "REMOVED")
        ∷ [])
    ∷ []

abbrev arrays : Dict Volume
arrays =
    (
      codes "/dev/md1",
      record {
        disks =
            (codes "/dev/sdb1", codes "active sync") ∷ (codes "(missing)", codes "removed") ∷ [];
        bytes = some (codes "512");
        level = some (codes "1");
        state = some (codes "clean, degraded");
        extra = none;
      },
    )
    ∷ (
      codes "/dev/md0",
      record {
        disks = (codes "/dev/sda1", codes "active sync") ∷ [];
        bytes = some (codes "1024");
        level = some (codes "5");
        state = some (codes "active, resyncing");
        extra = some (codes "10% complete");
      },
    )
    ∷ []

read_arrays : read_output attributes (printed mdadm_text) ≡ ok arrays
unfolding read_output split join match_label search_attr search_disk text_eq starts_with lookup
    insert is_space
read_arrays = refl

told_arrays : rows_of (sorted_items arrays) ≡ ok members
unfolding rows_of sorted_items text_lt parse_int volume_state member_state starts_with text_eq
told_arrays = refl

fetch_mdadm_lem_example :
    (fetch_mdadm attributes (printed mdadm_text) raid_table
      ≡ (ok tt, record raid_table { rows = raid_table.rows ++ members }))
    × IsAscending (keys (sorted_items arrays))
    × ((name : Text) → lookup name (sorted_items arrays) ≡ lookup name arrays)
fetch_mdadm_lem_example =
    fetch_mdadm_lem attributes (printed mdadm_text) arrays members raid_table raid-HasColumns
      read_arrays told_arrays

-- A member of an array whose level has a set in the state: the set is taken for the device.
search_disk_lem_example :
    search_disk (
      disk_line
        (codes "  ", codes "0")
        (codes "  ", codes "8")
        (codes "  ", codes "1")
        (codes "  ", codes "0")
        (codes "  ")
        (state_before
          (codes "active")
          (some (codes " ", codes "sync"))
          (labelled (codes " ") (codes "set") (codes "-A   /dev/sda1"))))
    ≡ some (record { state = codes "active sync"; label = some (codes "set") })
unfolding is_space is_word is_label_char
search_disk_lem_example =
    search_disk_lem (codes "  ", codes "0") (codes "  ", codes "8") (codes "  ", codes "1")
      (codes "  ", codes "0") ((refl, (refl, tt)), (refl, tt)) ((refl, (refl, tt)), (refl, tt))
      ((refl, (refl, tt)), (refl, tt)) ((refl, (refl, tt)), (refl, tt)) (codes "  ")
      (codes "active") (codes " ") (codes "set") (codes "-A   /dev/sda1")
      (some (codes " ", codes "sync")) (refl, (refl, tt))
      (refl, (refl, (refl, (refl, (refl, (refl, tt))))))
      ((refl, tt), (refl, (refl, (refl, (refl, tt))))) (refl, tt) (refl, (refl, (refl, tt))) refl

abbrev blocks : List Block
blocks =
    record {
      label = codes "/dev/md1:";
      volume = codes "/dev/md1";
      lines =
          codes "     Raid Level : raid1"
          ∷ codes "       1       0        0        1      removed"
          ∷ [];
    }
    ∷ record { label = codes "/dev/md0:"; volume = codes "/dev/md0"; lines = codes "" ∷ [] }
    ∷ []

abbrev none_read : Raid
none_read = record { raid = []; name = none }
