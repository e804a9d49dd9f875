-- ===== src/Plugins/DiskUtilization/Tests.antt =====
-- A disk at concrete inputs.
use snmpy.Shared.{Result, [], false, length, none, ok, refl, ℕ, ◌++◌, ◌∷◌, List, arith, some}
use snmpy.Shared.Text.{Text, codes, split, is_space, starts_with, text_eq}
use snmpy.Shared.Int.{pos, ℤ}
use snmpy.Shared.Values.{null}
use snmpy.Module.Item.{Item}
use snmpy.Mibgen.Syntax.{Syntax, integer32_syntax, octet_string_syntax}
use snmpy.Module.Tables.{TableModule}
use snmpy.Plugins.DiskUtilization.{disk_update, Averages}
use snmpy.Plugins.ProcessInfo.{words_of}
use snmpy.Plugins.DiskUtilization.Sar.{
  Reading, Says, read_all, read_next, says_average, says_blank, says_device, says_other,
}
use snmpy.Plugins.DiskUtilization.Shown.{HasDisk, IsDiskUpdate, disk_update_lem}

abbrev column : ℕ → Text → Syntax → Text × Item
column oid key k = (
  key,
  record {
    oidnum = oid;
    oidstr = [];
    syntax = k;
    regex = none;
    cdef = none;
    join = [];
    value = null;
  },
)

abbrev disk_table : TableModule
disk_table = record {
  name = codes "disk";
  save = false;
  cols =
      column 1 (codes "dev") octet_string_syntax
      ∷ column 2 (codes "wait") integer32_syntax
      ∷ column 3 (codes "util") integer32_syntax
      ∷ [];
  rows = [];
}

abbrev header_line : Text
header_line = codes "12:10:01 DEV tps"

abbrev disk_line : Text
disk_line = codes "12:10:01 dev8-0 1 2 3 4 5 1234 7 12"

abbrev average_line : Text
average_line = codes "Average: dev8-0 1 2 3 4 5 6 7 8"

abbrev sar_output : Text
sar_output = header_line ++ b'\n' ∷ disk_line ++ b'\n' ∷ average_line ++ b'\n' ∷ []

abbrev whole_part : Text → Result ℤ
whole_part s = ok (pos (length s))

abbrev said : List (Text × Averages)
said = (codes "dev8-0", (pos 4, pos 2)) ∷ []

header-Says : Says whole_part (words_of header_line) none
unfolding words_of is_space starts_with
header-Says = says_other (codes "12:10:01") (codes "DEV") (codes "tps" ∷ []) refl

disk-Says : Says whole_part (words_of disk_line) (some (codes "dev8-0", (pos 4, pos 2)))
unfolding words_of is_space starts_with text_eq
disk-Says =
    says_device (codes "12:10:01") (codes "dev8-0") (codes "dev8-0") (codes "1234") (codes "12")
      (codes "1"
        ∷ codes "2"
        ∷ codes "3"
        ∷ codes "4"
        ∷ codes "5"
        ∷ codes "1234"
        ∷ codes "7"
        ∷ codes "12"
        ∷ [])
      (pos 4) (pos 2) (λ e. absurd (ground (arith, e))) refl
      (
        codes "12:10:01" ∷ [],
        codes "1",
        codes "2",
        codes "3",
        codes "4",
        codes "5",
        codes "7",
        refl,
      )
      refl refl

average-Says : Says whole_part (words_of average_line) none
unfolding words_of is_space
average-Says = says_average (
    codes "dev8-0"
    ∷ codes "1"
    ∷ codes "2"
    ∷ codes "3"
    ∷ codes "4"
    ∷ codes "5"
    ∷ codes "6"
    ∷ codes "7"
    ∷ codes "8"
    ∷ [])

blank-Says : Says whole_part (words_of []) none
unfolding words_of
blank-Says = says_blank

sar_reading : Reading whole_part (split b'\n' sar_output) (some said)
unfolding split
sar_reading = read_next _ _ none _ header-Says (
    read_next _ _ (some (codes "dev8-0", (pos 4, pos 2))) _ disk-Says
      (read_next _ _ none _ average-Says (read_next _ _ none _ blank-Says read_all)))

has_sda : HasDisk (codes "8 0 sda 100 4")
unfolding words_of is_space
has_sda = (codes "8", codes "0", codes "sda", codes "100" ∷ codes "4" ∷ [], refl)

disk_update_lem_example :
    IsDiskUpdate
      (some said)
      (codes "8 0 sda 100 4" ∷ [])
      disk_table
      (disk_update whole_part sar_output (codes "8 0 sda 100 4" ∷ []) disk_table)
disk_update_lem_example =
    disk_update_lem whole_part sar_output (codes "8 0 sda 100 4" ∷ []) (some said) disk_table
      (refl, refl, refl, (refl, refl, refl, (refl, refl, refl, tt))) sar_reading (has_sda, tt)
