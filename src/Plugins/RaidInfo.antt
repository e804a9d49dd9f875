-- ===== src/Plugins/RaidInfo.antt =====
-- lib/snmpy/module/raid_info.py: the members of software RAID arrays, out of what `mdadm` prints.
pub mod Patterns
pub mod Blocks
pub mod Named
pub mod Shown
mod Tests
use snmpy.Shared.{
  Bool, Exc, List, Option, Proc, Result, [], attribute_error, if◌then◌else◌, key_error, name_error,
  none, ok, or_raise, raise, some, suc, ◌*◌, ◌++◌, ◌-◌, ◌>>=◌, ◌>>◌, ◌||◌, ◌∷◌,
}
use snmpy.Shared.Text.{Text, codes, split, starts_with, text_eq}
use snmpy.Shared.Int.{negsuc, pos, ℤ}
use snmpy.Shared.Numbers.{parse_int}
use snmpy.Shared.Values.{Value, int, str}
use snmpy.Shared.Dicts.{Dict, insert, lookup}
use snmpy.Module.Tables.{TableModule, append, sequence}
use snmpy.Plugins.RaidInfo.Patterns.{
  Attr, Disk, bytes_attr, extra_attr, level_attr, match_label, search_attr, search_disk, state_attr,
}
use snmpy.Shared.Sorting.{sorted_items}

-- raid[name]
pub record Volume : Type 0 where
  pub disks : List (Text × Text)
  pub bytes : Option Text
  pub level : Option Text
  pub state : Option Text
  pub extra : Option Text

abbrev pub new_volume : Volume
new_volume = record { disks = []; bytes = none; level = none; state = none; extra = none }

-- raid[name][attr] = ...
set_attr : Attr → Text → Volume → Volume
set_attr bytes_attr s v = record v { bytes = some s }
set_attr level_attr s v = record v { level = some s }
set_attr state_attr s v = record v { state = some s }
set_attr extra_attr s v = record v { extra = some s }

-- find.group('LABEL') or '(missing)'
label_or_missing : Option Text → Text
label_or_missing none = codes "(missing)"
label_or_missing (some l) = l

add_disk : Disk → Volume → Volume
unfolding label_or_missing
add_disk d v = record v { disks = v.disks ++ (label_or_missing d.label, d.state) ∷ [] }

-- The arrays by their names, and the variable `name`, which has no value before the first label.
pub record Raid : Type 0 where
  pub raid : Dict Volume
  pub name : Option Text

-- A change of `raid[name]`.
on_volume : (Volume → Volume) → Raid → Result Raid
on_volume f r = do
  name ← or_raise name_error r.name
  v ← or_raise key_error (lookup name r.raid)
  ok (record r { raid = insert name (f v) r.raid })

-- What the line says of the array: the loop over the attributes with its `else`.
on_disk : Option Disk → Raid → Result Raid
unfolding on_volume add_disk
on_disk none r = ok r
on_disk (some d) r = on_volume (add_disk d) r

on_found : Attr → Option Text → Result Raid → Raid → Result Raid
unfolding on_volume set_attr
on_found a none later r = later
on_found a (some s) later r = on_volume (set_attr a s) r

on_attrs : List Attr → Text → Raid → Result Raid
unfolding on_disk on_found
on_attrs [] line r = on_disk (search_disk line) r
on_attrs (a ∷ attrs) line r =
    let later = on_attrs attrs line r in on_found a (search_attr a line) later r

on_label : Option Text → Result Raid → Raid → Result Raid
on_label none later r = later
on_label (some l) later r = ok (record { raid = insert l new_volume r.raid; name = some l })

-- The body of the loop over the lines; the dictionary of attributes has an order of its own.
pub on_line : List Attr → Text → Raid → Result Raid
unfolding on_attrs on_label
on_line attrs line r = on_label (match_label line) (on_attrs attrs line r) r

pub read_detail : List Attr → List Text → Raid → Result Raid
unfolding on_line
read_detail attrs [] r = ok r
read_detail attrs (line ∷ lines) r = do r' ← on_line attrs line r; read_detail attrs lines r'

-- t in s
has_text : Text → Text → Bool
has_text t [] = text_eq t []
has_text t (c ∷ s) = starts_with (c ∷ s) t || has_text t s

-- volume_state(kind) or 'UNKNOWN', member_state(kind) or 'UNKNOWN'
pub volume_state : Text → Text
unfolding has_text
volume_state kind =
    if has_text (codes "recovering") kind || has_text (codes "resyncing") kind
    then codes "RECOVERING"
    else if has_text (codes "degraded") kind
    then codes "DEGRADED"
    else if has_text (codes "clean") kind || has_text (codes "active") kind
    then codes "ONLINE"
    else codes "UNKNOWN"

pub member_state : Text → Text
unfolding has_text
member_state kind =
    if has_text (codes "removed") kind
    then codes "REMOVED"
    else if has_text (codes "rebuilding") kind
    then codes "REBUILDING"
    else if has_text (codes "spare") kind
    then codes "SPARE"
    else if has_text (codes "active") kind
    then codes "ACTIVE"
    else codes "UNKNOWN"

times_1024 : ℤ → ℤ
times_1024 (pos n) = pos (n * 1024)
times_1024 (negsuc n) = negsuc (suc n * 1024 - 1)

text_or_empty : Option Text → Text
text_or_empty none = []
text_or_empty (some s) = s

-- The list that is appended for a member.
pub member_row : Text → Volume → Text × Text → Result (List Value)
unfolding times_1024 text_or_empty
member_row name v (label, kind) = do
  bytes ← or_raise key_error v.bytes
  size ← parse_int bytes
  level ← or_raise key_error v.level
  state ← or_raise key_error v.state
  ok (
      str (codes "mdadm")
      ∷ str name
      ∷ int (times_1024 size)
      ∷ str level
      ∷ str (volume_state state)
      ∷ str (text_or_empty v.extra)
      ∷ str label
      ∷ str (member_state kind)
      ∷ [])

append_member_row : Result (List Value) → Proc TableModule
append_member_row (raise e) t = (raise e, t)
append_member_row (ok vs) t = append (sequence vs) t

append_members : Text → Volume → List (Text × Text) → Proc TableModule
unfolding append_member_row member_row
append_members name v [] t = (ok tt, t)
append_members name v (d ∷ ds) t =
    (append_member_row (member_row name v d) >> append_members name v ds) t

pub append_volumes : Dict Volume → Proc TableModule
unfolding append_members
append_volumes [] t = (ok tt, t)
append_volumes ((name, v) ∷ raid) t = (append_members name v v.disks >> append_volumes raid) t

-- What becomes of the command: its output, or that it failed, or that it could not be run.
pub data Output : Type 0 where
  printed : Text → Output
  failed : Output
  not_run : Exc → Output

pub read_output : List Attr → Output → Result (Dict Volume)
unfolding read_detail
read_output attrs failed = ok []
read_output attrs (not_run e) = raise e
read_output attrs (printed text) = do
  r ← read_detail attrs (split b'\n' text) (record { raid = []; name = none })
  ok r.raid

-- `sorted(raid.items())`, whose names are distinct.
append_sorted : Result (Dict Volume) → Proc TableModule
unfolding append_volumes sorted_items
append_sorted (raise e) t = (raise e, t)
append_sorted (ok raid) t = append_volumes (sorted_items raid) t

-- _fetch_mdadm()
pub fetch_mdadm : List Attr → Output → Proc TableModule
unfolding append_sorted read_output
fetch_mdadm attrs out t = append_sorted (read_output attrs out) t

-- update, for conf['type'] as a list of texts
pub raid_update : List Attr → Output → List Text → Proc TableModule
unfolding fetch_mdadm
raid_update attrs out [] t = (ok tt, t)
raid_update attrs out (kind ∷ kinds) t =
    if text_eq kind (codes "mdadm")
    then (fetch_mdadm attrs out >> raid_update attrs out kinds) t
    else (raise attribute_error, t)
