-- ===== src/Plugins/RaidInfo/Shown.antt =====
-- The rows that an update of lib/snmpy/module/raid_info.py leaves.
use snmpy.Shared.{
  Result, List, [], key_error, map, ok, or_raise, ◌++◌, ◌>>=◌, ◌∷◌, ◌≡◌, ap, append_assoc,
  ok-injective, ok_of_bind, refl, sym, ◌∙◌, append-nil,
}
use snmpy.Shared.Text.{Text, codes}
use snmpy.Shared.Dicts.{Dict, keys, lookup}
use snmpy.Shared.Values.{Value, int, str}
use snmpy.Shared.Numbers.{parse_int}
use snmpy.Module.Tables.{TableModule}
use snmpy.Module.Tables.Typed.{HasColumns, append_converted}
use snmpy.Mibgen.Syntax.{NativeType, int_type, str_type, to_native}
use snmpy.Plugins.RaidInfo.{
  Volume, append_member_row, member_row, member_state, text_or_empty, times_1024, volume_state,
  append_members, append_volumes, Output, append_sorted, fetch_mdadm, read_output,
}
use snmpy.Shared.Int.{ℤ}
use snmpy.Plugins.RaidInfo.Patterns.{Attr}
use snmpy.Plugins.RaidInfo.Named.{read_output-Distinct}
use snmpy.Shared.Sorting.{IsAscending, lookup-sorted_items, sorted_items-IsAscending, sorted_items}

-- The columns of the table: conf['table'].
abbrev pub columns : List (Text × NativeType)
columns =
    (codes "controller", str_type)
    ∷ (codes "volume_label", str_type)
    ∷ (codes "volume_bytes", int_type)
    ∷ (codes "volume_level", int_type)
    ∷ (codes "volume_state", str_type)
    ∷ (codes "volume_extra", str_type)
    ∷ (codes "member_label", str_type)
    ∷ (codes "member_state", str_type)
    ∷ []

-- What the output says of an array, with its size and level as numbers: 'extra' may be missing.
pub record Facts : Type 0 where
  pub size : ℤ
  pub raid_level : ℤ
  pub raid_state : Text

unfoldable pub facts : Volume → Result Facts
facts v = do
  b ← or_raise key_error v.bytes
  size ← parse_int b
  l ← or_raise key_error v.level
  level ← parse_int l
  s ← or_raise key_error v.state
  ok (record { size = size; raid_level = level; raid_state = s })

-- The row of one member, and the rows of all, array after array.
unfoldable pub row_of : Text → Volume → Facts → Text × Text → List Value
unfolding times_1024 text_or_empty
row_of name v f (label, kind) =
    str (codes "mdadm")
    ∷ str name
    ∷ int (times_1024 f.size)
    ∷ int f.raid_level
    ∷ str (volume_state f.raid_state)
    ∷ str (text_or_empty v.extra)
    ∷ str label
    ∷ str (member_state kind)
    ∷ []

unfoldable pub rows_of : Dict Volume → Result (List (List Value))
unfolding row_of facts
rows_of [] = ok []
rows_of ((name, v) ∷ raid) = do
  f ← facts v
  rows ← rows_of raid
  ok (map (row_of name v f) v.disks ++ rows)

raw_row : Text → Volume → Facts → Text → Text × Text → List Value
unfolding times_1024 text_or_empty
raw_row name v f level (label, kind) =
    str (codes "mdadm")
    ∷ str name
    ∷ int (times_1024 f.size)
    ∷ str level
    ∷ str (volume_state f.raid_state)
    ∷ str (text_or_empty v.extra)
    ∷ str label
    ∷ str (member_state kind)
    ∷ []

bind_ok :
    {X Y : Type 0} {x : X} {r : Result X} (next : X → Result Y) → r ≡ ok x → (r >>= next) ≡ next x
bind_ok next h = ap (λ q. q >>= next) h

-- What is appended for a member of an array of which all is told: the level is still a text.
member_told :
    (name : Text) (v : Volume) (f : Facts) (d : Text × Text)
    → facts v ≡ ok f
    → (l : Text) × (parse_int l ≡ ok f.raid_level)
      × (member_row name v d ≡ ok (raw_row name v f l d))
unfolding facts member_row raw_row
member_told name v f d told =
    let (b, bytes, h1) = ok_of_bind (or_raise key_error v.bytes) _ told in
    let (size, sized, h2) = ok_of_bind (parse_int b) _ h1 in
    let (l, level, h3) = ok_of_bind (or_raise key_error v.level) _ h2 in
    let (n, number, h4) = ok_of_bind (parse_int l) _ h3 in
    let (s, state, h5) = ok_of_bind (or_raise key_error v.state) _ h4 in
    let same = ok-injective h5 in
    (
      l,
      number ∙ ap (λ g. ok g.raid_level) same,
      bind_ok _ bytes
          ∙ bind_ok _ sized
          ∙ bind_ok _ level
          ∙ bind_ok _ state
          ∙ ap (λ g. ok (raw_row name v g l d)) same,
    )

-- One member of an array all of which is told.
append_member :
    (name : Text) (v : Volume) (f : Facts) (d : Text × Text) (t : TableModule)
    → HasColumns 0 columns t.cols
    → facts v ≡ ok f
    → append_member_row (member_row name v d) t
      ≡ (ok tt, record t { rows = t.rows ++ row_of name v f d ∷ [] })
unfolding append_member_row raw_row row_of to_native
append_member name v f d t h told =
    let (l, number, made) = member_told name v f d told in
    rw made (
      append_converted (raw_row name v f l d) (row_of name v f d) columns t h (
        refl,
        (
          refl,
          (refl, (ap (λ r. r >>= (λ z. ok (int z))) number, (refl, (refl, (refl, (refl, tt)))))),
        ),
      ))

append_members_lem :
    (name : Text) (v : Volume) (f : Facts) (ds : List (Text × Text)) (t : TableModule)
    → HasColumns 0 columns t.cols
    → facts v ≡ ok f
    → append_members name v ds t ≡ (ok tt, record t { rows = t.rows ++ map (row_of name v f) ds })
unfolding append_members
append_members_lem name v f [] t h told = rw (append-nil t.rows) refl
append_members_lem name v f (d ∷ ds) t h told = rw (append_member name v f d t h told) (
    append_members_lem name v f ds (record t { rows = t.rows ++ row_of name v f d ∷ [] }) h told
    ∙ ap (λ l. (ok tt, record t { rows = l }))
        (append_assoc t.rows (row_of name v f d ∷ []) (map (row_of name v f) ds)))

append_volumes_lem :
    (raid : Dict Volume) (rows : List (List Value)) (t : TableModule)
    → HasColumns 0 columns t.cols
    → rows_of raid ≡ ok rows
    → append_volumes raid t ≡ (ok tt, record t { rows = t.rows ++ rows })
unfolding append_volumes rows_of
append_volumes_lem [] rows t h told = rw (sym (ok-injective told), append-nil t.rows) refl
append_volumes_lem ((name, v) ∷ raid) rows t h told =
    let (f, known, h1) = ok_of_bind (facts v) _ told in
    let (more, others, h2) = ok_of_bind (rows_of raid) _ h1 in
    let mine = map (row_of name v f) v.disks in
    rw (append_members_lem name v f v.disks t h known) (
      append_volumes_lem raid more (record t { rows = t.rows ++ mine }) h others
      ∙ ap (λ l. (ok tt, record t { rows = l }))
          (append_assoc t.rows mine more ∙ ap (λ l. t.rows ++ l) (ok-injective h2)))

-- Where the output of mdadm can be read, and says a size and a level, which are numbers, and a
-- state of each array: an update with the columns of the plugin does not raise, and appends a row
-- for each member of each array, with the size in bytes, the level as a number and the states in
-- the words of the plugin; the arrays come in ascending order of their names, each one under the
-- facts that were read of it.
pub fetch_mdadm_lem :
    (attrs : List Attr) (out : Output) (raid : Dict Volume) (rows : List (List Value))
    (t : TableModule)
    → HasColumns 0 columns t.cols
    → read_output attrs out ≡ ok raid
    → rows_of (sorted_items raid) ≡ ok rows
    → (fetch_mdadm attrs out t ≡ (ok tt, record t { rows = t.rows ++ rows }))
      × IsAscending (keys (sorted_items raid))
      × ((name : Text) → lookup name (sorted_items raid) ≡ lookup name raid)
unfolding fetch_mdadm append_sorted
fetch_mdadm_lem attrs out raid rows t h read told =
    let distinct = read_output-Distinct attrs out raid read in
    (
      rw read (append_volumes_lem (sorted_items raid) rows t h told),
      sorted_items-IsAscending raid distinct,
      λ name. lookup-sorted_items name raid distinct,
    )
