-- ===== src/Plugins/DiskUtilization/Averages.antt =====
-- The rows of lib/snmpy/module/disk_utilization.py.
use snmpy.Shared.{
  List, Result, [], map, ok, ok_of_bind, ◌++◌, ◌>>=◌, ◌∷◌, ◌≡◌, ap, append-nil, append_assoc,
  ok-injective, raise, refl, subst, sym, ◌∙◌, Bool, Option, Result-cases, false, if◌then◌else◌, inl,
  inr, none, some, true,
}
use snmpy.Shared.Text.{Text, codes, split, text_eq}
use snmpy.Shared.Dicts.{Dict, insert, lookup, lookup-insert, lookup_nil}
use snmpy.Module.Tables.{TableModule}
use snmpy.Module.Tables.Typed.{HasColumns, append_typed}
use snmpy.Mibgen.Syntax.{NativeType, int_type, str_type}
use snmpy.Plugins.DiskUtilization.{
  Averages, append_disks, disk_row, disk_words, disk_update, read_sar, append_read, averages_of,
  averages_row, part_entry, put,
}
use snmpy.Plugins.ProcessInfo.{words_of}
use snmpy.Shared.Int.{ℤ}
use snmpy.Shared.Values.{Value}

abbrev pub columns : List (Text × NativeType)
columns = (codes "dev", str_type) ∷ (codes "wait", int_type) ∷ (codes "util", int_type) ∷ []

-- The disks on the lines, all of which can be read.
abbrev pub read_disks : List Text → Result (List (Text × Text))
read_disks [] = ok []
read_disks (line ∷ lines) = do d ← disk_words (words_of line); ds ← read_disks lines; ok (d ∷ ds)

one_disk :
    (disk : Dict Averages) (line : Text) (lines : List Text) (d : Text × Text) (t : TableModule)
    → HasColumns 0 columns t.cols
    → disk_words (words_of line) ≡ ok d
    → append_disks disk (line ∷ lines) t
      ≡ append_disks disk lines (record t { rows = t.rows ++ disk_row disk d ∷ [] })
unfolding append_disks
one_disk disk line lines d t h read =
    rw (read, append_disks, append_typed (disk_row disk d) columns t h (tt, (tt, (tt, tt)))) refl

no_disks : (disk : Dict Averages) (t : TableModule) → append_disks disk [] t ≡ (ok tt, t)
unfolding append_disks
no_disks disk t = refl

append_disks_lem :
    (disk : Dict Averages) (lines : List Text) (ds : List (Text × Text)) (t : TableModule)
    → HasColumns 0 columns t.cols
    → read_disks lines ≡ ok ds
    → append_disks disk lines t ≡ (ok tt, record t { rows = t.rows ++ map (disk_row disk) ds })
append_disks_lem disk [] ds t h e =
    subst
      (λ l. append_disks disk [] t ≡ (ok tt, record t { rows = t.rows ++ map (disk_row disk) l }))
      (ok-injective e)
      (no_disks disk t ∙ ap (λ l. (ok tt, record t { rows = l })) (sym (append-nil t.rows)))
append_disks_lem disk (line ∷ lines) ds t h e =
    let (d, read, e') =
      ok_of_bind (disk_words (words_of line)) (λ d. read_disks lines >>= (λ ds. ok (d ∷ ds))) e in
    let (rest, others, e'') = ok_of_bind (read_disks lines) (λ ds. ok (d ∷ ds)) e' in
    let row = disk_row disk d in
    subst
      (λ l.
        append_disks disk (line ∷ lines) t
        ≡ (ok tt, record t { rows = t.rows ++ map (disk_row disk) l }))
      (ok-injective e'')
      (one_disk disk line lines d t h read
        ∙ append_disks_lem disk lines rest (record t { rows = t.rows ++ row ∷ [] }) h others
        ∙ ap (λ l. (ok tt, record t { rows = l }))
            (append_assoc t.rows (row ∷ []) (map (disk_row disk) rest)))

abbrev pub entries : Option (Text × Averages) → List (Text × Averages)
entries none = []
entries (some e) = e ∷ []

-- What the lines of `sar` say, each of them readable or not a line about a device.
abbrev pub read_entries : (Text → Result ℤ) → List Text → Result (List (Text × Averages))
read_entries int_float [] = ok []
read_entries int_float (line ∷ lines) = do
  e ← part_entry int_float (words_of line)
  es ← read_entries int_float lines
  ok (entries e ++ es)

abbrev or_else : Option Averages → Option Averages → Option Averages
or_else none b = b
or_else (some a) b = some a

-- The averages of the last line about a device.
abbrev pub last_of : Text → List (Text × Averages) → Option Averages
last_of dev [] = none
last_of dev ((k, a) ∷ es) = or_else (last_of dev es) (if text_eq k dev then some a else none)

abbrev puts : List (Text × Averages) → Dict Averages → Dict Averages
puts [] disk = disk
puts ((k, a) ∷ es) disk = puts es (insert k a disk)

or_else-if :
    (b : Bool) (a : Averages) (last held : Option Averages)
    → or_else last (if b then some a else held)
      ≡ or_else (or_else last (if b then some a else none)) held
or_else-if true a none held = refl
or_else-if false a none held = refl
or_else-if true a (some l) held = refl
or_else-if false a (some l) held = refl

lookup-puts :
    (dev : Text) (es : List (Text × Averages)) (disk : Dict Averages)
    → lookup dev (puts es disk) ≡ or_else (last_of dev es) (lookup dev disk)
lookup-puts dev [] disk = refl
lookup-puts dev ((k, a) ∷ es) disk =
    lookup-puts dev es (insert k a disk)
    ∙ ap (or_else (last_of dev es)) (lookup-insert k dev a disk)
    ∙ or_else-if (text_eq k dev) a (last_of dev es) (lookup dev disk)

put-entries :
    (e : Option (Text × Averages)) (es : List (Text × Averages)) (disk : Dict Averages)
    → puts es (put e disk) ≡ puts (entries e ++ es) disk
unfolding put
put-entries none es disk = refl
put-entries (some (k, a)) es disk = refl

read_more :
    (r : Result (List (Text × Averages))) (e : Option (Text × Averages)) (disk : Dict Averages)
    → (r >>= (λ es. ok (puts es (put e disk))))
      ≡ ((r >>= (λ es. ok (entries e ++ es))) >>= (λ es. ok (puts es disk)))
read_more (ok es) e disk = ap ok (put-entries e es disk)
read_more (raise x) e disk = refl

read_sar-entries :
    (int_float : Text → Result ℤ) (lines : List Text) (disk : Dict Averages)
    → read_sar int_float lines disk ≡ (read_entries int_float lines >>= (λ es. ok (puts es disk)))
unfolding read_sar
read_sar-entries int_float [] disk = refl
read_sar-entries int_float (line ∷ lines) disk =
    elim (Result-cases (part_entry int_float (words_of line))) [
      | inl (e, read) ↦ rw read (
          read_sar-entries int_float lines (put e disk)
          ∙ read_more (read_entries int_float lines) e disk)
      | inr (x, failed) ↦ rw failed refl
    ]

-- The row of a disk, given what the lines of `sar` say.
abbrev pub shown_row : List (Text × Averages) → Text × Text → List Value
shown_row es (dev, name) = averages_row (averages_of (last_of dev es)) name

or_else-none : (o : Option Averages) → or_else o none ≡ o
or_else-none none = refl
or_else-none (some a) = refl

shown_rows :
    (es : List (Text × Averages)) (ds : List (Text × Text))
    → map (disk_row (puts es [])) ds ≡ map (shown_row es) ds
shown_rows es [] = refl
shown_rows es ((dev, name) ∷ ds) =
    let found =
      lookup-puts dev es []
      ∙ ap (or_else (last_of dev es)) (lookup_nil dev)
      ∙ or_else-none (last_of dev es) in
    rw (found, shown_rows es ds) refl

-- What the update comes to, given what the lines of `sar` say and the disks.
abbrev pub with_rows :
    Result (List (Text × Averages))
    → List (Text × Text)
    → TableModule
    → Result (Unit {0}) × TableModule
with_rows (ok es) ds t = (ok tt, record t { rows = t.rows ++ map (shown_row es) ds })
with_rows (raise e) ds t = (raise e, t)

append_read_lem :
    (r : Result (List (Text × Averages))) (stats : List Text) (ds : List (Text × Text))
    (t : TableModule)
    → HasColumns 0 columns t.cols
    → read_disks stats ≡ ok ds
    → append_read (r >>= (λ es. ok (puts es []))) stats t ≡ with_rows r ds t
unfolding append_read
append_read_lem (ok es) stats ds t h e =
    append_disks_lem (puts es []) stats ds t h e
    ∙ ap (λ l. (ok tt, record t { rows = t.rows ++ l })) (shown_rows es ds)
append_read_lem (raise x) stats ds t h e = refl

pub disk_update-entries :
    (int_float : Text → Result ℤ) (output : Text) (stats : List Text) (ds : List (Text × Text))
    (t : TableModule)
    → HasColumns 0 columns t.cols
    → read_disks stats ≡ ok ds
    → disk_update int_float output stats t
      ≡ with_rows (read_entries int_float (split b'\n' output)) ds t
unfolding disk_update
disk_update-entries int_float output stats ds t h e =
    ap (λ r. append_read r stats t) (read_sar-entries int_float (split b'\n' output) [])
    ∙ append_read_lem (read_entries int_float (split b'\n' output)) stats ds t h e
