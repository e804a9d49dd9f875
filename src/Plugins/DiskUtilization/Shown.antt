-- ===== src/Plugins/DiskUtilization/Shown.antt =====
-- The rows that lib/snmpy/module/disk_utilization.py makes of the lines of `sar` and of diskstats.
use snmpy.Shared.{
  Result, All, Bool-cases, Exc, List, Option, [], ap, arith, inl, inr, map, none, ok, raise, refl,
  some, ◌++◌, ◌∙◌, ◌∷◌, ◌≡◌, ◌≢◌, ◌⊎◌,
}
use snmpy.Shared.Text.{Text, codes, split, text_eq, text_eq_iff}
use snmpy.Shared.Int.{pos, ℤ}
use snmpy.Shared.Values.{Value, int, str}
use snmpy.Module.Tables.{TableModule}
use snmpy.Module.Tables.Typed.{HasColumns}
use snmpy.Plugins.DiskUtilization.{Averages, disk_update, disk_words}
use snmpy.Plugins.DiskUtilization.Averages.{
  columns, disk_update-entries, last_of, read_disks, read_entries, shown_row, with_rows,
}
use snmpy.Plugins.ProcessInfo.{words_of}
use snmpy.Plugins.DiskUtilization.Sar.{IsRead, Reading, Reading-IsRead}

-- The wait and use of the last line about a device, or 0 and 0 where there is none.
abbrev pub AreLast : List (Text × Averages) → Text → ℤ → ℤ → Type 0
AreLast es dev waits used =
    ((front back : List (Text × Averages)) × (es ≡ front ++ (dev, (waits, used)) ∷ back)
      × All (λ e. e.0 ≢ dev) back)
    ⊎ (All (λ e. e.0 ≢ dev) es × (waits ≡ pos 0) × (used ≡ pos 0))

-- The row for a line of diskstats: the name of the disk, and what is told of the device of its numbers.
abbrev pub IsDiskRow : List (Text × Averages) → Text → List Value → Type 0
IsDiskRow es line row =
    (major minor name : Text) × (more : List Text) × (waits used : ℤ) × (words_of line
      ≡ major ∷ minor ∷ name ∷ more)
    × AreLast es (codes "dev" ++ (major ++ b'-' ∷ minor)) waits used
    × (row ≡ str name ∷ int waits ∷ int used ∷ [])

abbrev pub AreDiskRows : List (Text × Averages) → List Text → List (List Value) → Type 0
AreDiskRows es [] [] = Unit
AreDiskRows es (line ∷ lines) (row ∷ rows) = IsDiskRow es line row × AreDiskRows es lines rows
AreDiskRows es _ _ = ⊥

-- Lines with the numbers of a disk and its name.
abbrev pub HasDisk : Text → Type 0
HasDisk line =
    (major minor name : Text) × (more : List Text) × (words_of line ≡ major ∷ minor ∷ name ∷ more)

last_cases :
    (dev : Text) (es : List (Text × Averages))
    → ((waits used : ℤ) × (last_of dev es ≡ some (waits, used))
        × (front back : List (Text × Averages)) × (es ≡ front ++ (dev, (waits, used)) ∷ back)
        × All (λ e. e.0 ≢ dev) back)
      ⊎ ((last_of dev es ≡ none) × All (λ e. e.0 ≢ dev) es)
last_cases dev [] = inr (refl, tt)
last_cases dev ((k, (w, u)) ∷ es) = elim (last_cases dev es) [
  | inl (waits, used, found, front, back, e, h) ↦
      inl (waits, used, rw found refl, (k, (w, u)) ∷ front, back, ap (λ l. (k, (w, u)) ∷ l) e, h)
  | inr (absent, h) ↦ elim (Bool-cases (text_eq k dev)) [
    | inl same ↦ inl (
      w,
      u,
      rw (absent, same) refl,
      [],
      es,
      ap (λ d. (d, (w, u)) ∷ es) ((text_eq_iff k dev).0 same),
      h,
    )
    | inr differs ↦
        inr (rw (absent, differs) refl, (λ e. absurd (ground (arith, text_eq_iff k dev)), h))
  ]
]

disk_words-IsDiskRow :
    (es : List (Text × Averages)) (line major minor name : Text) (more : List Text)
    → words_of line ≡ major ∷ minor ∷ name ∷ more
    → (dev : Text) × (disk_words (words_of line) ≡ ok (dev, name))
      × IsDiskRow es line (shown_row es (dev, name))
unfolding disk_words
disk_words-IsDiskRow es line major minor name more e =
    let dev = codes "dev" ++ (major ++ b'-' ∷ minor) in
    elim (last_cases dev es) [
      | inl (waits, used, found, front, back, split_, h) ↦ (
        dev,
        ap disk_words e,
        (major, minor, name, more, waits, used, e, inl (front, back, split_, h), rw found refl),
      )
      | inr (absent, h) ↦ (
        dev,
        ap disk_words e,
        (major, minor, name, more, pos 0, pos 0, e, inr (h, refl, refl), rw absent refl),
      )
    ]

read_disks-AreDiskRows :
    (es : List (Text × Averages)) (stats : List Text)
    → All HasDisk stats
    → (ds : List (Text × Text)) × (read_disks stats ≡ ok ds)
      × AreDiskRows es stats (map (shown_row es) ds)
read_disks-AreDiskRows es [] h = ([], refl, tt)
read_disks-AreDiskRows es (line ∷ lines) ((major, minor, name, more, e), h) =
    let (dev, read, row) = disk_words-IsDiskRow es line major minor name more e in
    let (ds, others, rows) = read_disks-AreDiskRows es lines h in
    ((dev, name) ∷ ds, rw (read, others) refl, (row, rows))

-- What an update comes to, for what the lines of `sar` say.
abbrev pub IsDiskUpdate :
    Option (List (Text × Averages))
    → List Text
    → TableModule
    → Result (Unit {0}) × TableModule
    → Type 0
IsDiskUpdate (some es) stats t r =
    (rows : List (List Value)) × AreDiskRows es stats rows
    × (r ≡ (ok tt, record t { rows = t.rows ++ rows }))
IsDiskUpdate none stats t r = (e : Exc) × (r ≡ (raise e, t))

read_lem :
    (o : Option (List (Text × Averages))) (int_float : Text → Result ℤ) (output : Text)
    (stats : List Text) (t : TableModule)
    → HasColumns 0 columns t.cols
    → IsRead int_float o (read_entries int_float (split b'\n' output))
    → All HasDisk stats
    → IsDiskUpdate o stats t (disk_update int_float output stats t)
read_lem (some es) int_float output stats t h read disks =
    let (ds, found, rows) = read_disks-AreDiskRows es stats disks in
    (
      map (shown_row es) ds,
      rows,
      disk_update-entries int_float output stats ds t h found ∙ ap (λ r. with_rows r ds t) read,
    )
read_lem none int_float output stats t h (x, failed) disks =
    let (ds, found, rows) = read_disks-AreDiskRows [] stats disks in
    (x, disk_update-entries int_float output stats ds t h found ∙ ap (λ r. with_rows r ds t) failed)

-- If the table has the columns that the class gives it, and the lines of diskstats have three words each:
-- where each line that `sar` printed is blank, starts with `Average:`, is not about a device, or has nine
-- words from the device on, with numbers as wait and use, the update does not raise and adds one row for
-- each disk, in their order: its name, and the wait and use of the last line about its numbers, those
-- with `Average:` left out, or 0 and 0 where there is none. Where a line is bad, a single other word or a
-- wait or use that is no number, the update raises and adds no row.
pub disk_update_lem :
    (int_float : Text → Result ℤ) (output : Text) (stats : List Text)
    (o : Option (List (Text × Averages))) (t : TableModule)
    → HasColumns 0 columns t.cols
    → Reading int_float (split b'\n' output) o
    → All HasDisk stats
    → IsDiskUpdate o stats t (disk_update int_float output stats t)
disk_update_lem int_float output stats o t h reading disks =
    read_lem o int_float output stats t h (Reading-IsRead int_float (split b'\n' output) o reading)
      disks
