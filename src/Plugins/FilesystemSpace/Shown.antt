-- ===== src/Plugins/FilesystemSpace/Shown.antt =====
-- The rows that an update of lib/snmpy/module/filesystem_space.py adds.
use snmpy.Shared.{
  Result, All, Bool-cases, Distinct, Exc, List, Result-cases, [], ap, append-nil, append_assoc,
  arith, false, inl, inr, ltb, ok, raise, refl, sym, true, ℕ, ◌*◌, ◌++◌, ◌-◌, ◌/◌, ◌<◌, ◌>>◌, ◌∙◌,
  ◌∷◌, ◌≡◌, ◌≤◌,
}
use snmpy.Shared.Text.{Text, codes, contains}
use snmpy.Shared.Int.{pos, sub_ℕ, ℤ}
use snmpy.Shared.Values.{Value, int, str}
use snmpy.Mibgen.Syntax.{NativeType, int_type, str_type}
use snmpy.Module.Tables.{TableModule, append, sequence}
use snmpy.Module.Tables.Typed.{HasColumns, append_typed}
use snmpy.Plugins.FilesystemSpace.{Mount, Statvfs, scale, show_mount, space_row, space_update}
use snmpy.Plugins.FilesystemSpace.Sources.{
  IsWanted, devs, first_of, read_all, show_all, space_update-taken, taken, taken-All, wanted,
}
use snmpy.Plugins.FilesystemSpace.Devnum.{devnum}

-- conf['table']
abbrev pub columns : List (Text × NativeType)
columns =
    (codes "devnum", int_type)
    ∷ (codes "source", str_type)
    ∷ (codes "target", str_type)
    ∷ (codes "fstype", str_type)
    ∷ (codes "space_size", int_type)
    ∷ (codes "space_used", int_type)
    ∷ (codes "space_free", int_type)
    ∷ (codes "inode_size", int_type)
    ∷ (codes "inode_used", int_type)
    ∷ (codes "inode_free", int_type)
    ∷ []

-- What the system says of a file system: of its blocks and files, not more are free than there are.
abbrev pub IsSound : Statvfs → Type 0
IsSound s = (s.f_bfree ≤ s.f_blocks) × (s.f_ffree ≤ s.f_files)

-- The row of a mount: its device's number, source, path and kind; its size, the space used and the space
-- that is free, in KiB; its files, those used and those that are free.
abbrev pub row_of : ℤ → Mount → Statvfs → List Value
row_of num m s =
    int num
    ∷ str m.dev
    ∷ str m.path
    ∷ str m.kind
    ∷ int (pos (s.f_blocks * s.f_bsize / 1024))
    ∷ int (pos ((s.f_blocks - s.f_bfree) * s.f_bsize / 1024))
    ∷ int (pos (s.f_bfree * s.f_bsize / 1024))
    ∷ int (pos s.f_files)
    ∷ int (pos (s.f_files - s.f_ffree))
    ∷ int (pos s.f_ffree)
    ∷ []

module _ (statvfs : Text → Result Statvfs) where
  -- The rows for a mount: one if it has blocks and a path as its source, else none.
  pub data Shows (m : Mount) : List (List Value) → Type 0 where
    real :
        (s : Statvfs) (num : ℤ)
        → statvfs m.path ≡ ok s
        → 0 < s.f_blocks
        → contains b'/' m.dev ≡ true
        → devnum m.device ≡ ok num
        → Shows m (row_of num m s ∷ [])
    not_told : (e : Exc) → statvfs m.path ≡ raise e → Shows m []
    no_blocks : (s : Statvfs) → statvfs m.path ≡ ok s → s.f_blocks ≡ 0 → Shows m []
    no_path : contains b'/' m.dev ≡ false → Shows m []

  abbrev pub ShowsAll : List Mount → List (List Value) → Type 0
  ShowsAll [] rows = rows ≡ []
  ShowsAll (m ∷ ms) rows =
      (r : List (List Value)) × (rest : List (List Value)) × Shows m r
      × ShowsAll ms rest
      × (rows ≡ r ++ rest)

sub_below : (a b : ℕ) → b ≤ a → sub_ℕ a b ≡ pos (a - b)
sub_below a b h = ground (arith)

space_row_sound :
    (num : ℤ) (m : Mount) (s : Statvfs) → IsSound s → space_row num m s ≡ sequence (row_of num m s)
unfolding space_row scale
space_row_sound num m s (blocks, files) =
    rw (sub_below s.f_blocks s.f_bfree blocks, sub_below s.f_files s.f_ffree files) refl

module _ (statvfs : Text → Result Statvfs) where
  add_row :
      (m : Mount) (num : ℤ) (s : Statvfs) (t : TableModule)
      → HasColumns 0 columns t.cols
      → IsSound s
      → append (space_row num m s) t ≡ (ok tt, record t { rows = t.rows ++ row_of num m s ∷ [] })
  add_row m num s t h sound =
      ap (λ r. append r t) (space_row_sound num m s sound)
      ∙ append_typed (row_of num m s) columns t h
          (tt, (tt, (tt, (tt, (tt, (tt, (tt, (tt, (tt, (tt, tt))))))))))

  no_row :
      (t : TableModule)
      → ◌≡◌ {A = Result (Unit {0}) × TableModule}
          (ok tt, t)
          (ok tt, record t { rows = t.rows ++ [] })
  no_row t = ap (λ l. (ok tt, record t { rows = l })) (sym (append-nil t.rows))

  show_told :
      (m : Mount) (s : Statvfs) (num : ℤ) (t : TableModule)
      → HasColumns 0 columns t.cols
      → devnum m.device ≡ ok num
      → statvfs m.path ≡ ok s
      → IsSound s
      → (r : List (List Value)) × Shows statvfs m r
        × (show_mount statvfs m t ≡ (ok tt, record t { rows = t.rows ++ r }))
  unfolding show_mount
  show_told m s num t h numbered told sound = elim (Bool-cases (ltb 0 s.f_blocks)) [
    | inl blocks ↦ elim (Bool-cases (contains b'/' m.dev)) [
      | inl path ↦ (
        row_of num m s ∷ [],
        real s num told (ground (arith, blocks)) path numbered,
        rw (told, show_mount, blocks, path, numbered) (add_row m num s t h sound),
      )
      | inr none_ ↦ ([], no_path none_, rw (told, show_mount, blocks, none_) (no_row t))
    ]
    | inr empty ↦
        ([], no_blocks s told (ground (arith, empty)), rw (told, show_mount, empty) (no_row t))
  ]

  show_one :
      (m : Mount) (num : ℤ) (t : TableModule)
      → HasColumns 0 columns t.cols
      → devnum m.device ≡ ok num
      → ((s : Statvfs) → statvfs m.path ≡ ok s → IsSound s)
      → (r : List (List Value)) × Shows statvfs m r
        × (show_mount statvfs m t ≡ (ok tt, record t { rows = t.rows ++ r }))
  unfolding show_mount
  show_one m num t h numbered sound = elim (Result-cases (statvfs m.path)) [
    | inl (s, told) ↦ show_told m s num t h numbered told (sound s told)
    | inr (e, failed) ↦ ([], not_told e failed, rw (failed, show_mount) (no_row t))
  ]

  -- A mount whose device number can be read, and of which the system says what can be.
  abbrev pub IsReadable : Mount → Type 0
  IsReadable m =
      ((num : ℤ) × (devnum m.device ≡ ok num)) × ((s : Statvfs) → statvfs m.path ≡ ok s → IsSound s)

  show_all-ShowsAll :
      (ms : List Mount) (t : TableModule)
      → HasColumns 0 columns t.cols
      → All IsReadable ms
      → (rows : List (List Value)) × ShowsAll statvfs ms rows
        × (show_all statvfs ms t ≡ (ok tt, record t { rows = t.rows ++ rows }))
  show_all-ShowsAll [] t h k = ([], refl, no_row t)
  show_all-ShowsAll (m ∷ ms) t h (((num, numbered), sound), k) =
      let (r, shows, done) = show_one m num t h numbered sound in
      let (rest, others, done') = show_all-ShowsAll ms (record t { rows = t.rows ++ r }) h k in
      (
        r ++ rest,
        (r, rest, shows, others, refl),
        ap (λ st. (◌>>◌ (λ _. st) (show_all statvfs ms)) t) done
            ∙ done'
            ∙ ap (λ l. (ok tt, record t { rows = l })) (append_assoc t.rows r rest),
      )

module _ (statvfs : Text → Result Statvfs) (exclude : List Text) where
  -- If the table has the columns that the class gives it, all lines of mountinfo and the device numbers
  -- in them can be read, and no file system has more blocks or files free than it has: `update` does not
  -- raise, and goes through mounts of which no kind is excluded and no two have one source, and for every
  -- source the first mount of it whose kind is not excluded is among them. For each of these, in their
  -- order, it adds one row if `os.statvfs` answers for its path, with blocks, and its source has a `/`,
  -- and none otherwise. The row has its device number, source, path and kind; size, used and free space in
  -- KiB; and the files that there are, that are used and that are free.
  pub space_update_lem :
      (lines : List Text) (ms : List Mount) (t : TableModule)
      → HasColumns 0 columns t.cols
      → read_all lines ≡ ok ms
      → All (IsReadable statvfs) ms
      → (shown : List Mount) × (rows : List (List Value)) × (space_update statvfs exclude lines t
          ≡ (ok tt, record t { rows = t.rows ++ rows }))
        × ShowsAll statvfs shown rows
        × Distinct (devs shown)
        × All (IsWanted exclude) shown
        × ((d : Text) → first_of d shown ≡ first_of d (wanted exclude ms))
  space_update_lem lines ms t h read readable =
      let (goes, distinct, kinds, firsts) = space_update-taken statvfs exclude lines ms t read in
      let (rows, shows, done) =
        show_all-ShowsAll statvfs (taken exclude [] ms) t h
          (taken-All (IsReadable statvfs) exclude [] ms readable) in
      (taken exclude [] ms, rows, goes ∙ done, shows, distinct, kinds, firsts)
