-- ===== src/Plugins/FilesystemSpace/Sources.antt =====
-- Which mounts lib/snmpy/module/filesystem_space.py takes up.
use snmpy.Shared.{
  Bool-cases, List, Proc, Result, [], if◌then◌else◌, inl, inr, ok, ok-injective, ok_of_bind, refl,
  subst, ◌>>=◌, ◌>>◌, ◌||◌, ◌∷◌, ◌≡◌, All, arith, false, map, All-map, Distinct, ◌≢◌, Option, none,
  some, continue_same,
}
use snmpy.Shared.Text.{Text, text_eq, text_eq_iff, one_of}
use snmpy.Module.Tables.{TableModule}
use snmpy.Plugins.FilesystemSpace.{
  Mount, Statvfs, on_mount, read_mount, read_mounts, saw, show_mount, is_passed, space_update,
}

one_of_cons : (t s : Text) (ss : List Text) → one_of t (s ∷ ss) ≡ (text_eq s t || one_of t ss)
unfolding one_of
one_of_cons t s ss = refl

-- The mounts on the lines, all of which can be read.
abbrev pub read_all : List Text → Result (List Mount)
read_all [] = ok []
read_all (line ∷ lines) = do m ← read_mount line; ms ← read_all lines; ok (m ∷ ms)

-- The mounts that are taken up, once the sources in `seen` were.
abbrev pub taken : List Text → List Text → List Mount → List Mount
taken exclude seen [] = []
taken exclude seen (m ∷ ms) =
    let rest = taken exclude (saw exclude seen m) ms in
    if is_passed exclude seen m then rest else m ∷ rest

abbrev pub show_all : (Text → Result Statvfs) → List Mount → Proc TableModule
show_all statvfs [] t = (ok tt, t)
show_all statvfs (m ∷ ms) t = (show_mount statvfs m >> show_all statvfs ms) t

module _ (statvfs : Text → Result Statvfs) (exclude : List Text) where
  one_mount :
      (line : Text) (m : Mount) (lines : List Text) (ms : List Mount) (seen : List Text)
      → read_mount line ≡ ok m
      → ((s : List Text) (t : TableModule)
          → read_mounts statvfs exclude s lines t ≡ show_all statvfs (taken exclude s ms) t)
      → (t : TableModule)
      → read_mounts statvfs exclude seen (line ∷ lines) t
        ≡ show_all statvfs (taken exclude seen (m ∷ ms)) t
  unfolding read_mounts on_mount
  one_mount line m lines ms seen read later t = elim (Bool-cases (is_passed exclude seen m)) [
    | inl passed ↦ rw (read, read_mounts) (rw passed (later seen t))
    | inr new ↦
        rw (read, read_mounts)
          (rw new (continue_same (show_mount statvfs m t) (later (m.dev ∷ seen))))
  ]

  no_mounts :
      (seen : List Text) (t : TableModule) → read_mounts statvfs exclude seen [] t ≡ (ok tt, t)
  unfolding read_mounts
  no_mounts seen t = refl

  read_mounts-taken :
      (lines : List Text) (ms : List Mount)
      → read_all lines ≡ ok ms
      → (seen : List Text) (t : TableModule)
      → read_mounts statvfs exclude seen lines t ≡ show_all statvfs (taken exclude seen ms) t
  read_mounts-taken [] ms h seen t =
      subst (λ l. read_mounts statvfs exclude seen [] t ≡ show_all statvfs (taken exclude seen l) t)
        (ok-injective h) (no_mounts seen t)
  read_mounts-taken (line ∷ lines) ms h seen t =
      let (m, read, h') =
        ok_of_bind (read_mount line) (λ m. read_all lines >>= (λ ms. ok (m ∷ ms))) h in
      let (rest, others, h'') = ok_of_bind (read_all lines) (λ ms. ok (m ∷ ms)) h' in
      subst
        (λ l.
          read_mounts statvfs exclude seen (line ∷ lines) t
          ≡ show_all statvfs (taken exclude seen l) t)
        (ok-injective h'')
        (one_mount line m lines rest seen read (read_mounts-taken lines rest others) t)

-- A mount that is not excluded by its kind.
abbrev pub IsWanted : List Text → Mount → Type 0
IsWanted exclude m = one_of m.kind exclude ≡ false

taken-IsWanted :
    (exclude seen : List Text) (ms : List Mount) → All (IsWanted exclude) (taken exclude seen ms)
taken-IsWanted exclude seen [] = tt
taken-IsWanted exclude seen (m ∷ ms) = elim (Bool-cases (is_passed exclude seen m)) [
  | inl passed ↦ rw passed (taken-IsWanted exclude seen ms)
  | inr new ↦ rw new (ground arith, taken-IsWanted exclude (m.dev ∷ seen) ms)
]

-- What `one_of` says of a list that grew at its front.
abbrev pub IsNew : List Text → Mount → Type 0
IsNew seen m = one_of m.dev seen ≡ false

taken-IsNew :
    (exclude seen : List Text) (ms : List Mount) → All (IsNew seen) (taken exclude seen ms)
taken-IsNew exclude seen [] = tt
taken-IsNew exclude seen (m ∷ ms) = elim (Bool-cases (is_passed exclude seen m)) [
  | inl passed ↦ rw passed (taken-IsNew exclude seen ms)
  | inr new ↦ rw new (
    ground arith,
    All-map (λ later h. ground (arith, one_of_cons later.dev m.dev seen, h))
        (taken exclude (m.dev ∷ seen) ms) (taken-IsNew exclude (m.dev ∷ seen) ms),
  )
]

abbrev pub devs : List Mount → List Text
devs = map (λ (m : Mount). m.dev)

IsNew-differ :
    (d : Text) (seen : List Text) (ms : List Mount)
    → All (IsNew (d ∷ seen)) ms
    → All (λ y. d ≢ y) (devs ms)
IsNew-differ d seen [] h = tt
IsNew-differ d seen (m ∷ ms) (new, h) =
    (ground (arith, one_of_cons m.dev d seen, text_eq_iff d m.dev), IsNew-differ d seen ms h)

taken-Distinct :
    (exclude seen : List Text) (ms : List Mount) → Distinct (devs (taken exclude seen ms))
taken-Distinct exclude seen [] = tt
taken-Distinct exclude seen (m ∷ ms) = elim (Bool-cases (is_passed exclude seen m)) [
  | inl passed ↦ rw passed (taken-Distinct exclude seen ms)
  | inr new ↦ rw new (
    IsNew-differ m.dev seen (taken exclude (m.dev ∷ seen) ms)
        (taken-IsNew exclude (m.dev ∷ seen) ms),
    taken-Distinct exclude (m.dev ∷ seen) ms,
  )
]

-- The mounts whose kind is not excluded.
abbrev pub wanted : List Text → List Mount → List Mount
wanted exclude [] = []
wanted exclude (m ∷ ms) =
    let rest = wanted exclude ms in if one_of m.kind exclude then rest else m ∷ rest

-- The first mount of a source.
abbrev pub first_of : Text → List Mount → Option Mount
first_of d [] = none
first_of d (m ∷ ms) = if text_eq m.dev d then some m else first_of d ms

one_mount_first :
    (exclude seen : List Text) (m : Mount) (ms : List Mount) (d : Text)
    → ((s : List Text)
        → one_of d s ≡ false
        → first_of d (taken exclude s ms) ≡ first_of d (wanted exclude ms))
    → one_of d seen ≡ false
    → first_of d (taken exclude seen (m ∷ ms)) ≡ first_of d (wanted exclude (m ∷ ms))
one_mount_first exclude seen m ms d later new =
    ground (arith, later seen, later (m.dev ∷ seen), one_of_cons d m.dev seen, text_eq_iff m.dev d)

taken-first :
    (exclude : List Text) (ms : List Mount) (d : Text) (seen : List Text)
    → one_of d seen ≡ false
    → first_of d (taken exclude seen ms) ≡ first_of d (wanted exclude ms)
taken-first exclude [] d seen new = refl
taken-first exclude (m ∷ ms) d seen new =
    one_mount_first exclude seen m ms d (taken-first exclude ms d) new

one_of_nil : (d : Text) → one_of d [] ≡ false
unfolding one_of
one_of_nil d = refl

pub taken-All :
    (P : Mount → Type 0) (exclude seen : List Text) (ms : List Mount)
    → All P ms
    → All P (taken exclude seen ms)
taken-All P exclude seen [] h = tt
taken-All P exclude seen (m ∷ ms) (p, h) = elim (Bool-cases (is_passed exclude seen m)) [
  | inl passed ↦ rw passed (taken-All P exclude seen ms h)
  | inr new ↦ rw new (p, taken-All P exclude (m.dev ∷ seen) ms h)
]

module _ (statvfs : Text → Result Statvfs) (exclude : List Text) (lines : List Text)
    (ms : List Mount) where
  -- If all lines can be read, the update goes through mounts of which no kind is excluded and no two have
  -- one source, and for every source the first mount of it whose kind is not excluded is among them.
  pub space_update-taken :
      (t : TableModule)
      → read_all lines ≡ ok ms
      → (space_update statvfs exclude lines t ≡ show_all statvfs (taken exclude [] ms) t)
        × Distinct (devs (taken exclude [] ms))
        × All (IsWanted exclude) (taken exclude [] ms)
        × ((d : Text) → first_of d (taken exclude [] ms) ≡ first_of d (wanted exclude ms))
  unfolding space_update
  space_update-taken t h = (
    read_mounts-taken statvfs exclude lines ms h [] t,
    taken-Distinct exclude [] ms,
    taken-IsWanted exclude [] ms,
    (λ d. taken-first exclude ms d [] (one_of_nil d)),
  )
