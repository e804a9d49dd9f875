-- ===== src/Plugins/FilesystemSpace/Tests.antt =====
-- Mounts at concrete inputs.
use snmpy.Shared.{
  All, Bool, Distinct, List, Result, [], arith, false, ok, os_error, raise, refl, ℕ, ◌==◌, ◌||◌,
  ◌∷◌, ◌≡◌, Bool-cases, if◌then◌else◌, inl, inr, none, ok-injective, subst, ◌++◌, ◌-◌, ◌/◌, ◌∙◌,
}
use snmpy.Shared.Text.{
  Text, codes, is_space, lstrip, starts_with, join, text_eq, lower, split, strip,
}
use snmpy.Module.Tables.{TableModule}
use snmpy.Plugins.FilesystemSpace.{Mount, Statvfs, read_mount, space_update, unescape_path}
use snmpy.Plugins.FilesystemSpace.Unescape.{escape, unescape_path-escape}
use snmpy.Plugins.FilesystemSpace.Sources.{IsWanted, devs, first_of, read_all, wanted}
use snmpy.Shared.Int.{pos}
use snmpy.Shared.Values.{Value, null}
use snmpy.Module.Item.{Item}
use snmpy.Mibgen.Syntax.{Syntax, integer32_syntax, octet_string_syntax}
use snmpy.Plugins.FilesystemSpace.Devnum.{devnum, parse_hex, print_hex}
use snmpy.Plugins.FilesystemSpace.Shown.{IsSound, ShowsAll, space_update_lem}

-- What the kernel escapes.
abbrev is_special : ℕ → Bool
is_special c = (c == b' ') || (c == b'\t') || (c == b'\n') || (c == b'\\')

unescape_path-escape_example : unescape_path (escape is_special (codes "/a b")) ≡ codes "/a b"
unescape_path-escape_example = unescape_path-escape is_special (codes "/a b") refl (omega arith)

abbrev root_line : Text
root_line = codes "22 0 8:1 / / rw,relatime shared:1 - ext4 /dev/sda1 rw"

abbrev bind_line : Text
bind_line = codes "40 22 8:1 /srv /mnt rw,relatime shared:1 - ext4 /dev/sda1 rw"

abbrev root_mount : Mount
root_mount = record {
  device = codes "8:1";
  path = codes "/";
  kind = codes "ext4";
  dev = codes "/dev/sda1";
}

abbrev bind_mount : Mount
bind_mount = record root_mount { path = codes "/mnt" }

root_read : read_all (root_line ∷ bind_line ∷ []) ≡ ok (root_mount ∷ bind_mount ∷ [])
unfolding read_mount starts_with lstrip is_space unescape_path
root_read = refl

-- The root has blocks, and nothing is known of another path.
abbrev root_space : Statvfs
root_space = record { f_blocks = 100; f_bfree = 40; f_bsize = 4096; f_files = 50; f_ffree = 20 }

abbrev statvfs : Text → Result Statvfs
statvfs path = if text_eq path (codes "/") then ok root_space else raise os_error

abbrev column : ℕ → Text → Syntax → Text × Item
column oid key k = (
  key,
  record {
    oidnum = oid;
    oidstr = [];
    syntax = k;
    regex = none;
    cdef = none;
    join = [];
    value = null;
  },
)

abbrev space_table : TableModule
space_table = record {
  name = codes "space";
  save = false;
  cols =
      column 1 (codes "devnum") integer32_syntax
      ∷ column 2 (codes "source") octet_string_syntax
      ∷ column 3 (codes "target") octet_string_syntax
      ∷ column 4 (codes "fstype") octet_string_syntax
      ∷ column 5 (codes "space_size") integer32_syntax
      ∷ column 6 (codes "space_used") integer32_syntax
      ∷ column 7 (codes "space_free") integer32_syntax
      ∷ column 8 (codes "inode_size") integer32_syntax
      ∷ column 9 (codes "inode_used") integer32_syntax
      ∷ column 10 (codes "inode_free") integer32_syntax
      ∷ [];
  rows = [];
}

root_number : devnum (codes "8:1") ≡ ok (pos 2049)
unfolding devnum parse_hex print_hex snmpy.Shared.Text.split snmpy.Shared.Text.strip starts_with
    snmpy.Shared.Text.lower
root_number = refl

sound : (path : Text) (s : Statvfs) → statvfs path ≡ ok s → IsSound s
sound path s h = elim (Bool-cases (text_eq path (codes "/"))) [
  | inl yes_ ↦
      let e : ok root_space ≡ ok s = (rw yes_ refl) ∙ h in
      subst IsSound (ok-injective e) (omega arith, omega arith)
  | inr differ_ ↦ let e : raise os_error ≡ ok s = (rw differ_ refl) ∙ h in absurd (cc)
]

space_update_lem_example :
    (shown : List Mount) × (rows : List (List Value)) × (space_update statvfs []
        (root_line ∷ bind_line ∷ [])
        space_table
      ≡ (ok tt, record space_table { rows = [] ++ rows }))
    × ShowsAll statvfs shown rows
    × Distinct (devs shown)
    × All (IsWanted []) shown
    × ((d : Text) → first_of d shown ≡ first_of d (wanted [] (root_mount ∷ bind_mount ∷ [])))
space_update_lem_example =
    space_update_lem statvfs [] (root_line ∷ bind_line ∷ []) (root_mount ∷ bind_mount ∷ [])
      space_table
      (
        refl,
        refl,
        refl,
        (
          refl,
          refl,
          refl,
          (
            refl,
            refl,
            refl,
            (
              refl,
              refl,
              refl,
              (
                refl,
                refl,
                refl,
                (
                  refl,
                  refl,
                  refl,
                  (
                    refl,
                    refl,
                    refl,
                    (refl, refl, refl, (refl, refl, refl, (refl, refl, refl, tt))),
                  ),
                ),
              ),
            ),
          ),
        ),
      )
      root_read
      (
        ((pos 2049, root_number), sound (codes "/")),
        (((pos 2049, root_number), sound (codes "/mnt")), tt),
      )
