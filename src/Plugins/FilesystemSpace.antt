-- ===== src/Plugins/FilesystemSpace.antt =====
-- lib/snmpy/module/filesystem_space.py: the mounted file systems out of the lines of mountinfo. What
-- `os.statvfs` answers for a path is a parameter.
pub mod Unescape
pub mod Sources
pub mod Shown
pub mod Devnum
mod Tests
use snmpy.Shared.{
  Bool, List, Option, Proc, Result, [], drop, false, if◌then◌else◌, leb, ltb, none, ok, raise, some,
  suc, true, value_error, zero, ℕ, ◌&&◌, ◌*◌, ◌+◌, ◌-◌, ◌/◌, ◌==◌, ◌>>◌, ◌||◌, ◌∷◌,
}
use snmpy.Shared.Text.{Text, codes, contains, is_space, lstrip, starts_with, one_of}
use snmpy.Shared.Int.{div_ℤ, negsuc, pos, sub_ℕ, ℤ}
use snmpy.Shared.Values.{int, str}
use snmpy.Module.Tables.{RowData, TableModule, append, sequence}
use snmpy.Plugins.FilesystemSpace.Devnum.{devnum}

is_digit_to : ℕ → ℕ → Bool
is_digit_to last c = leb b'0' c && leb c last

-- r'(\\[0-3][0-7][0-7])' at the start of a text, and the `chr` for it
is_escape : ℕ → ℕ → ℕ → ℕ → Bool
unfolding is_digit_to
is_escape a b c d =
    (a == b'\\') && (is_digit_to b'3' b && (is_digit_to b'7' c && is_digit_to b'7' d))

unescaped : ℕ → ℕ → ℕ → ℕ
unescaped b c d = (b - 48) * 64 + (c - 48) * 8 + (d - 48)

-- _unescape_path(path)
pub unescape_path : Text → Text
unfolding is_escape unescaped
unescape_path [] = []
unescape_path (a ∷ []) = a ∷ []
unescape_path (a ∷ b ∷ []) = a ∷ b ∷ []
unescape_path (a ∷ b ∷ c ∷ []) = a ∷ b ∷ c ∷ []
unescape_path (a ∷ b ∷ c ∷ d ∷ s) = elim (is_escape a b c d) [
  | true ↦ unescaped b c d ∷ unescape_path s
  | false ↦ a ∷ unescape_path (b ∷ c ∷ d ∷ s)
]

-- The word at the start of a text, and what comes behind it.
word : Text → Text
word [] = []
word (c ∷ s) = let rest = word s in if is_space c then [] else c ∷ rest

after_word : Text → Text
after_word [] = []
after_word (c ∷ s) = let rest = after_word s in if is_space c then c ∷ s else rest

-- s.split(None, n)
pub split_words : ℕ → Text → List Text
unfolding word after_word
split_words zero s = elim (lstrip s) [ [] ↦ [] | c ∷ t ↦ (c ∷ t) ∷ [] ]
split_words (suc n) s = elim (lstrip s) [
  | [] ↦ []
  | c ∷ t ↦ word (c ∷ t) ∷ split_words n (after_word (c ∷ t))
]

onto_cut : ℕ → Option (Text × Text) → Option (Text × Text)
onto_cut c none = none
onto_cut c (some (l, r)) = some (c ∷ l, r)

-- line.split(' - ', 1), if that has two parts
cut_line : Text → Option (Text × Text)
unfolding onto_cut
cut_line [] = none
cut_line (c ∷ s) =
    let rest = onto_cut c (cut_line s) in
    if starts_with (c ∷ s) (codes " - ") then some ([], drop 2 s) else rest

pub record Mount : Type 0 where
  pub device : Text
  pub path : Text
  pub kind : Text
  pub dev : Text

-- The fields before the separator and those behind it; any other number of them cannot be unpacked.
mount_of : List Text → List Text → Result Mount
unfolding unescape_path
mount_of (m_id ∷ p_id ∷ d_id ∷ root ∷ path ∷ opts ∷ []) (kind ∷ dev ∷ args ∷ []) =
    ok (record { device = d_id; path = unescape_path path; kind = kind; dev = unescape_path dev })
mount_of _ _ = raise value_error

pub read_mount : Text → Result Mount
unfolding cut_line split_words mount_of
read_mount line = elim (cut_line line) [
  | none ↦ raise value_error
  | some (l, r) ↦ mount_of (split_words 5 l) (split_words 5 r)
]

pub record Statvfs : Type 0 where
  pub f_blocks : ℕ
  pub f_bfree : ℕ
  pub f_bsize : ℕ
  pub f_files : ℕ
  pub f_ffree : ℕ

scale : ℤ → ℕ → ℤ
scale (pos n) k = pos (n * k)
scale (negsuc n) zero = pos 0
scale (negsuc n) (suc k) = negsuc (suc n * suc k - 1)

pub space_row : ℤ → Mount → Statvfs → RowData
unfolding scale
space_row num m s = sequence (
    int num
    ∷ str m.dev
    ∷ str m.path
    ∷ str m.kind
    ∷ int (pos (s.f_blocks * s.f_bsize / 1024))
    ∷ int (div_ℤ (scale (sub_ℕ s.f_blocks s.f_bfree) s.f_bsize) 1024)
    ∷ int (pos (s.f_bfree * s.f_bsize / 1024))
    ∷ int (pos s.f_files)
    ∷ int (sub_ℕ s.f_files s.f_ffree)
    ∷ int (pos s.f_ffree)
    ∷ [])

-- A file system that has blocks and a path as its source is shown; an exception of `statvfs` is logged.
pub show_mount : (Text → Result Statvfs) → Mount → Proc TableModule
unfolding space_row
show_mount statvfs m t = elim (statvfs m.path) [
  | raise e ↦ (ok tt, t)
  | ok s ↦
      if ltb 0 s.f_blocks && contains b'/' m.dev
      then (elim (devnum m.device) [
        | raise e ↦ (raise e, t)
        | ok num ↦ append (space_row num m s) t
      ])
      else (ok tt, t)
]

-- Whether the loop goes on with the next line at once: for the kind, or for the source.
abbrev pub is_passed : List Text → List Text → Mount → Bool
is_passed exclude seen m = one_of m.kind exclude || one_of m.dev seen

-- `seen` after a mount
abbrev pub saw : List Text → List Text → Mount → List Text
saw exclude seen m = if is_passed exclude seen m then seen else m.dev ∷ seen

module _ (statvfs : Text → Result Statvfs) (exclude : List Text) where
  on_mount : List Text → Mount → Proc TableModule
  unfolding show_mount
  on_mount seen m t = if is_passed exclude seen m then (ok tt, t) else show_mount statvfs m t

  -- The loop over the lines, with `seen`.
  pub read_mounts : List Text → List Text → Proc TableModule
  unfolding on_mount read_mount
  read_mounts seen [] t = (ok tt, t)
  read_mounts seen (line ∷ lines) t = elim (read_mount line) [
    | raise e ↦ (raise e, t)
    | ok m ↦ (on_mount seen m >> read_mounts (saw exclude seen m) lines) t
  ]

  -- update, for the lines of /proc/self/mountinfo
  pub space_update : List Text → Proc TableModule
  unfolding read_mounts
  space_update lines = read_mounts [] lines
