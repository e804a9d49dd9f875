-- ===== src/Plugins/ProcessInfo.antt =====
-- lib/snmpy/module/process_info.py: the processes that /proc shows. What stands in the files of a process
-- is a parameter, with the exception if one of them cannot be read.
pub mod Shown
mod Tests
use snmpy.Shared.{
  Bool, List, Proc, Result, [], attribute_error, drop, false, get_elem?, if◌then◌else◌, index_error,
  key_error, map, none, ok, or_raise, raise, some, true, ℕ, ◌&&◌, ◌==◌, ◌>>=◌, ◌∷◌, Option,
}
use snmpy.Shared.Text.{Text, codes, is_digit, is_space, join, lower, onto_head, starts_with, strip}
use snmpy.Shared.Int.{pos, ℤ}
use snmpy.Shared.Numbers.{parse_int}
use snmpy.Shared.Values.{Value, int, str}
use snmpy.Shared.Dicts.{Dict, insert, keys, lookup}
use snmpy.Module.Tables.{TableModule, append, sequence}

-- What is read of a process; the time is a whole number of seconds, as the column keeps it.
pub record ProcFiles : Type 0 where
  pub fds : ℕ
  pub cmdline : Text
  pub mtime : ℤ
  pub status : List Text
  pub limits : List Text

-- _f, _c, _t, _s and _l
pub record ProcessData : Type 0 where
  pub open_fds : ℕ
  pub args : Text
  pub started : ℤ
  pub status : Dict Text
  pub limits : Dict (List Text)

push : Text → List Text → List Text
push [] ws = ws
push (c ∷ w) ws = (c ∷ w) ∷ ws

-- The word that a text starts in, and the words behind it.
in_words : Text → Text × List Text
unfolding push
in_words [] = ([], [])
in_words (c ∷ s) = let (w, ws) = in_words s in if is_space c then ([], push w ws) else (c ∷ w, ws)

-- s.split()
unfoldable pub words_of : Text → List Text
unfolding in_words
words_of s = let (w, ws) = in_words s in push w ws

-- s.strip(':')
strip_left : Text → Text
strip_left [] = []
strip_left (c ∷ s) = let rest = strip_left s in if c == b':' then rest else c ∷ s

drop_colon : ℕ → Text → Text
drop_colon c [] = if c == b':' then [] else c ∷ []
drop_colon c (d ∷ t) = c ∷ d ∷ t

strip_right : Text → Text
unfolding drop_colon
strip_right [] = []
strip_right (c ∷ s) = drop_colon c (strip_right s)

strip_colons : Text → Text
unfolding strip_left strip_right
strip_colons s = strip_right (strip_left s)

add_words : List Text → Dict Text → Dict Text
unfolding strip_colons
add_words (key ∷ val ∷ _) d = insert (map lower (strip_colons key)) val d
add_words _ d = d

pub read_status : List Text → Dict Text → Dict Text
unfolding add_words
read_status [] d = d
read_status (line ∷ lines) d = read_status lines (add_words (words_of line) d)

-- s.split('  ')
split_blanks : Text → List Text
split_blanks [] = [] ∷ []
split_blanks (c ∷ []) = (c ∷ []) ∷ []
split_blanks (c ∷ d ∷ s) = elim ((c == b' ') && (d == b' ')) [
  | true ↦ [] ∷ split_blanks s
  | false ↦ onto_head c (split_blanks (d ∷ s))
]

-- map(str.strip, filter(None, l))
strip_all : List Text → List Text
strip_all [] = []
strip_all ([] ∷ l) = strip_all l
strip_all ((c ∷ s) ∷ l) = strip (c ∷ s) ∷ strip_all l

-- l[1:-1], for what stands behind the first element
but_last : List Text → List Text
but_last [] = []
but_last (s ∷ []) = []
but_last (s ∷ t ∷ l) = s ∷ but_last (t ∷ l)

limit_key : Text → Text
limit_key s = join (b'_' ∷ []) (drop 1 (words_of (strip s)))

add_limit : List Text → Dict (List Text) → Dict (List Text)
unfolding but_last limit_key
add_limit [] d = d
add_limit (name ∷ l) d = insert (limit_key name) (but_last l) d

pub read_limits : List Text → Dict (List Text) → Dict (List Text)
unfolding add_limit strip_all split_blanks
read_limits [] d = d
read_limits (line ∷ lines) d =
    read_limits lines
      (if starts_with line (codes "Max") then add_limit (strip_all (split_blanks line)) d else d)

-- s.replace('\0', ' ')
blank_nul : ℕ → ℕ
blank_nul c = if c == 0 then b' ' else c

-- process_data(pid)
pub process_data : ProcFiles → ProcessData
unfolding blank_nul read_status read_limits
process_data f = record {
  open_fds = f.fds;
  args = strip (map blank_nul f.cmdline);
  started = f.mtime;
  status = read_status f.status [];
  limits = read_limits f.limits [];
}

int_of : Text → Result Value
int_of s = do z ← parse_int s; ok (int z)

-- int(self._s[key]), and with a default
status_int : Text → ProcessData → Result Value
unfolding int_of
status_int key p = do s ← or_raise key_error (lookup key p.status); int_of s

int_or : ℕ → Option Text → Result Value
unfolding int_of
int_or d none = ok (int (pos d))
int_or d (some s) = int_of s

name_of : ProcessData → Result Value
name_of p = do s ← or_raise key_error (lookup (codes "name") p.status); ok (str s)

-- int(self._l['open_files'][i])
fd_limit : ℕ → ProcessData → Result Value
unfolding int_of
fd_limit i p = do
  l ← or_raise key_error (lookup (codes "open_files") p.limits)
  s ← or_raise index_error (get_elem? l i)
  int_of s

-- The properties of the class, by their names.
pub attributes : List (Text × (ProcessData → Result Value))
unfolding status_int int_or fd_limit name_of
attributes =
    (codes "pid", status_int (codes "pid"))
    ∷ (codes "ppid", status_int (codes "ppid"))
    ∷ (codes "name", name_of)
    ∷ (codes "args", λ p. ok (str p.args))
    ∷ (codes "start_time", λ p. ok (int p.started))
    ∷ (codes "fd_open", λ p. ok (int (pos p.open_fds)))
    ∷ (codes "fd_limit_soft", fd_limit 0)
    ∷ (codes "fd_limit_hard", fd_limit 1)
    ∷ (codes "thr_running", λ p. int_or 1 (lookup (codes "threads") p.status))
    ∷ (codes "mem_resident", λ p. int_or 0 (lookup (codes "vmrss") p.status))
    ∷ (codes "mem_swap", λ p. int_or 0 (lookup (codes "vmswap") p.status))
    ∷ (codes "ctx_voluntary", λ p. int_or 0 (lookup (codes "voluntary_ctxt_switches") p.status))
    ∷ (
      codes "ctx_involuntary",
      λ p. int_or 0 (lookup (codes "nonvoluntary_ctxt_switches") p.status),
    )
    ∷ []

-- getattr(p, c)
pub attribute : ProcessData → Text → Result Value
unfolding attributes
attribute p c = do f ← or_raise attribute_error (lookup c attributes); f p

-- [getattr(p, c) for c in names]
pub attribute_row : ProcessData → List Text → Result (List Value)
unfolding attribute
attribute_row p [] = ok []
attribute_row p (c ∷ cs) = do v ← attribute p c; vs ← attribute_row p cs; ok (v ∷ vs)

-- s.isdigit()
all_digits : Text → Bool
all_digits [] = true
all_digits (c ∷ s) = is_digit c && all_digits s

pub is_pid : Text → Bool
unfolding all_digits
is_pid [] = false
is_pid (c ∷ s) = all_digits (c ∷ s)

append_told : Result (List Value) → Proc TableModule
append_told (raise e) t = (raise e, t)
append_told (ok vs) t = append (sequence vs) t

module _ (proc : Text → Result ProcFiles) where
  -- process_data(pid), and the values of its attributes
  pub told : Text → List Text → Result (List Value)
  unfolding process_data attribute_row
  told pid names = do f ← proc pid; attribute_row (process_data f) names

  -- The body of the try.
  pub gather : Text → Proc TableModule
  unfolding append_told told
  gather pid t = append_told (told pid (keys t.cols)) t

  -- update, for the names in /proc: an exception is logged.
  pub process_update : List Text → Proc TableModule
  unfolding gather is_pid
  process_update [] t = (ok tt, t)
  process_update (pid ∷ pids) t = process_update pids (if is_pid pid then (gather pid t).1 else t)
