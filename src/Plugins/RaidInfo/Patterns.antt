-- ===== src/Plugins/RaidInfo/Patterns.antt =====
-- The regular expressions of lib/snmpy/module/raid_info.py. Each is matched without going back: what
-- follows a repetition cannot start with a byte that the repetition takes.
pub mod DiskLines
use snmpy.Shared.{
  Bool, Option, [], drop, if◌then◌else◌, length, none, not, some, ℕ, ◌++◌, ◌==◌, ◌||◌, ◌∷◌,
}
use snmpy.Shared.Text.{Text, codes, is_digit, is_lower, is_space, is_upper, starts_with, text_eq}

-- The bytes of a class at the start of a text, and what comes behind them.
pub take_while : (ℕ → Bool) → Text → Text
take_while p [] = []
take_while p (c ∷ s) = let rest = take_while p s in if p c then c ∷ rest else []

pub drop_while : (ℕ → Bool) → Text → Text
drop_while p [] = []
drop_while p (c ∷ s) = let rest = drop_while p s in if p c then rest else c ∷ s

run_of : Text → Text → Option (Text × Text)
run_of [] rest = none
run_of (c ∷ w) rest = some (c ∷ w, rest)

-- One byte or more of a class, as many as there are.
pub some_run : (ℕ → Bool) → Text → Option (Text × Text)
unfolding take_while drop_while run_of
some_run p s = run_of (take_while p s) (drop_while p s)

-- \w, and [\w\./_]
unfoldable pub is_word : ℕ → Bool
is_word c = is_upper c || is_lower c || is_digit c || c == b'_'

unfoldable pub is_label_char : ℕ → Bool
unfolding is_word
is_label_char c = is_word c || c == b'.' || c == b'/'

-- [\w ,], and `.`
pub is_state_char : ℕ → Bool
unfolding is_word
is_state_char c = is_word c || c == b' ' || c == b','

pub is_not_newline : ℕ → Bool
is_not_newline c = not (c == b'\n')

before_colon : Option (Text × Text) → Option Text
before_colon none = none
before_colon (some (l, rest)) = if text_eq rest (codes ":") then some l else none

-- patt['label'].match(line)
unfoldable pub match_label : Text → Option Text
unfolding before_colon some_run is_label_char
match_label line = before_colon (some_run is_label_char line)

first_of_run : Option (Text × Text) → Option Text
first_of_run none = none
first_of_run (some (w, rest)) = some w

-- A literal and a run of a class behind it, at the start of a text.
literal_run : Text → (ℕ → Bool) → Text → Option Text
unfolding some_run first_of_run
literal_run lit p s =
    if starts_with s lit then first_of_run (some_run p (drop (length lit) s)) else none

or_else : Option Text → Option Text → Option Text
or_else none o = o
or_else (some w) o = some w

-- The first place in the line where one of two literals stands with such a run behind it.
search_run : Text → Text → (ℕ → Bool) → Text → Option Text
unfolding literal_run or_else
search_run l r p [] = none
search_run l r p (c ∷ s) =
    or_else (literal_run l p (c ∷ s)) (or_else (literal_run r p (c ∷ s)) (search_run l r p s))

pub data Attr : Type 0 where
  bytes_attr level_attr state_attr extra_attr : Attr

-- patt['attrs'][attr].search(line)
unfoldable pub search_attr : Attr → Text → Option Text
unfolding search_run is_state_char is_not_newline
search_attr bytes_attr line =
    search_run (codes "Array Size : ") (codes "Array Size : ") is_digit line
search_attr level_attr line =
    search_run (codes "Raid Level : raid") (codes "Raid Level : raid") is_digit line
search_attr state_attr line = search_run (codes "State : ") (codes "State : ") is_state_char line
search_attr extra_attr line =
    search_run (codes "Rebuild Status : ") (codes "Resync Status : ") is_not_newline line

rest_of_run : Option (Text × Text) → Option Text
rest_of_run none = none
rest_of_run (some (w, rest)) = some rest

after_run : (ℕ → Bool) → Option Text → Option Text
unfolding some_run rest_of_run
after_run p none = none
after_run p (some s) = rest_of_run (some_run p s)

-- \s+\d+
pub after_number : Option Text → Option Text
unfolding after_run
after_number s = after_run is_digit (after_run is_space s)

pub record Disk : Type 0 where
  pub state : Text
  pub label : Option Text

-- (?:\s+(?P<LABEL>[\w\./_]+))?
label_at : Option (Text × Text) → Option Text
unfolding some_run is_label_char first_of_run
label_at none = none
label_at (some (space, s)) = first_of_run (some_run is_label_char s)

-- The second word of the state, if there is one, with the space before it.
second_word : Text → Text → Text → Option (Text × Text) → Disk
unfolding label_at some_run
second_word w rest space none = record { state = w; label = label_at (some_run is_space rest) }
second_word w rest space (some (v, rest')) = record {
  state = w ++ (space ++ v);
  label = label_at (some_run is_space rest');
}

behind_word : Text → Text → Option (Text × Text) → Disk
unfolding second_word some_run is_word
behind_word w rest none = record { state = w; label = none }
behind_word w rest (some (space, s)) = second_word w rest space (some_run is_word s)

disk_of : Option (Text × Text) → Option Disk
unfolding behind_word some_run
disk_of none = none
disk_of (some (w, rest)) = some (behind_word w rest (some_run is_space rest))

disk_at : Option Text → Option Disk
unfolding disk_of some_run is_word
disk_at none = none
disk_at (some s) = disk_of (some_run is_word s)

-- patt['disks'].search(line)
unfoldable pub search_disk : Text → Option Disk
unfolding after_number after_run disk_at
search_disk line =
    disk_at
      (after_run is_space (after_number (after_number (after_number (after_number (some line))))))
