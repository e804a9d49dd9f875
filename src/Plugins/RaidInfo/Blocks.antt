-- ===== src/Plugins/RaidInfo/Blocks.antt =====
-- How lib/snmpy/module/raid_info.py reads what mdadm prints array after array.
use snmpy.Shared.{All, List, Option, [], none, some, ◌++◌, ◌∷◌, ◌≡◌}
use snmpy.Shared.Text.{Text}
use snmpy.Shared.Dicts.{Dict, insert}
use snmpy.Plugins.RaidInfo.{Raid, Volume, add_disk, new_volume, set_attr}
use snmpy.Plugins.RaidInfo.Patterns.{Attr, Disk, match_label, search_attr, search_disk}

-- What a line says of its array.
disk_said : Option Disk → Volume → Volume
unfolding add_disk
disk_said none v = v
disk_said (some d) v = add_disk d v

found_said : Attr → Option Text → Volume → Volume → Volume
unfolding set_attr
found_said a none later v = later
found_said a (some s) later v = set_attr a s v

pub said : List Attr → Text → Volume → Volume
unfolding disk_said found_said
said [] line v = disk_said (search_disk line) v
said (a ∷ attrs) line v = let later = said attrs line v in found_said a (search_attr a line) later v

pub all_said : List Attr → List Text → Volume → Volume
unfolding said
all_said attrs [] v = v
all_said attrs (line ∷ lines) v = all_said attrs lines (said attrs line v)

-- A line that names an array, the name, and the lines up to the next that names one.
pub record Block : Type 0 where
  pub label : Text
  pub volume : Text
  pub lines : List Text

abbrev pub IsBlock : Block → Type 0
IsBlock b = (match_label b.label ≡ some b.volume) × All (λ line. match_label line ≡ none) b.lines

abbrev pub lines_of : List Block → List Text
lines_of [] = []
lines_of (b ∷ bs) = (b.label ∷ b.lines) ++ lines_of bs

abbrev pub entries : List Attr → List Block → Dict Volume
entries attrs [] = []
entries attrs (b ∷ bs) = (b.volume, all_said attrs b.lines new_volume) ∷ entries attrs bs

module _ (name : Text) where
  -- The array that the lines are about.
  abbrev current : Volume → Dict Volume → Raid
  current v d = record { raid = insert name v d; name = some name }

abbrev pub last_name : Option Text → List Block → Option Text
last_name name [] = name
last_name name (b ∷ bs) = last_name (some b.volume) bs
