-- ===== src/Plugins/DiskUtilization.antt =====
-- lib/snmpy/module/disk_utilization.py: the averages that `sar` printed last, for the disks of diskstats.
-- `int(float(text))` is a parameter.
pub mod Averages
pub mod Sar
pub mod Shown
mod Tests
use snmpy.Shared.{
  List, Option, Proc, Result, [], get_elem?, if◌then◌else◌, index_error, leb, length, none, ok,
  or_raise, raise, some, ℕ, ◌++◌, ◌-◌, ◌>>=◌, ◌>>◌, ◌∷◌, Bool, false, true,
}
use snmpy.Shared.Text.{Text, codes, split, starts_with, text_eq}
use snmpy.Shared.Int.{pos, ℤ}
use snmpy.Shared.Values.{Value, int, str}
use snmpy.Shared.Dicts.{Dict, insert, lookup}
use snmpy.Module.Tables.{TableModule, append, sequence}
use snmpy.Plugins.ProcessInfo.{words_of}

-- part[-i], for `i` from 1 on
from_end : ℕ → List Text → Result Text
from_end i part =
    if leb i (length part)
    then or_raise index_error (get_elem? part (length part - i))
    else raise index_error

-- disk[name], or [0, 0]
abbrev pub Averages : Type 0
Averages = ℤ × ℤ

put : Option (Text × Averages) → Dict Averages → Dict Averages
put none disk = disk
put (some e) disk = insert e.0 e.1 disk

module _ (int_float : Text → Result ℤ) where
  averages_part : List Text → Result (Text × Averages)
  unfolding from_end
  averages_part part = do
    wait ← from_end 3 part >>= int_float
    util ← from_end 1 part >>= int_float
    dev ← from_end 9 part
    ok (dev, (wait, util))

  device_entry : Bool → List Text → Result (Option (Text × Averages))
  unfolding averages_part
  device_entry false part = ok none
  device_entry true part = do e ← averages_part part; ok (some e)

  -- The test on the words of a line, and what it has for `disk`.
  pub part_entry : List Text → Result (Option (Text × Averages))
  unfolding device_entry
  part_entry [] = ok none
  part_entry (w ∷ ws) =
      if text_eq w (codes "Average:")
      then ok none
      else (or_raise index_error (get_elem? (w ∷ ws) 1)
          >>= (λ second. device_entry (starts_with second (codes "dev")) (w ∷ ws)))

  -- The loop over the lines of `sar`.
  pub read_sar : List Text → Dict Averages → Result (Dict Averages)
  unfolding part_entry put
  read_sar [] disk = ok disk
  read_sar (line ∷ lines) disk = do e ← part_entry (words_of line); read_sar lines (put e disk)

-- 'dev{}-{}'.format(*line.split()[0:2]), and line.split()[2]
pub disk_words : List Text → Result (Text × Text)
disk_words (major ∷ minor ∷ name ∷ _) = ok (codes "dev" ++ (major ++ (b'-' ∷ minor)), name)
disk_words _ = raise index_error

abbrev pub averages_of : Option Averages → Averages
averages_of none = (pos 0, pos 0)
averages_of (some a) = a

abbrev pub averages_row : Averages → Text → List Value
averages_row (wait, util) name = str name ∷ int wait ∷ int util ∷ []

abbrev pub disk_row : Dict Averages → Text × Text → List Value
disk_row disk (dev, name) = averages_row (averages_of (lookup dev disk)) name

-- The loop over the lines of /proc/diskstats.
pub append_disks : Dict Averages → List Text → Proc TableModule
unfolding disk_words
append_disks disk [] t = (ok tt, t)
append_disks disk (line ∷ lines) t = elim (disk_words (words_of line)) [
  | raise e ↦ (raise e, t)
  | ok d ↦ (append (sequence (disk_row disk d)) >> append_disks disk lines) t
]

append_read : Result (Dict Averages) → List Text → Proc TableModule
unfolding append_disks
append_read (raise e) stats t = (raise e, t)
append_read (ok disk) stats t = append_disks disk stats t

-- update, for what `sar` prints and the lines of /proc/diskstats
pub disk_update : (Text → Result ℤ) → Text → List Text → Proc TableModule
unfolding read_sar append_read
disk_update int_float output stats t =
    append_read (read_sar int_float (split b'\n' output) []) stats t
