-- ===== src/Plugins/LogProcessor.antt =====
-- lib/snmpy/module/log_processor.py: the thread that follows a log file. The state is the position in
-- the open file and what the lines are parsed into; a round of the loop is given what the file system
-- shows in it.
pub mod Chunks
pub mod Growing
pub mod Opened
pub mod Vanished
use snmpy.Shared.{
  Bool, List, Option, Proc, Result, [], drop, false, if◌then◌else◌, length, ltb, none, not, ok,
  os_error, raise, some, suc, take, true, zero, ℕ, ◌+◌, ◌-◌, ◌==◌, ◌>>◌, ◌||◌, ◌∷◌,
}
use snmpy.Shared.Text.{Text, find}

-- `os.stat(name).st_ino`, if the name is there; whether `open(name)` succeeds; of the open file, the
-- inode, the number of links and the bytes.
pub record Sight : Type 0 where
  pub named : Option ℕ
  pub opens : Bool
  pub inode : ℕ
  pub nlink : ℕ
  pub content : Text

pub record Tail (S : Type 0) : Type 0 where
  pub spot : ℕ
  pub parsed : S

-- What becomes of the first `open(name)`: the file with its bytes, an IOError, which is waited out, or
-- another exception, which is logged.
pub data Opening : Type 0 where
  opened : Text → Opening
  not_there : Opening
  open_failed : Opening

-- The first loop of `tail`: the position at the end of the file; `none` as long as it is not open.
open_log : List Opening → Option ℕ
open_log [] = none
open_log (opened content ∷ later) = some (length content)
open_log (_ ∷ later) = open_log later

module _ {S : Type 0} (each : Text → Proc S) where
  -- What follows a line: an exception leaves the loop, the rest of the text unread.
  unfoldable pub after_line :
      Result (Unit {0}) × S → Text → Result (Unit {0}) × Text × S → Result (Unit {0}) × Text × S
  after_line (ok _, s) text next = next
  after_line (raise e, s) text next = (raise e, text, s)

  -- The loop over the complete lines of `text`: how it ended, the text that is left, the state. `none`
  -- is `find`'s -1. The rounds are bounded by the first argument.
  pub read_lines : ℕ → Text → S → Result (Unit {0}) × Text × S
  read_lines zero text s = (ok tt, text, s)
  read_lines (suc fuel) text s = elim (find b'\n' text) [
    | none ↦ (ok tt, text, s)
    | some i ↦
        let st = each (take i text) s in
        after_line st (drop (i + 1) text) (read_lines fuel (drop (i + 1) text) st.1)
  ]

  -- `data.seek(-len(text), 1)` behind the last complete line; an exception leaves the position at the
  -- end of what was read.
  pub seek_back : ℕ → Result (Unit {0}) × Text × S → Result (Unit {0}) × Tail S
  seek_back size (ok _, text, s) = (ok tt, record { spot = size - length text; parsed = s })
  seek_back size (raise e, text, s) = (raise e, record { spot = size; parsed = s })

  pub read_new : Text → Proc (Tail S)
  read_new content t =
      let text = drop t.spot content in
      seek_back (length content) (read_lines (suc (length text)) text t.parsed)

  -- Whether the open file was moved, removed or truncated.
  is_stale : Sight → ℕ → ℕ → Bool
  is_stale look ino spot =
      not (ino == look.inode) || look.nlink == 0 || ltb (length look.content) spot

  reopen : Bool → Tail S → Tail S
  reopen true t = record t { spot = 0 }
  reopen false t = t

  -- One round of the second loop of `tail`; nothing catches the OSError of `os.stat`.
  pub round : Sight → Proc (Tail S)
  round look t = elim look.named [
    | none ↦ (raise os_error, t)
    | some ino ↦
        if is_stale look ino t.spot
        then (ok tt, reopen look.opens t)
        else if t.spot == length look.content
        then (ok tt, t)
        else read_new look.content t
  ]

  -- The rounds of the thread, up to one that raises.
  unfoldable pub rounds : List Sight → Proc (Tail S)
  rounds [] t = (ok tt, t)
  rounds (look ∷ looks) t = (round look >> rounds looks) t

  follow : Option ℕ → List Sight → S → Option (Result (Unit {0}) × Tail S)
  follow none looks s = none
  follow (some spot) looks s = some (rounds looks (record { spot = spot; parsed = s }))

  -- tail(name), over the attempts to open the file and the rounds after them
  pub tail : List Opening → List Sight → S → Option (Result (Unit {0}) × Tail S)
  unfolding open_log follow
  tail openings looks s = follow (open_log openings) looks s
