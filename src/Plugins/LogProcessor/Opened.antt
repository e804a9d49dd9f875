-- ===== src/Plugins/LogProcessor/Opened.antt =====
-- From which byte on lib/snmpy/module/log_processor.py parses a log.
use snmpy.Shared.{All, List, Proc, Result, [], ap, length, refl, some, ℕ, ◌++◌, ◌∷◌, ◌≡◌}
use snmpy.Shared.Text.{Text}
use snmpy.Plugins.LogProcessor.{
  Opening, Tail, follow, not_there, open_failed, open_log, opened, rounds, tail,
}
use snmpy.Plugins.LogProcessor.Chunks.{scan}
use snmpy.Plugins.LogProcessor.Growing.{appended, concat, rounds-appended}

-- The file was not opened.
abbrev pub IsWaiting : Opening → Type 0
IsWaiting (opened content) = ⊥
IsWaiting not_there = Unit
IsWaiting open_failed = Unit

open_log_first :
    (waits later : List Opening) (content : Text)
    → All IsWaiting waits
    → open_log (waits ++ opened content ∷ later) ≡ some (length content)
unfolding open_log
open_log_first [] later content h = refl
open_log_first (not_there ∷ waits) later content (w, h) = open_log_first waits later content h
open_log_first (open_failed ∷ waits) later content (w, h) = open_log_first waits later content h
open_log_first (opened c ∷ waits) later content (w, h) = absurd w

module _ {S : Type 0} (each : Text → Proc S) where
  -- However often the log cannot be opened at first: of what is appended to it after it was opened, the
  -- thread parses the lines in their order, each once it is complete and once only, however the bytes
  -- are divided over the rounds, and nothing of what was there before; what it parses them into is what
  -- one scan of the appended bytes gives, up to a line that raises.
  pub tail-appended :
      (waits later : List Opening) (ino : ℕ) (chunks : List Text) (content : Text) (s : S)
      → All IsWaiting waits
      → (out : Result (Unit {0}) × Tail S) × (tail each
            (waits ++ opened content ∷ later)
            (appended ino content chunks)
            s
          ≡ some out)
        × (out.0 ≡ (scan each [] (concat chunks) s).0)
        × (out.1.parsed ≡ (scan each [] (concat chunks) s).2)
  unfolding tail follow
  tail-appended waits later ino chunks content s h =
      let (ends, parsed) = rounds-appended each ino chunks content s in
      (
        rounds each (appended ino content chunks) (record { spot = length content; parsed = s }),
        ap (λ o. follow each o (appended ino content chunks) s)
            (open_log_first waits later content h),
        ends,
        parsed,
      )
