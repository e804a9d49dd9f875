-- ===== src/Plugins/LogProcessor/Vanished.antt =====
-- A log that is not there for a round (lib/snmpy/module/log_processor.py).
use snmpy.Shared.{List, Proc, Result, [], ap, continue, none, ok, os_error, raise, ◌++◌, ◌∷◌, ◌≡◌}
use snmpy.Tasks.{exited, log_fatal, work_func}
use snmpy.Plugins.LogProcessor.{Sight, Tail, round, rounds}
use snmpy.Shared.Text.{Text}

module _ {S : Type 0} (each : Text → Proc S) where
  continue-vanished :
      (p : Result (Unit {0}) × Tail S) (before : List Sight) (tail : List Sight) (t' : Tail S)
      → ((t : Tail S)
          → rounds each before t ≡ (ok tt, t')
          → rounds each (before ++ tail) t ≡ (raise os_error, t'))
      → continue p (rounds each before) ≡ (ok tt, t')
      → continue p (rounds each (before ++ tail)) ≡ (raise os_error, t')
  continue-vanished (ok u, t) before tail t' h e = h t e
  continue-vanished (raise x, t) before tail t' h e = cc

  rounds-append_vanished :
      (before after : List Sight) (look : Sight) (t t' : Tail S)
      → look.named ≡ none
      → rounds each before t ≡ (ok tt, t')
      → rounds each (before ++ look ∷ after) t ≡ (raise os_error, t')
  unfolding rounds round
  rounds-append_vanished [] after look t t' gone e =
      rw (gone, rounds, round) (ap (λ (p : Result (Unit {0}) × Tail S). (raise os_error, p.1)) e)
  rounds-append_vanished (x ∷ before) after look t t' gone e =
      continue-vanished (round each x t) before (look ∷ after) t'
        (λ u h. rounds-append_vanished before after look u t' gone h) e

  -- If in some round the log is not under its name, as while it is being rotated, the thread ends the
  -- process in that round, whatever would be seen in later ones; what was parsed before stays.
  pub rounds-vanished :
      (before after : List Sight) (look : Sight) (t t' : Tail S)
      → look.named ≡ none
      → rounds each before t ≡ (ok tt, t')
      → (work_func (rounds each (before ++ look ∷ after) t).0 ≡ exited 1)
        × ((rounds each (before ++ look ∷ after) t).1 ≡ t')
  unfolding work_func log_fatal
  rounds-vanished before after look t t' gone e =
      let raised = rounds-append_vanished before after look t t' gone e in
      (
        ap (λ (p : Result (Unit {0}) × Tail S). work_func p.0) raised,
        ap (λ (p : Result (Unit {0}) × Tail S). p.1) raised,
      )
