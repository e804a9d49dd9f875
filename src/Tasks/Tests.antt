-- ===== src/Tasks/Tests.antt =====
-- A task that fails.
use snmpy.Shared.{Result, Exc, [], os_error, raise, true, ◌++◌, ◌∷◌, ◌≡◌}
use snmpy.Shared.Text.{Text, codes, join}
use snmpy.Tasks.{work_func}
use snmpy.Tasks.Log.{traced}
use snmpy.Tasks.Work.{logged_in, outcome_of, work, work_lem}

abbrev text_of : Exc → Text × Text
text_of e = (codes "no such file", codes "Traceback:" ++ b'\n' ∷ codes "OSError" ++ b'\n' ∷ [])

work_lem_example :
    (outcome_of (work text_of (codes "tail") true (raise os_error))
      ≡ work_func {A = Unit {0}} (raise os_error))
    × ((e : Exc)
        → ◌≡◌ {A = Result (Unit {0})} (raise os_error) (raise e)
        → join (b'\n' ∷ []) (traced (logged_in (work text_of (codes "tail") true (raise os_error))))
          ≡ (text_of e).1)
work_lem_example = work_lem text_of (codes "tail") true (raise os_error)
