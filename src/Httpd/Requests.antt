-- ===== src/Httpd/Requests.antt =====
-- `Server.process_request` of lib/snmpy/httpd.py: the time limit of a request, and what is caught. How
-- long a request takes and how it ends are parameters; the alarm comes after its seconds.
use snmpy.Shared.{
  Exc, List, Option, [], if◌then◌else◌, ltb, none, runtime_error, some, suc, zero, ℕ, ◌++◌, ◌∷◌,
  ◌≡◌, refl,
}

-- How the handling of a request ends: KeyboardInterrupt is no Exception.
pub data Ending : Type 0 where
  served : Ending
  failed : Exc → Ending
  interrupted : Ending

-- A request: the seconds that it would take, how it would end then, and how it ends if an exception
-- is raised in it before.
pub record Request : Type 0 where
  pub seconds : ℕ
  pub ends : Ending
  pub struck : Exc → Ending

-- The alarm of the process, if one is set, and the exceptions that were logged.
pub record Process : Type 0 where
  pub alarm : Option ℕ
  pub logged : List Exc

-- signal.alarm(seconds): 0 sets none.
set_alarm : ℕ → Process → Process
set_alarm zero p = record p { alarm = none }
set_alarm (suc n) p = record p { alarm = some (suc n) }

-- BaseHTTPServer's process_request, in which `handle_timeout` raises RuntimeError at the alarm.
run_request : Request → Option ℕ → Ending
run_request q none = q.ends
run_request q (some limit) = if ltb q.seconds limit then q.ends else q.struck runtime_error

-- except Exception as e: log_error(e)
catch_exception : Ending → Process → Ending × Process
catch_exception served p = (served, p)
catch_exception (failed e) p = (served, record p { logged = p.logged ++ e ∷ [] })
catch_exception interrupted p = (interrupted, p)

-- finally: signal.alarm(0)
finally_quiet : Ending × Process → Ending × Process
unfolding set_alarm
finally_quiet (e, p) = (e, set_alarm 0 p)

-- process_request
pub process_request : Request → Process → Ending × Process
unfolding set_alarm run_request catch_exception finally_quiet
process_request q p =
    let armed = set_alarm 10 p in finally_quiet (catch_exception (run_request q armed.alarm) armed)

-- How the request itself ends, under the limit of ten seconds.
pub limited : Request → Ending
limited q = if ltb q.seconds 10 then q.ends else q.struck runtime_error

-- What the server process has after it, for how the request ended.
abbrev pub IsQuiet : Ending → Process → Ending × Process → Type 0
IsQuiet served p (e, p') = (e ≡ served) × (p'.alarm ≡ none) × (p'.logged ≡ p.logged)
IsQuiet (failed x) p (e, p') = (e ≡ served) × (p'.alarm ≡ none) × (p'.logged ≡ p.logged ++ x ∷ [])
IsQuiet interrupted p (e, p') = (e ≡ interrupted) × (p'.alarm ≡ none) × (p'.logged ≡ p.logged)

ended-IsQuiet :
    (e : Ending) (p : Process) (armed : Option ℕ)
    → IsQuiet e p (finally_quiet (catch_exception e (record { alarm = armed; logged = p.logged })))
unfolding finally_quiet catch_exception set_alarm
ended-IsQuiet served p armed = (refl, refl, refl)
ended-IsQuiet (failed x) p armed = (refl, refl, refl)
ended-IsQuiet interrupted p armed = (refl, refl, refl)

-- Whatever a request does, and whatever alarm was set before: a request that takes ten seconds has
-- RuntimeError raised in it; an exception that the request fails with is logged, and does not leave
-- `process_request`, as KeyboardInterrupt does, and nothing else is logged; in every case no alarm is
-- left for a later request.
pub process_request-IsQuiet :
    (q : Request) (p : Process) → IsQuiet (limited q) p (process_request q p)
unfolding process_request set_alarm run_request limited
process_request-IsQuiet q p =
    ended-IsQuiet (if ltb q.seconds 10 then q.ends else q.struck runtime_error) p (some 10)
