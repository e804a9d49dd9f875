-- ===== src/Tasks/Work.antt =====
-- `work_func` of lib/snmpy/__init__.py, call by call. The name of the function, the text of an exception
-- and of its traceback are parameters.
use snmpy.Shared.{
  Bool, Exc, List, Result, [], ap, false, map, ok, raise, refl, some, true, ℕ, ◌++◌, ◌∷◌, ◌≡◌, none,
  ◌∙◌,
}
use snmpy.Shared.Text.{Text, codes, join}
use snmpy.Tasks.{Outcome, exited, finished, log_fatal, work_func}
use snmpy.Tasks.Log.{
  End, Line, exception, exits, fatal, leave, raises, returned, traced, log_error, log_error-whole,
}

-- LOG.info(...), libc.prctl(option, signal), the call of `func`, what is logged, and os._exit(n)
pub data Did : Type 0 where
  info : Text → Did
  prctl : ℕ → ℕ → Did
  called : Did
  logged : Line → Did
  exited_with : ℕ → Did

-- prctl(PR_SET_PDEATHSIG, SIGTERM): a process ends with its parent.
parent_death : Bool → List Did
parent_death false = []
parent_death true = prctl 1 15 ∷ []

ended : End → List Did
ended returned = []
ended (exits n) = exited_with n ∷ []
ended (raises e) = []

failed_with : Text → Text → List Did
unfolding ended
failed_with e trace =
    let (end, lines) = fatal [] (exception e trace) (codes "error") (some 1) in
    map logged lines ++ ended end

after_call : (Exc → Text × Text) → Result (Unit {0}) → List Did
unfolding failed_with
after_call told (ok _) = []
after_call told (raise e) = failed_with (told e).0 (told e).1

-- work_func(func, proc, ...), for how `func` ends
pub work : (Exc → Text × Text) → Text → Bool → Result (Unit {0}) → List Did
unfolding parent_death after_call
work told name proc result =
    info (codes "starting background task: " ++ name) ∷ parent_death proc
    ++ called ∷ after_call told result

-- How the calls end.
pub outcome_of : List Did → Outcome
outcome_of [] = finished
outcome_of (exited_with n ∷ calls) = exited n
outcome_of (_ ∷ calls) = outcome_of calls

-- The lines that were logged.
pub logged_in : List Did → List Line
logged_in [] = []
logged_in (logged l ∷ calls) = l ∷ logged_in calls
logged_in (_ ∷ calls) = logged_in calls

outcome_of-lines :
    (ls : List Line) (calls : List Did) → outcome_of (map logged ls ++ calls) ≡ outcome_of calls
unfolding outcome_of
outcome_of-lines [] calls = refl
outcome_of-lines (l ∷ ls) calls = outcome_of-lines ls calls

logged_in-lines : (ls : List Line) (n : ℕ) → logged_in (map logged ls ++ exited_with n ∷ []) ≡ ls
unfolding logged_in
logged_in-lines [] n = refl
logged_in-lines (l ∷ ls) n = ap (λ t. l ∷ t) (logged_in-lines ls n)

raise-injective : {x e : Exc} → ◌≡◌ {A = Result (Unit {0})} (raise x) (raise e) → x ≡ e
raise-injective h = cc

failed_outcome : (e trace : Text) → outcome_of (failed_with e trace) ≡ exited 1
unfolding failed_with fatal leave ended outcome_of
failed_outcome e trace = outcome_of-lines (log_error e none trace) (exited_with 1 ∷ [])

failed_log : (e trace : Text) → join (b'\n' ∷ []) (traced (logged_in (failed_with e trace))) ≡ trace
unfolding failed_with fatal leave ended
failed_log e trace =
    ap (λ ls. join (b'\n' ∷ []) (traced ls)) (logged_in-lines (log_error e none trace) 1)
    ∙ log_error-whole e none trace

-- A background task ends the process exactly if its function raises an exception, and then with status
-- 1, and the lines of the log behind the first are those of the whole traceback.
pub work_lem :
    (told : Exc → Text × Text) (name : Text) (proc : Bool) (result : Result (Unit {0}))
    → (outcome_of (work told name proc result) ≡ work_func result)
      × ((e : Exc)
          → result ≡ raise e
          → join (b'\n' ∷ []) (traced (logged_in (work told name proc result))) ≡ (told e).1)
unfolding work parent_death after_call outcome_of logged_in work_func log_fatal
work_lem told name true (ok _) = (refl, λ e h. cc)
work_lem told name false (ok _) = (refl, λ e h. cc)
work_lem told name true (raise x) = (
  failed_outcome (told x).0 (told x).1,
  λ e h. failed_log (told x).0 (told x).1 ∙ ap (λ y. (told y).1) (raise-injective h),
)
work_lem told name false (raise x) = (
  failed_outcome (told x).0 (told x).1,
  λ e h. failed_log (told x).0 (told x).1 ∙ ap (λ y. (told y).1) (raise-injective h),
)
