-- ===== src/Plugins/ProcessInfo/Shown.antt =====
-- Which processes lib/snmpy/module/process_info.py shows.
use snmpy.Shared.{List, Result, [], if◌then◌else◌, ok, raise, ◌++◌, ◌∷◌, ◌≡◌}
use snmpy.Shared.Text.{Text, codes}
use snmpy.Shared.Values.{Value}
use snmpy.Shared.Dicts.{keys}
use snmpy.Module.Tables.Typed.{HasType}
use snmpy.Plugins.ProcessInfo.{ProcFiles, ProcessData, attribute, is_pid, told}
use snmpy.Mibgen.Syntax.{NativeType, int_type, str_type}

-- The columns that the class is configured with, and the types that their values are converted to.
abbrev pub columns : List (Text × NativeType)
columns =
    (codes "pid", int_type)
    ∷ (codes "ppid", int_type)
    ∷ (codes "name", str_type)
    ∷ (codes "args", str_type)
    ∷ (codes "start_time", int_type)
    ∷ (codes "fd_open", int_type)
    ∷ (codes "fd_limit_soft", int_type)
    ∷ (codes "fd_limit_hard", int_type)
    ∷ (codes "thr_running", int_type)
    ∷ (codes "mem_resident", int_type)
    ∷ (codes "mem_swap", int_type)
    ∷ (codes "ctx_voluntary", int_type)
    ∷ (codes "ctx_involuntary", int_type)
    ∷ []

abbrev pub rows_told : Result (List Value) → List (List Value)
rows_told (raise e) = []
rows_told (ok vs) = vs ∷ []

-- The row of a process, if all its columns can be told.
abbrev pub process_row : (Text → Result ProcFiles) → Text → List (List Value)
process_row proc pid = if is_pid pid then rows_told (told proc pid (keys columns)) else []

abbrev pub process_rows : (Text → Result ProcFiles) → List Text → List (List Value)
process_rows proc [] = []
process_rows proc (pid ∷ pids) = process_row proc pid ++ process_rows proc pids

-- What each attribute gives, if it does not raise.
abbrev IsTyped : Text × NativeType → Type 0
IsTyped k = (p : ProcessData) (v : Value) → attribute p k.0 ≡ ok v → HasType k.1 v
