-- ===== src/Plugins/ProcessInfo/Tests.antt =====
-- A process at concrete inputs.
use snmpy.Shared.{Result, [], false, if◌then◌else◌, none, ok, os_error, raise, ℕ, ◌++◌, ◌∷◌}
use snmpy.Shared.Text.{Text, codes, text_eq}
use snmpy.Shared.Int.{pos}
use snmpy.Shared.Values.{null}
use snmpy.Module.Item.{Item}
use snmpy.Mibgen.Syntax.{Syntax, counter64_syntax, integer32_syntax, octet_string_syntax}
use snmpy.Module.Tables.{TableModule}
use snmpy.Plugins.ProcessInfo.{ProcFiles}

abbrev column : ℕ → Text × Syntax → Text × Item
column oid k = (
  k.0,
  record {
    oidnum = oid;
    oidstr = [];
    syntax = k.1;
    regex = none;
    cdef = none;
    join = [];
    value = null;
  },
)

abbrev process_table : TableModule
process_table = record {
  name = codes "process";
  save = false;
  cols =
      column 1 (codes "pid", integer32_syntax)
      ∷ column 2 (codes "ppid", integer32_syntax)
      ∷ column 3 (codes "name", octet_string_syntax)
      ∷ column 4 (codes "args", octet_string_syntax)
      ∷ column 5 (codes "start_time", integer32_syntax)
      ∷ column 6 (codes "fd_open", integer32_syntax)
      ∷ column 7 (codes "fd_limit_soft", integer32_syntax)
      ∷ column 8 (codes "fd_limit_hard", integer32_syntax)
      ∷ column 9 (codes "thr_running", integer32_syntax)
      ∷ column 10 (codes "mem_resident", counter64_syntax)
      ∷ column 11 (codes "mem_swap", counter64_syntax)
      ∷ column 12 (codes "ctx_voluntary", counter64_syntax)
      ∷ column 13 (codes "ctx_involuntary", counter64_syntax)
      ∷ [];
  rows = [];
}

abbrev init_files : ProcFiles
init_files = record {
  fds = 3;
  cmdline = codes "/sbin/init" ++ 0 ∷ [];
  mtime = pos 1000;
  status =
      (codes "Name:" ++ b'\t' ∷ codes "init")
      ∷ (codes "Pid:" ++ b'\t' ∷ codes "1")
      ∷ (codes "PPid:" ++ b'\t' ∷ codes "0")
      ∷ (codes "VmRSS:" ++ b'\t' ∷ codes "  820 kB")
      ∷ [];
  limits =
      codes "Limit                     Soft Limit           Hard Limit           Units     "
      ∷ codes "Max open files            1024                 4096                 files     "
      ∷ [];
}

-- Process 7 is gone when it is read.
abbrev proc : Text → Result ProcFiles
proc pid = if text_eq pid (codes "1") then ok init_files else raise os_error
