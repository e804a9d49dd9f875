-- ===== src/Server/Threads/Tests.antt =====
-- A thread that refills a table beside the main loop.
use snmpy.Shared.{List, [], arith, false, refl, some, suc, zero, ℕ, ◌+◌, ◌∷◌, ◌≡◌, ◌⊎◌}
use snmpy.Shared.Text.{codes}
use snmpy.Module.Tables.{TableModule}
use snmpy.Server.{table_module}
use snmpy.Server.Threads.{
  Act, Fetches, Reach, Step, Threads, change_table, commit, done, free_lock, go, here, next,
  of_table, program, take_lock, update,
}
use snmpy.Server.Threads.Safety.{tables-exclusive}
use snmpy.Server.Threads.Progress.{left, run_length, threads_end}

abbrev disks : TableModule
disks = record { name = codes "disks"; save = false; cols = []; rows = [] }

abbrev refill_acts : List Act
refill_acts = take_lock ∷ change_table ∷ free_lock ∷ []

abbrev fetches : ℕ → List Act
fetches zero = refill_acts
fetches (suc j) = []

fetches-Fetches : (j : ℕ) → Fetches (fetches j)
fetches-Fetches zero = commit (table_module disks) (of_table disks 1 (omega arith)) done refl
fetches-Fetches (suc j) = done

-- The thread has acquired the lock.
abbrev refilling : Threads
refilling = record {
  lock = some 1;
  rest = update (program [] fetches).rest 1 (change_table ∷ free_lock ∷ []);
}

refill_begun : Reach 2 (program [] fetches) refilling
unfolding program
refill_begun =
    next here (go 1 take_lock (change_table ∷ free_lock ∷ []) (some 1) (omega arith) refl refl)

tables-exclusive_example : ◌≡◌ {A = ℕ} 1 1
tables-exclusive_example =
    tables-exclusive {n = 2} {s = refilling} [] fetches fetches-Fetches refill_begun 1 1
      change_table change_table (free_lock ∷ []) (free_lock ∷ []) (omega arith) (omega arith) refl
      refl refl refl

threads_end_example :
    (run_length refill_begun + left 2 refilling ≡ left 2 (program [] fetches))
    × ((left 2 refilling ≡ 0) ⊎ ((t : Threads) × Step 2 refilling t))
threads_end_example = threads_end [] fetches fetches-Fetches refill_begun
