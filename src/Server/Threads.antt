-- ===== src/Server/Threads.antt =====
-- The threads of lib/snmpy/server.py, interleaved in any order: the main loop, and a fetch thread for
-- each plugin. What matters of them here is what they do to the lock, to tables and to values.
pub mod Safety
pub mod Progress
mod Tests
use snmpy.Shared.{
  List, Option, [], if◌then◌else◌, length, map, none, replicate, some, suc, zero, ℕ, ◌++◌, ◌+◌, ◌<◌,
  ◌==◌, ◌∷◌, ◌≡◌, ◌≤◌,
}
use snmpy.Shared.Dicts.{values}
use snmpy.Module.Values.{ValueModule}
use snmpy.Module.Tables.{TableModule}
use snmpy.Agentx.Process.{Event, acquire, release, snmp_timeout}
use snmpy.Server.Loop.{Round, start_snmpd}
use snmpy.Server.{Content, table_module, value_module}

pub data Act : Type 0 where
  take_lock free_lock : Act
  use_tables : Act  -- net-snmp reads a request, works off one, or runs an alarm
  use_nothing : Act  -- `snmp_timeout`
  change_table : Act  -- `clear`, or `append` of a row
  change_value : Act  -- `set_value`

-- What the calls of the main loop are.
pub act_of : Event → Act
act_of Event.acquire = take_lock
act_of Event.release = free_lock
act_of snmp_timeout = use_nothing
act_of _ = use_tables

-- `commit_data`, as far as it comes before an exception, if there is one: a table is locked for the
-- whole of it, and unlocked in any case; values are not.
pub data Commits : Content → List Act → Type 0 where
  of_values :
      (m : ValueModule) (k : ℕ)
      → k ≤ length (values m.items)
      → Commits (value_module m) (replicate k change_value)
  of_table :
      (t : TableModule) (k : ℕ)
      → k ≤ length t.rows + 1
      → Commits (table_module t) (take_lock ∷ replicate k change_table ++ free_lock ∷ [])

-- A fetch thread: a commit after each update that does not fail, of what it has left.
pub data Fetches : List Act → Type 0 where
  done : Fetches []
  commit :
      {acts rest all : List Act} (c : Content)
      → Commits c acts
      → Fetches rest
      → all ≡ acts ++ rest
      → Fetches all

-- The lock and its owner, and what each thread has still to do. Thread 0 is the main loop.
pub record Threads : Type 0 where
  pub lock : Option ℕ
  pub rest : ℕ → List Act

abbrev pub update : (ℕ → List Act) → ℕ → List Act → ℕ → List Act
update f i acts j = if i == j then acts else f j

-- `none` where a thread waits: an owned lock is not acquired, not even by its owner.
abbrev pub lock_after : ℕ → Act → Option ℕ → Option (Option ℕ)
lock_after i take_lock none = some (some i)
lock_after i take_lock (some j) = none
lock_after i free_lock lock = some none
lock_after i _ lock = some lock

-- Any of the `n` threads goes on by one act.
pub data Step (n : ℕ) (s : Threads) : Threads → Type 0 where
  go :
      (i : ℕ) (a : Act) (acts : List Act) (lock : Option ℕ)
      → i < n
      → s.rest i ≡ a ∷ acts
      → lock_after i a s.lock ≡ some lock
      → Step n s (record { lock = lock; rest = update s.rest i acts })

pub data Reach (n : ℕ) (s : Threads) : Threads → Type 0 where
  here : Reach n s s
  next : {t u : Threads} → Reach n s t → Step n t u → Reach n s u

-- The main loop over the rounds, and the fetch threads, with the lock free.
unfoldable pub program : List Round → (ℕ → List Act) → Threads
unfolding act_of
program rounds fetches = record {
  lock = none;
  rest = λ i. elim i [ zero ↦ map act_of (start_snmpd rounds) | suc j ↦ fetches j ];
}
