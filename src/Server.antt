-- ===== src/Server.antt =====
-- lib/snmpy/server.py: the agent that fetches data from the plugins and serves it. The plugins' own
-- `update` methods, the HTTP process and net-snmp are parameters; log lines are left out.
pub mod Commit
pub mod Abort
pub mod Fetch
pub mod Loop
pub mod Exits
pub mod Signals
pub mod Startup
pub mod Threads
pub mod Whole
mod Tests
use snmpy.Shared.{
  Bool, List, Proc, Result, [], false, ok, raise, true, ℕ, ◌>>=◌, ◌>>◌, ◌∷◌, if◌then◌else◌,
  io_error, key_error, ltb, type_error, ◌++◌,
}
use snmpy.Shared.Text.{Text, codes, one_of}
use snmpy.Shared.Values.{int, null, str}
use snmpy.Shared.Dicts.{values}
use snmpy.Shared.Int.{pos, negsuc, ℤ}
use snmpy.Module.Item.{Item}
use snmpy.Mibgen.Syntax.{ObjectType, counter64_type, integer32_type, octet_string_type}
use snmpy.Mibgen.Names.{get_oidstr, plugins_key, version_key}
use snmpy.Module.Tables.{TableModule}
use snmpy.Module.Values.{ValueModule}
use snmpy.Agentx.Asn.{Asn}
use snmpy.Agentx.NetSnmp.{NetSnmp}
use snmpy.Agentx.Table.{AsnClass, counter64_class, integer32_class, octet_string_class}
use snmpy.Agentx.Agent.{
  Agent, append_row, make_object, make_table, make_value, replace_table, replace_value, table,
  value,
}

-- conf['period'], where there is one: a text, a whole number of minutes or a value that is no number.
-- Fractions of a minute are left out.
pub data Period : Type 0 where
  missing : Period
  given_text : Text → Period
  given_number : ℤ → Period
  given_other : Period

abbrev pub once : Period
once = given_text (codes "once")

abbrev pub minutes : ℕ → Period
minutes m = given_number (pos m)

is_once_text : Text → Bool
is_once_text t = one_of t (codes "boot" ∷ codes "once" ∷ codes "0" ∷ [])

-- From the test on the period on: whether there is another round, after the sleep.
pub pause : Period → Result Bool
unfolding is_once_text
pause missing = raise key_error
pause (given_text t) = if is_once_text t then ok false else raise type_error
pause (given_number (pos m)) = ok (ltb 0 m)
pause (given_number (negsuc m)) = raise io_error
pause given_other = raise type_error

-- A plugin as the agent sees it: an instance of one of the two module classes, with its
-- `conf['snmpy_index']` and `conf['period']`.
pub data Content : Type 0 where
  value_module : ValueModule → Content
  table_module : TableModule → Content

pub record Plugin : Type 0 where
  pub name : Text
  pub index : ℕ
  pub period : Period
  pub save : Bool
  pub content : Content

-- `getattr(self.snmp, syntax.object_type)`
abbrev pub class_named : ObjectType → AsnClass
class_named octet_string_type = octet_string_class
class_named counter64_type = counter64_class
class_named integer32_type = integer32_class

module _ (n : NetSnmp) where
  -- The agent's objects, and whether `self.lock` is held.
  pub record Server : Type 0 where
    pub agent : Agent n
    pub locked : Bool

  -- The loop of `commit_data` over the items of a ValueModule.
  commit_item : Item → Proc (Agent n)
  commit_item item a = elim item.value [
    | null ↦ (ok tt, a)
    | int z ↦ replace_value n item.oidstr (int z) a
    | str s ↦ replace_value n item.oidstr (str s) a
  ]

  pub commit_items : List Item → Proc (Agent n)
  commit_items [] a = (ok tt, a)
  commit_items (item ∷ items) a = (commit_item item >> commit_items items) a

  -- What stands between `acquire` and `release`.
  commit_rows : TableModule → Proc (Agent n)
  commit_rows t a = elim (get_oidstr (t.name ∷ codes "table" ∷ [])) [
    | raise e ↦ (raise e, a)
    | ok oid ↦ replace_table n oid t.rows a
  ]

  on_agent : Proc (Agent n) → Proc Server
  on_agent m s = let (r, a) = m s.agent in (r, record s { agent = a })

  acquire : Proc Server
  acquire s = (ok tt, record s { locked = true })

  -- `finally: self.lock.release()`, whether the body raised or not.
  finally_release : Result (Unit {0}) × Server → Result (Unit {0}) × Server
  finally_release (r, s) = (r, record s { locked = false })

  pub commit_data : Content → Proc Server
  commit_data (value_module m) s = on_agent (commit_items (values m.items)) s
  commit_data (table_module t) s = finally_release ((acquire >> on_agent (commit_rows t)) s)

  -- The loop of `start_agent` over the items of a plugin: each is registered under its name.
  pub make_item_objects : List Item → Proc (Agent n)
  make_item_objects [] a = (ok tt, a)
  make_item_objects (item ∷ items) a =
      (make_value n (class_named item.syntax.object_type) item.value item.oidstr
          >> make_item_objects items)
        a

  -- The columns of a table: objects of the column's classes.
  column_objects : List Item → Result (List Asn)
  column_objects [] = ok []
  column_objects (col ∷ cols) = do
    obj ← make_object n (class_named col.syntax.object_type) null
    objs ← column_objects cols
    ok (obj ∷ objs)

  make_table_object : TableModule → Proc (Agent n)
  make_table_object t a = elim (get_oidstr (t.name ∷ codes "table" ∷ [])) [
    | raise e ↦ (raise e, a)
    | ok oid ↦ elim (column_objects (values t.cols)) [
      | raise e ↦ (raise e, a)
      | ok objs ↦ make_table n oid objs a
    ]
  ]

  pub make_plugin : Content → Proc (Agent n)
  make_plugin (value_module m) = make_item_objects (values m.items)
  make_plugin (table_module t) = make_table_object t

  -- The agent's objects while it starts, and the plugins whose fetch threads were started.
  pub record Starting : Type 0 where
    pub agent : Agent n
    pub fetching : List Plugin

  on_objects : Proc (Agent n) → Proc Starting
  on_objects m s = let (r, a) = m s.agent in (r, record s { agent = a })

  -- self.start_fetch(mod): a thread, which runs `start_fetch` beside what follows.
  start_thread : Plugin → Proc Starting
  start_thread p s = (ok tt, record s { fetching = s.fetching ++ p ∷ [] })

  -- The loop over `self.mods`: a row of the plugin table, then the plugin's objects, then its thread.
  -- `mtbl` is the object registered as `oid`.
  pub make_plugins : Text → List Plugin → Proc Starting
  unfolding on_objects start_thread
  make_plugins oid [] s = (ok tt, s)
  make_plugins oid (p ∷ ps) s =
      (on_objects (append_row n oid (int (pos p.index) ∷ str p.name ∷ []))
          >> on_objects (make_plugin p.content)
          >> start_thread p
          >> make_plugins oid ps)
        s

  -- The two objects about the agent itself, and then the plugins.
  make_info : Text → Text → Text → List Asn → List Plugin → Proc Starting
  make_info version version_oid plugins_oid cols ps =
      on_objects (make_value n octet_string_class (str version) version_oid)
      >> on_objects (make_table n plugins_oid cols)
      >> make_plugins plugins_oid ps

  -- The names of the two objects about the agent, and the column of the plugin table.
  info_names : Result (Text × Text × List Asn)
  info_names = do
    version_oid ← get_oidstr (version_key ∷ [])
    plugins_oid ← get_oidstr (plugins_key ∷ codes "table" ∷ [])
    col ← make_object n octet_string_class null
    ok (version_oid, plugins_oid, col ∷ [])

  -- start_agent, with `snmpy.__version__`; what the threads do is `start_fetch`.
  pub start_agent : Text → List Plugin → Proc Starting
  start_agent version ps s = elim info_names [
    | raise e ↦ (raise e, s)
    | ok (version_oid, plugins_oid, cols) ↦ make_info version version_oid plugins_oid cols ps s
  ]

  -- One round of the loop of `start_fetch`: an exception of `update` or `commit_data` is logged.
  pub fetch_once : (Content → Result (Unit {0}) × Content) → Content × Server → Content × Server
  fetch_once update (c, s) =
      let (r, c') = update c in elim r [ raise e ↦ (c', s) | ok _ ↦ (c', (commit_data c' s).1) ]

  -- What comes behind a round, given what comes after the sleep.
  pub after_pause :
      Result Bool
      → Content × Server
      → Result (Unit {0}) × Content × Server
      → Result (Unit {0}) × Content × Server
  after_pause (raise e) st rest = (raise e, st.0, st.1)
  after_pause (ok false) st rest = (ok tt, st.0, st.1)
  after_pause (ok true) st rest = rest

  -- The rounds of `start_fetch`, one for each `update` that the plugin is to make; the loop ends at
  -- the end of the list, when `self.done` is set during a sleep.
  pub fetch_loop :
      Period
      → List (Content → Result (Unit {0}) × Content)
      → Content × Server
      → Result (Unit {0}) × Content × Server
  unfolding after_pause
  fetch_loop period [] st = (ok tt, st.0, st.1)
  fetch_loop period (update ∷ updates) st =
      let st' = fetch_once update st in
      let rest = fetch_loop period updates st' in after_pause (pause period) st' rest

  commit_retained : Bool → Content → Proc Server
  commit_retained false c s = (ok tt, s)
  commit_retained true c s = commit_data c s

  -- start_fetch; a failure to commit the retained data leaves the thread, and so does one of the pause.
  pub start_fetch :
      Plugin
      → List (Content → Result (Unit {0}) × Content)
      → Server
      → Result (Unit {0}) × Content × Server
  start_fetch p updates s =
      let (r, s') = commit_retained p.save p.content s in
      elim r [
        | raise e ↦ (raise e, p.content, s')
        | ok _ ↦ fetch_loop p.period updates (p.content, s')
      ]
