-- ===== src/Agentx/Agent.antt =====
-- The `AgentX` class of lib/snmpy/agentx.py: the registry of values and tables by their object names.
pub mod Serving
pub mod Registry
pub mod Registering
mod Tests
use snmpy.Shared.{
  List, [], ◌∷◌, ◌++◌, none, some, if◌then◌else◌, Result, ok, raise, value_error, attribute_error,
  ◌>>=◌, Proc, ◌>>◌,
}
use snmpy.Shared.Text.{Text}
use snmpy.Shared.Values.{Value, null, int, str}
use snmpy.Shared.Int.{pos}
use snmpy.Shared.Dicts.{Dict, lookup, insert, has_key}
use snmpy.Agentx.Asn.{Asn, get_watch, set_value}
use snmpy.Agentx.NetSnmp.{NetSnmp}
use snmpy.Agentx.Table.{
  AsnClass, octet_string_class, counter64_class, integer32_class, construct, Table, create, append,
  clear,
}

-- An object of `self.data`. The registry holds the object itself, so a later `set_value` or `append`
-- on the object that a factory returned is one on this entry.
pub data Entry (n : NetSnmp) : Type 0 where
  value : Asn → Entry n
  table : Table n → Entry n

-- `self.data`, and the names registered with net-snmp, in order.
pub record Agent (n : NetSnmp) : Type 0 where
  pub objects : Dict (Entry n)
  pub handlers : List Text

-- A class called with no argument: an empty text, 0 or 0.
abbrev pub default_of : AsnClass → Value
default_of octet_string_class = str []
default_of counter64_class = int (pos 0)
default_of integer32_class = int (pos 0)

module _ (n : NetSnmp) where
  -- AgentX(name, mib)
  pub start : Agent n
  start = record { objects = []; handlers = [] }

  -- register_value
  pub register_value : Asn → Text → Proc (Agent n)
  register_value obj oid a = if has_key oid a.objects then (raise value_error, a) else (
    ok tt,
    record {
      objects = insert oid (value (get_watch n.create_watcher_info obj).1) a.objects;
      handlers = a.handlers ++ oid ∷ [];
    },
  )

  -- register_table
  pub register_table : Table n → Text → Proc (Agent n)
  register_table tbl oid a = if has_key oid a.objects then (raise value_error, a) else (
    ok tt,
    record { objects = insert oid (table tbl) a.objects; handlers = a.handlers ++ oid ∷ [] },
  )

  -- `if val is not None: obj.set_value(val)`
  set_given : Value → Asn → Result Asn
  set_given null obj = ok obj
  set_given v obj = set_value v obj

  -- ObjectFactory: the methods OctetString, Integer32 and Counter64.
  pub make_object : AsnClass → Value → Result Asn
  make_object k val = do obj ← construct k (default_of k); set_given val obj

  -- The same with an `oid`.
  pub make_value : AsnClass → Value → Text → Proc (Agent n)
  make_value k val oid a = elim (make_object k val) [
    | ok obj ↦ register_value obj oid a
    | raise e ↦ (raise e, a)
  ]

  -- Table(oid, *cols)
  pub make_table : Text → List Asn → Proc (Agent n)
  make_table oid cols = register_table (create n cols) oid

  -- replace_value; a table has no `set_value`.
  set_entry : Text → Value → Entry n → Proc (Agent n)
  set_entry oid val (table t) a = (raise attribute_error, a)
  set_entry oid val (value obj) a = elim (set_value val obj) [
    | ok obj' ↦ (ok tt, record a { objects = insert oid (value obj') a.objects })
    | raise e ↦ (raise e, a)
  ]

  pub replace_value : Text → Value → Proc (Agent n)
  replace_value oid val a = elim (lookup oid a.objects) [
    | none ↦ (raise value_error, a)
    | some entry ↦ set_entry oid val entry a
  ]

  -- `for row in rows: self.data[oid].append(*row)`
  pub append_all : List (List Value) → Proc (Table n)
  append_all [] t = (ok tt, t)
  append_all (row ∷ rows) t = (append n row >> append_all rows) t

  refill : List (List Value) → Proc (Table n)
  refill rows = clear n >> append_all rows

  store_table : Text → Result (Unit {0}) × Table n → Proc (Agent n)
  store_table oid (r, t) a = (r, record a { objects = insert oid (table t) a.objects })

  -- What a method does to the table of an entry; a value has no `clear` and no `append`.
  pub on_table : Text → Proc (Table n) → Entry n → Proc (Agent n)
  on_table oid method (value _) a = (raise attribute_error, a)
  on_table oid method (table t) a = store_table oid (method t) a

  -- replace_table
  pub replace_table : Text → List (List Value) → Proc (Agent n)
  replace_table oid rows a = elim (lookup oid a.objects) [
    | none ↦ (raise value_error, a)
    | some entry ↦ on_table oid (refill rows) entry a
  ]

  -- `tbl.append(*row)` on the table that a factory returned and `data` holds.
  pub append_row : Text → List Value → Proc (Agent n)
  append_row oid row a = elim (lookup oid a.objects) [
    | none ↦ (raise value_error, a)
    | some entry ↦ on_table oid (append n row) entry a
  ]
