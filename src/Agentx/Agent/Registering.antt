-- ===== src/Agentx/Agent/Registering.antt =====
-- What the factories of lib/snmpy/agentx.py register under a name that is new.
use snmpy.Shared.{List, [], none, ok, refl, some, ◌++◌, ◌∷◌, ◌≡◌, ◌≢◌}
use snmpy.Shared.Text.{Text}
use snmpy.Shared.Values.{Value, int, null, str}
use snmpy.Shared.Dicts.{insert, lookup}
use snmpy.Agentx.Asn.{Asn, get_watch, set_value}
use snmpy.Agentx.NetSnmp.{NetSnmp}
use snmpy.Agentx.Table.{AsnClass, Table, append, construct, create}
use snmpy.Agentx.Agent.{
  Agent, append_row, default_of, make_object, make_table, make_value, on_table, register_table,
  register_value, set_given, store_table, table, value, start,
}

module _ (n : NetSnmp) where
  -- A factory called with no value, and with one that the object takes.
  pub make_object_null :
      (k : AsnClass) (obj : Asn)
      → construct k (default_of k) ≡ ok obj
      → make_object n k null ≡ ok obj
  unfolding make_object set_given
  make_object_null k obj made = rw made refl

  pub make_object_given :
      (k : AsnClass) (v : Value) (obj obj' : Asn)
      → construct k (default_of k) ≡ ok obj
      → v ≢ null
      → set_value v obj ≡ ok obj'
      → make_object n k v ≡ ok obj'
  unfolding make_object set_given
  make_object_given k null obj obj' made new set = absurd (new refl)
  make_object_given k (int z) obj obj' made new set = rw made set
  make_object_given k (str s) obj obj' made new set = rw made set

  -- A value is registered with its watcher.
  pub make_value_new :
      (a : Agent n) (k : AsnClass) (v : Value) (oid : Text) (obj : Asn)
      → make_object n k v ≡ ok obj
      → lookup oid a.objects ≡ none
      → make_value n k v oid a ≡ (
        ok tt,
        record {
          objects = insert oid (value (get_watch n.create_watcher_info obj).1) a.objects;
          handlers = a.handlers ++ oid ∷ [];
        },
      )
  unfolding make_value register_value
  make_value_new a k v oid obj made new = rw (made, make_value, new, register_value) refl

  pub make_table_new :
      (a : Agent n) (oid : Text) (cols : List Asn)
      → lookup oid a.objects ≡ none
      → make_table n oid cols a ≡ (
        ok tt,
        record {
          objects = insert oid (table (create n cols)) a.objects;
          handlers = a.handlers ++ oid ∷ [];
        },
      )
  unfolding make_table register_table
  make_table_new a oid cols new = rw (new, make_table, register_table) refl

  -- Appending a row to a registered table.
  pub append_row_ok :
      (a : Agent n) (oid : Text) (row : List Value) (t t' : Table n)
      → lookup oid a.objects ≡ some (table t)
      → append n row t ≡ (ok tt, t')
      → append_row n oid row a ≡ (ok tt, record a { objects = insert oid (table t') a.objects })
  unfolding append_row on_table store_table
  append_row_ok a oid row t t' found done = rw (found, append_row, on_table, done, store_table) refl

  -- A new agent has no objects.
  pub lookup-start : (j : Text) → lookup j (start n).objects ≡ none
  unfolding start lookup
  lookup-start j = refl

  pub handlers-start : (start n).handlers ≡ []
  unfolding start
  handlers-start = refl
