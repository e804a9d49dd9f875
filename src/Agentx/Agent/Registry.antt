-- ===== src/Agentx/Agent/Registry.antt =====
-- The registry of lib/snmpy/agentx.py: each name is registered once with net-snmp, and each value in
-- it has a watcher that is in step.
use snmpy.Shared.{
  ◌≡◌, sym, ap, ◌∙◌, List, [], ◌∷◌, ◌++◌, none, some, arith, inl, inr, Result-cases, Distinct,
  Distinct-append_one, Bool-cases, subst, Proc, ok_of_bind, Option-cases, ok, ok-injective, refl,
}
use snmpy.Shared.Text.{Text, text_eq}
use snmpy.Shared.Dicts.{
  lookup, insert, lookup-insert, keys, insert_new, keys-insert_old, keys-append, keys_of_none,
}
use snmpy.Shared.Values.{Value, int, null, str}
use snmpy.Agentx.Asn.{Asn, set_value, get_watch}
use snmpy.Agentx.Asn.Watching.{
  IsSynced, set_value-IsSynced, counter64-IsSynced, get_watch-IsSynced, integer32-IsSynced,
  octet_string-IsSynced,
}
use snmpy.Agentx.NetSnmp.{NetSnmp, IsNetSnmp}
use snmpy.Agentx.Table.{
  Table, AsnClass, append, construct, counter64_class, create, integer32_class, octet_string_class,
}
use snmpy.Agentx.Agent.{
  make_value, make_table, replace_value, replace_table, append_row, Agent, Entry, value, table,
  on_table, default_of, make_object, register_table, register_value, start, refill, set_entry,
  set_given, store_table,
}

module _ (n : NetSnmp) where
  abbrev EntryIsSynced : Entry n → Type 0
  EntryIsSynced (value a) = IsSynced a
  EntryIsSynced (table t) = Unit

  -- The names registered with net-snmp are the keys of `data`, in the order of their registration,
  -- and every value's watcher is in step.
  pub record IsRegistry (a : Agent n) : Type 0 where
    pub registered : a.handlers ≡ keys a.objects
    pub distinct : Distinct (keys a.objects)
    pub synced : (oid : Text) (e : Entry n) → lookup oid a.objects ≡ some e → EntryIsSynced e

  inserted-synced :
      (a : Agent n) (oid : Text) (e : Entry n)
      → EntryIsSynced e
      → ((j : Text) (e' : Entry n) → lookup j a.objects ≡ some e' → EntryIsSynced e')
      → (j : Text) (e' : Entry n) → lookup j (insert oid e a.objects) ≡ some e'
      → EntryIsSynced e'
  inserted-synced a oid e s h j e' p = elim (Bool-cases (text_eq oid j)) [
    | inl same ↦ subst EntryIsSynced (ground (arith, lookup-insert oid j e a.objects)) s
    | inr other ↦ h j e' (ground (arith, lookup-insert oid j e a.objects))
  ]

  -- A new name with an entry that is in step.
  add-IsRegistry :
      (a : Agent n) (oid : Text) (e : Entry n)
      → lookup oid a.objects ≡ none
      → EntryIsSynced e
      → IsRegistry a
      → IsRegistry (record { objects = insert oid e a.objects; handlers = a.handlers ++ oid ∷ [] })
  add-IsRegistry a oid e new s h =
      let after : keys (insert oid e a.objects) ≡ keys a.objects ++ oid ∷ [] =
        ap keys (insert_new oid e a.objects new) ∙ keys-append a.objects oid e in
      record {
        registered = ap (λ l. l ++ oid ∷ []) h.registered ∙ sym after;
        distinct =
            subst Distinct (sym after) (
              Distinct-append_one (keys a.objects) oid h.distinct (keys_of_none oid a.objects new));
        synced = inserted-synced a oid e s h.synced;
      }

  -- An old name with another entry.
  put-IsRegistry :
      (a : Agent n) (oid : Text) (e old : Entry n)
      → lookup oid a.objects ≡ some old
      → EntryIsSynced e
      → IsRegistry a
      → IsRegistry (record a { objects = insert oid e a.objects })
  put-IsRegistry a oid e old found s h =
      let same = keys-insert_old oid e old a.objects found in
      record {
        registered = h.registered ∙ sym same;
        distinct = subst Distinct (sym same) h.distinct;
        synced = inserted-synced a oid e s h.synced;
      }

  -- A method on the table of a registered name.
  on_table-IsRegistry :
      (a : Agent n) (oid : Text) (method : Proc (Table n)) (e : Entry n)
      → lookup oid a.objects ≡ some e
      → IsRegistry a
      → IsRegistry (on_table n oid method e a).1
  unfolding on_table store_table
  on_table-IsRegistry a oid method (value v) found h = h
  on_table-IsRegistry a oid method (table t) found h =
      put-IsRegistry a oid (table (method t).1) (table t) found tt h

  set_entry-IsRegistry :
      (a : Agent n) (oid : Text) (v : Value) (e : Entry n)
      → lookup oid a.objects ≡ some e
      → IsRegistry a
      → IsRegistry (set_entry n oid v e a).1
  unfolding set_entry
  set_entry-IsRegistry a oid v (table t) found h = h
  set_entry-IsRegistry a oid v (value obj) found h = elim (Result-cases (set_value v obj)) [
    | inl (obj', set) ↦
        rw (set, set_entry)
          (put-IsRegistry a oid (value obj') (value obj) found
            (set_value-IsSynced v obj obj' set (h.synced oid (value obj) found)) h)
    | inr (e, refused) ↦ rw (refused, set_entry) h
  ]

  construct-IsSynced : (k : AsnClass) (v : Value) (a : Asn) → construct k v ≡ ok a → IsSynced a
  construct-IsSynced octet_string_class = octet_string-IsSynced
  construct-IsSynced counter64_class = counter64-IsSynced
  construct-IsSynced integer32_class = integer32-IsSynced

  set_given-IsSynced : (v : Value) (a b : Asn) → set_given n v a ≡ ok b → IsSynced a → IsSynced b
  unfolding set_given
  set_given-IsSynced null a b e h = subst IsSynced (ok-injective e) h
  set_given-IsSynced (int z) a b e h = set_value-IsSynced (int z) a b e h
  set_given-IsSynced (str s) a b e h = set_value-IsSynced (str s) a b e h

  make_object-IsSynced :
      (k : AsnClass) (v : Value) (b : Asn) → make_object n k v ≡ ok b → IsSynced b
  unfolding make_object
  make_object-IsSynced k v b e =
      let (a, made, given) = ok_of_bind (construct k (default_of k)) _ e in
      set_given-IsSynced v a b given (construct-IsSynced k (default_of k) a made)

  register_table-IsRegistry :
      (a : Agent n) (oid : Text) (t : Table n)
      → IsRegistry a
      → IsRegistry (register_table n t oid a).1
  unfolding register_table
  register_table-IsRegistry a oid t h = elim (Option-cases (lookup oid a.objects)) [
    | inl new ↦ rw (new, register_table) (add-IsRegistry a oid (table t) new tt h)
    | inr (e, old) ↦ rw (old, register_table) h
  ]

  module _ (laws : IsNetSnmp n) where
    register_value-IsRegistry :
        (a : Agent n) (oid : Text) (obj : Asn)
        → IsSynced obj
        → IsRegistry a
        → IsRegistry (register_value n obj oid a).1
    unfolding register_value
    register_value-IsRegistry a oid obj s h = elim (Option-cases (lookup oid a.objects)) [
      | inl new ↦
          rw (new, register_value)
            (add-IsRegistry a oid (value (get_watch n.create_watcher_info obj).1) new
              (get_watch-IsSynced n.create_watcher_info laws.created_size obj s).0 h)
      | inr (e, old) ↦ rw (old, register_value) h
    ]

    make_value-IsRegistry :
        (a : Agent n) (k : AsnClass) (v : Value) (oid : Text)
        → IsRegistry a
        → IsRegistry (make_value n k v oid a).1
    unfolding make_value
    make_value-IsRegistry a k v oid h = elim (Result-cases (make_object n k v)) [
      | inl (obj, made) ↦
          rw (made, make_value)
            (register_value-IsRegistry a oid obj (make_object-IsSynced k v obj made) h)
      | inr (e, refused) ↦ rw (refused, make_value) h
    ]

  -- What the program does with an agent.
  pub data Op : Type 0 where
    make_value_op : AsnClass → Value → Text → Op
    make_table_op : Text → List Asn → Op
    append_op : Text → List Value → Op
    replace_value_op : Text → Value → Op
    replace_table_op : Text → List (List Value) → Op

  pub perform : Op → Proc (Agent n)
  perform (make_value_op k v oid) = make_value n k v oid
  perform (make_table_op oid cols) = make_table n oid cols
  perform (append_op oid row) = append_row n oid row
  perform (replace_value_op oid v) = replace_value n oid v
  perform (replace_table_op oid rows) = replace_table n oid rows

  -- A sequence of calls, each made whether or not those before it raised.
  pub perform_all : List Op → Agent n → Agent n
  perform_all [] a = a
  perform_all (op ∷ ops) a = perform_all ops (perform op a).1

  module _ (laws : IsNetSnmp n) where
    perform-IsRegistry : (op : Op) (a : Agent n) → IsRegistry a → IsRegistry (perform op a).1
    unfolding perform make_table append_row replace_value replace_table
    perform-IsRegistry (make_value_op k v oid) a h = make_value-IsRegistry laws a k v oid h
    perform-IsRegistry (make_table_op oid cols) a h =
        register_table-IsRegistry a oid (create n cols) h
    perform-IsRegistry (append_op oid row) a h = elim (Option-cases (lookup oid a.objects)) [
      | inl new ↦ rw (new, append_row) h
      | inr (e, old) ↦ rw (old, append_row) (on_table-IsRegistry a oid (append n row) e old h)
    ]
    perform-IsRegistry (replace_value_op oid v) a h = elim (Option-cases (lookup oid a.objects)) [
      | inl new ↦ rw (new, replace_value) h
      | inr (e, old) ↦ rw (old, replace_value) (set_entry-IsRegistry a oid v e old h)
    ]
    perform-IsRegistry (replace_table_op oid rows) a h =
        elim (Option-cases (lookup oid a.objects)) [
          | inl new ↦ rw (new, replace_table) h
          | inr (e, old) ↦
              rw (old, replace_table) (on_table-IsRegistry a oid (refill n rows) e old h)
        ]

    keeps : (ops : List Op) (a : Agent n) → IsRegistry a → IsRegistry (perform_all ops a)
    unfolding perform_all
    keeps [] a h = h
    keeps (op ∷ ops) a h = keeps ops (perform op a).1 (perform-IsRegistry op a h)

    -- After any sequence of calls on a new agent, failing ones included: no name was registered twice
    -- with net-snmp, the names registered are the keys of `data`, and the watcher of every value in
    -- it, if any, tells the size of what the value holds now.
    pub perform_all-IsRegistry : (ops : List Op) → IsRegistry (perform_all ops (start n))
    unfolding start lookup
    perform_all-IsRegistry ops =
        keeps ops (start n) (record { registered = refl; distinct = tt; synced = λ j e p. cc })
