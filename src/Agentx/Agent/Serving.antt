-- ===== src/Agentx/Agent/Serving.antt =====
-- What a manager sees after `replace_table` of lib/snmpy/agentx.py.
use snmpy.Shared.{
  ℕ, ◌+◌, ◌^◌, ◌<◌, ◌≡◌, refl, sym, ap, ◌∙◌, List, [], ◌∷◌, ◌++◌, Option, some, length, ok, All,
  arith, false, append_assoc, append-nil, subst, Exc, raise,
}
use snmpy.Shared.Text.{Text, text_eq, text_eq_refl}
use snmpy.Shared.Dicts.{lookup, insert, lookup-insert}
use snmpy.Shared.Values.{Value}
use snmpy.Agentx.Asn.{bits, Watcher, Asn, set_value}
use snmpy.Agentx.NetSnmp.{NetSnmp, IsNetSnmp}
use snmpy.Agentx.Table.{Table}
use snmpy.Agentx.Table.Laws.{FitsRow, ServesAll, IsAt, append_lem}
use snmpy.Agentx.Table.Clear.{clear_lem}
use snmpy.Agentx.Agent.{
  Agent, table, append_all, refill, on_table, store_table, replace_table, replace_value, set_entry,
  value,
}

module _ (n : NetSnmp) (laws : IsNetSnmp n) where
  -- Appending rows to a table whose last index is `k` adds them behind its rows.
  append_all_lem :
      (t : Table n) (k : ℕ) (rows : List (List Value))
      → IsAt n t k
      → k + length rows < 2 ^ 31
      → All (FitsRow t.types) rows
      → (t' : Table n) × (rs : List n.Row) × (append_all n rows t ≡ (ok tt, t'))
        × (t'.types ≡ t.types)
        × (n.rows t'.table ≡ n.rows t.table ++ rs)
        × ServesAll n t.types k rows rs
  unfolding append_all
  append_all_lem t k [] at lt h = (t, [], refl, refl, sym (append-nil _), tt)
  append_all_lem t k (vs ∷ rows) at lt h =
      let (t1, r, added, types1, at1, rows1, served) =
        append_lem n laws t k vs at (omega arith) h.0 in
      let (t', rs, done, types', rows', all) =
        append_all_lem t1 (k + 1) rows at1 (omega arith)
          (subst (λ ks. All (FitsRow ks) rows) (sym types1) h.1) in
      (
        t',
        r ∷ rs,
        rw (added, append_all) done,
        types' ∙ types1,
        rows' ∙ ap (λ l. l ++ rs) rows1 ∙ append_assoc (n.rows t.table) (r ∷ []) rs,
        (served, subst (λ ks. ServesAll n ks (k + 1) rows rs) types1 all),
      )

  refill_lem :
      (t : Table n) (b : ℕ) (w : Option Watcher) (rows : List (List Value))
      → t.index ≡ record { body = bits b; watcher = w }
      → length rows < 2 ^ 31
      → All (FitsRow t.types) rows
      → (t' : Table n) × (refill n rows t ≡ (ok tt, t'))
        × (t'.types ≡ t.types)
        × ServesAll n t.types 0 rows (n.rows t'.table)
  unfolding refill
  refill_lem t b w rows index lt h =
      let (t1, cleared, types1, at1, empty) = clear_lem n laws t b w index in
      let (t', rs, done, types', rows', all) =
        append_all_lem t1 0 rows at1 (omega arith)
          (subst (λ ks. All (FitsRow ks) rows) (sym types1) h) in
      (
        t',
        rw (cleared, refill) done,
        types' ∙ types1,
        subst (λ l. ServesAll n t.types 0 rows l) (sym (rows' ∙ ap (λ l. l ++ rs) empty))
            (subst (λ ks. ServesAll n ks 0 rows rs) types1 all),
      )

  -- A registered table whose index is an Integer32 is given rows that each have a value of its type
  -- for each column, fewer than 2 ^ 31 of them. Then `replace_table` does not raise; net-snmp serves
  -- exactly these rows in their order, with indexes 1, 2, ... and each column holding what its class
  -- makes of the value, whatever was served before; and every other object is what it was.
  pub replace_table_lem :
      (a : Agent n) (oid : Text) (t : Table n) (b : ℕ) (w : Option Watcher)
      (rows : List (List Value))
      → lookup oid a.objects ≡ some (table t)
      → t.index ≡ record { body = bits b; watcher = w }
      → length rows < 2 ^ 31
      → All (FitsRow t.types) rows
      → (a' : Agent n) × (t' : Table n) × (replace_table n oid rows a ≡ (ok tt, a'))
        × (lookup oid a'.objects ≡ some (table t'))
        × ServesAll n t.types 0 rows (n.rows t'.table)
        × ((j : Text) → text_eq oid j ≡ false → lookup j a'.objects ≡ lookup j a.objects)
  unfolding replace_table on_table store_table
  replace_table_lem a oid t b w rows found index lt h =
      let (t', done, types, all) = refill_lem t b w rows index lt h in
      (
        record { objects = insert oid (table t') a.objects; handlers = a.handlers },
        t',
        rw (found, done, replace_table, on_table, store_table) refl,
        rw (lookup-insert, text_eq_refl) refl,
        all,
        λ j ne. rw (lookup-insert, ne) refl,
      )

module _ (n : NetSnmp) (a : Agent n) (oid : Text) (v : Value) (obj : Asn) where
  -- A registered value is set in place.
  pub replace_value_ok :
      (obj' : Asn)
      → lookup oid a.objects ≡ some (value obj)
      → set_value v obj ≡ ok obj'
      → replace_value n oid v a ≡ (ok tt, record a { objects = insert oid (value obj') a.objects })
  unfolding replace_value set_entry
  replace_value_ok obj' found set = rw (found, set, replace_value, set_entry) refl

  pub replace_value_raise :
      (e : Exc)
      → lookup oid a.objects ≡ some (value obj)
      → set_value v obj ≡ raise e
      → replace_value n oid v a ≡ (raise e, a)
  unfolding replace_value set_entry
  replace_value_raise e found set = rw (found, set, replace_value, set_entry) refl
