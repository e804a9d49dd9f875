-- ===== src/Agentx/Table/Indexed.antt =====
-- `append` with an index in front of the row (lib/snmpy/agentx.py).
use snmpy.Shared.{List, Option, [], ap, arith, map, none, ok, refl, ℕ, ◌+◌, ◌∙◌, ◌∷◌, ◌≡◌}
use snmpy.Shared.Values.{Value, int}
use snmpy.Shared.Int.{ℤ}
use snmpy.Agentx.Asn.{Asn, Watcher, bits, c_int, set_value}
use snmpy.Agentx.Asn.Laws.{set_value-bits}
use snmpy.Agentx.NetSnmp.{NetSnmp, cell_of}
use snmpy.Agentx.Table.{AsnClass, Table, append, class_of, create, fill_row, finish_row, split_row}
use snmpy.Agentx.Table.Laws.{FitsRow, FitsRow-length, construct_ok}

module _ (n : NetSnmp) where
  fill_row_ok :
      (ks : List AsnClass) (c : ℕ) (vs : List Value) (r : n.Row)
      → FitsRow ks vs
      → (r' : n.Row) × (fill_row n ks c vs r ≡ ok r')
  unfolding fill_row
  fill_row_ok [] c [] r h = (r, refl)
  fill_row_ok (k ∷ ks) c (v ∷ vs) r h =
      let (a, made) = construct_ok k v h.0 in
      let (r', filled) =
        fill_row_ok ks (c + 1) vs (n.set_row_column (c + 1) (cell_of a.body) r) h.1 in
      (r', rw made filled)
  fill_row_ok [] c (v ∷ vs) r h = absurd h
  fill_row_ok (k ∷ ks) c [] r h = absurd h

  finish_row_ok :
      (t : Table n) (vs : List Value)
      → FitsRow t.types vs
      → (d : n.DataSet) × (finish_row n vs t ≡ (ok tt, record t { table = d }))
  unfolding finish_row
  finish_row_ok t vs h =
      let (r', filled) =
        fill_row_ok t.types 0 vs
          (n.varlist_add_variable (cell_of t.index.body) (n.create_row_from_defaults t.table)) h in
      (n.add_row r' t.table, rw (filled, finish_row) refl)

  -- The row is added under the given index, which the table keeps as its last.
  pub append_indexed :
      (t : Table n) (b : ℕ) (w : Option Watcher) (z : ℤ) (vs : List Value)
      → t.index ≡ record { body = bits b; watcher = w }
      → FitsRow t.types vs
      → (t' : Table n) × (w' : Option Watcher) × (append n (int z ∷ vs) t ≡ (ok tt, t'))
        × (t'.types ≡ t.types)
        × (t'.index ≡ record { body = bits (c_int z); watcher = w' })
  unfolding append split_row
  append_indexed t b w z vs index h =
      let (w', set) = set_value-bits z b w in
      let index' : Asn = record { body = bits (c_int z); watcher = w' } in
      let (d, finished) = finish_row_ok (record t { index = index' }) vs h in
      (
        record t { index = index'; table = d },
        w',
        rw (parts, append, ap (set_value (int z)) index ∙ set) finished,
        refl,
        refl,
      )
    where
      parts : split_row n t (int z ∷ vs) ≡ ok (int z, vs)
      parts = ground (arith, FitsRow-length t.types vs h)

  -- A new table has the classes of its columns, and no index yet.
  pub create-types :
      (cols : List Asn) → (create n cols).types ≡ map (λ (o : Asn). class_of o.body) cols
  unfolding create
  create-types cols = refl

  pub create-index :
      (cols : List Asn) → (create n cols).index ≡ record { body = bits 0; watcher = none }
  unfolding create
  create-index cols = refl
