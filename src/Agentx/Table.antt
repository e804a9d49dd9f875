-- ===== src/Agentx/Table.antt =====
-- The `Table` class of lib/snmpy/agentx.py.
pub mod Laws
pub mod Clear
pub mod Indexed
use snmpy.Shared.{
  ℕ, zero, suc, ◌+◌, List, [], ◌∷◌, Option, none, some, ◌==◌, length, map, if◌then◌else◌, Result,
  ok, raise, type_error, index_error, ◌>>=◌, Proc,
}
use snmpy.Shared.Int.{pos, ◌+ℤ◌}
use snmpy.Shared.Values.{Value, int}
use snmpy.Agentx.Asn.{
  Asn, Data, buffer, words, bits, octet_string, counter64, integer32, get_value, set_value,
  asn_integer,
}
use snmpy.Agentx.NetSnmp.{NetSnmp, cell_of}

-- `col.__class__`
pub data AsnClass : Type 0 where
  octet_string_class counter64_class integer32_class : AsnClass

abbrev pub class_of : Data → AsnClass
class_of (buffer _) = octet_string_class
class_of (words _ _) = counter64_class
class_of (bits _) = integer32_class

abbrev pub construct : AsnClass → Value → Result Asn
construct octet_string_class = octet_string
construct counter64_class = counter64
construct integer32_class = integer32

pub record Table (n : NetSnmp) : Type 0 where
  pub types : List AsnClass
  pub index : Asn
  pub table : n.DataSet

-- `self.index.get_value() + 1`
next_index : Value → Result Value
unfolding ◌+ℤ◌
next_index (int z) = ok (int (z +ℤ pos 1))
next_index _ = raise type_error

module _ (n : NetSnmp) where
  open n use {
    DataSet, Row, create_table_data_set, table_dataset_add_index, table_set_add_default_row,
    create_row_from_defaults, varlist_add_variable, set_row_column, add_row, remove_and_delete_row,
    first_row, next_row, rows,
  }

  -- The loop of `__init__` over the columns, which are numbered from 1.
  add_columns : ℕ → List Asn → DataSet → DataSet
  add_columns c [] d = d
  add_columns c (col ∷ cols) d =
      add_columns (c + 1) cols (table_set_add_default_row (c + 1) (cell_of col.body) d)

  -- Table(*cols)
  pub create : List Asn → Table n
  create cols = record {
    types = map (λ col. class_of col.body) cols;
    index = record { body = bits 0; watcher = none };
    table = add_columns 0 cols (table_dataset_add_index asn_integer create_table_data_set);
  }

  -- The loop of `append` over the values of a row.
  fill_row : List AsnClass → ℕ → List Value → Row → Result Row
  fill_row types col [] r = ok r
  fill_row [] col (v ∷ vs) r = raise index_error
  fill_row (k ∷ types) col (v ∷ vs) r = do
    a ← construct k v
    fill_row types (col + 1) vs (set_row_column (col + 1) (cell_of a.body) r)

  -- The index of the new row and its values: one value more than there are columns is an index.
  split_row : Table n → List Value → Result (Value × List Value)
  split_row t [] = do i ← next_index (get_value t.index.body); ok (i, [])
  split_row t (v ∷ vs) =
      if length vs == length t.types
      then ok (v, vs)
      else (do i ← next_index (get_value t.index.body); ok (i, v ∷ vs))

  -- From `tmp_table_row` on: the new row is added once its values are all converted.
  finish_row : List Value → Proc (Table n)
  finish_row vs t =
      let row = varlist_add_variable (cell_of t.index.body) (create_row_from_defaults t.table) in
      elim (fill_row t.types 0 vs row) [
        | ok row' ↦ (ok tt, record t { table = add_row row' t.table })
        | raise e ↦ (raise e, t)
      ]

  -- append(*vals); the index stays set where a value is refused.
  pub append : List Value → Proc (Table n)
  append vals t = elim (split_row t vals) [
    | raise e ↦ (raise e, t)
    | ok (idx, vs) ↦ elim (set_value idx t.index) [
      | raise e ↦ (raise e, t)
      | ok index' ↦ finish_row vs (record t { index = index' })
    ]
  ]

  -- The loop of `clear`: the next row is read before the current one is deleted.
  clear_rows : ℕ → Option Row → DataSet → DataSet
  clear_rows zero _ d = d
  clear_rows (suc fuel) none d = d
  clear_rows (suc fuel) (some row) d =
      clear_rows fuel (next_row row d) (remove_and_delete_row row d)

  -- clear(); `set_value(0)` on the index, an Integer32, is not refused.
  pub clear : Proc (Table n)
  clear t = elim (set_value (int (pos 0)) t.index) [
    | raise e ↦ (raise e, t)
    | ok index' ↦ (
      ok tt,
      record t {
        index = index';
        table = clear_rows (length (rows t.table)) (first_row t.table) t.table;
      },
    )
  ]
