-- ===== src/Agentx/NetSnmp.antt =====
-- The functions of the net-snmp C library that lib/snmpy/agentx.py calls, as a parameter of
-- the model: watchers, and a data set with its rows in the order of their index, through which a program walks by
-- `first_row` and `next`.
pub mod Simple
use snmpy.Shared.{
  ℕ, ◌^◌, ◌<◌, ◌≡◌, Option, some, List, [], ◌∷◌, ◌++◌, ◌==◌, All, head?, if◌then◌else◌,
}
use snmpy.Agentx.Asn.{Data, Watcher, bits, type_of, data_size}

-- What a call is given of a value: its ASN.1 type, the memory behind its reference, and its size.
pub record Cell : Type 0 where
  pub type : ℕ
  pub content : Data
  pub size : ℕ

abbrev pub cell_of : Data → Cell
cell_of d = record { type = type_of d; content = d; size = data_size d }

pub record NetSnmp : Type 1 where
  pub create_watcher_info : ℕ → ℕ → ℕ → Watcher
  pub DataSet : Type 0
  pub Row : Type 0
  pub create_table_data_set : DataSet
  pub table_dataset_add_index : ℕ → DataSet → DataSet
  pub table_set_add_default_row : ℕ → Cell → DataSet → DataSet
  pub create_row_from_defaults : DataSet → Row
  pub varlist_add_variable : Cell → Row → Row
  pub set_row_column : ℕ → Cell → Row → Row
  pub add_row : Row → DataSet → DataSet
  pub remove_and_delete_row : Row → DataSet → DataSet
  pub first_row : DataSet → Option Row
  pub next_row : Row → DataSet → Option Row
  -- what a manager sees of a data set
  pub rows : DataSet → List Row
  pub indexes : Row → List Cell
  pub column : Row → ℕ → Option Cell

-- Row `q` stands before row `r`: their indexes are single numbers, in this order.
pub record Precedes (n : NetSnmp) (q r : n.Row) : Type 0 where
  pub before : ℕ
  pub after : ℕ
  pub at_before : n.indexes q ≡ cell_of (bits before) ∷ []
  pub at_after : n.indexes r ≡ cell_of (bits after) ∷ []
  pub in_order : before < after
  pub in_range : after < 2 ^ 31

-- The documented behaviour that the table class relies on.
pub record IsNetSnmp (n : NetSnmp) : Type 0 where
  pub created_size :
      (size type flags : ℕ) → (n.create_watcher_info size type flags).data_size ≡ size
  pub created : n.rows n.create_table_data_set ≡ []
  pub indexed : (t : ℕ) (d : n.DataSet) → n.rows (n.table_dataset_add_index t d) ≡ n.rows d
  pub defaulted :
      (c : ℕ) (x : Cell) (d : n.DataSet) → n.rows (n.table_set_add_default_row c x d) ≡ n.rows d
  pub fresh : (d : n.DataSet) → n.indexes (n.create_row_from_defaults d) ≡ []
  pub index_added :
      (x : Cell) (r : n.Row) → n.indexes (n.varlist_add_variable x r) ≡ n.indexes r ++ x ∷ []
  pub index_kept : (c : ℕ) (x : Cell) (r : n.Row) → n.indexes (n.set_row_column c x r) ≡ n.indexes r
  pub column_set :
      (c j : ℕ) (x : Cell) (r : n.Row)
      → n.column (n.set_row_column c x r) j ≡ (if c == j then some x else n.column r j)
  pub added_last :
      (r : n.Row) (d : n.DataSet)
      → All (λ q. Precedes n q r) (n.rows d)
      → n.rows (n.add_row r d) ≡ n.rows d ++ r ∷ []
  pub first : (d : n.DataSet) → n.first_row d ≡ head? (n.rows d)
  pub next_of_first :
      (r : n.Row) (rs : List n.Row) (d : n.DataSet) → n.rows d ≡ r ∷ rs → n.next_row r d ≡ head? rs
  pub first_removed :
      (r : n.Row) (rs : List n.Row) (d : n.DataSet)
      → n.rows d ≡ r ∷ rs
      → n.rows (n.remove_and_delete_row r d) ≡ rs
