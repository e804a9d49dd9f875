-- ===== src/Agentx/NetSnmp/Simple.antt =====
-- A library that behaves as documented: a row is its index cells and its columns, a data set is the
-- list of its rows. It stands in for net-snmp where a theorem is applied to concrete data.
use snmpy.Shared.{List, Option, [], ap, head?, if◌then◌else◌, none, refl, some, ℕ, ◌++◌, ◌==◌, ◌∷◌}
use snmpy.Agentx.NetSnmp.{Cell, IsNetSnmp, NetSnmp}

abbrev Columns : Type 0
Columns = List (ℕ × Cell)

abbrev find_column : Columns → ℕ → Option Cell
find_column [] j = none
find_column ((c, x) ∷ cs) j = if c == j then some x else find_column cs j

abbrev rest_of {ℓ} : {A : Type ℓ} → List A → List A
rest_of [] = []
rest_of (x ∷ xs) = xs

abbrev pub simple : NetSnmp
simple = record {
  create_watcher_info =
      λ size type flags. record { data_size = size; max_size = 0; type = type; flags = flags };
  DataSet = List (List Cell × Columns);
  Row = List Cell × Columns;
  create_table_data_set = [];
  table_dataset_add_index = λ t d. d;
  table_set_add_default_row = λ c x d. d;
  create_row_from_defaults = λ d. ([], []);
  varlist_add_variable = λ x r. (r.0 ++ x ∷ [], r.1);
  set_row_column = λ c x r. (r.0, (c, x) ∷ r.1);
  add_row = λ r d. d ++ r ∷ [];
  remove_and_delete_row = λ r d. rest_of d;
  first_row = λ d. head? d;
  next_row = λ r d. head? (rest_of d);
  rows = λ d. d;
  indexes = λ r. r.0;
  column = λ r j. find_column r.1 j;
}

pub simple-IsNetSnmp : IsNetSnmp simple
simple-IsNetSnmp = record {
  created_size = λ s t f. refl;
  created = refl;
  indexed = λ t d. refl;
  defaulted = λ c x d. refl;
  fresh = λ d. refl;
  index_added = λ x r. refl;
  index_kept = λ c x r. refl;
  column_set = λ c j x r. refl;
  added_last = λ r d h. refl;
  first = λ d. refl;
  next_of_first = λ r rs d e. ap (λ l. head? (rest_of l)) e;
  first_removed = λ r rs d e. ap rest_of e;
}
