-- ===== src/Module/Tables.antt =====
-- `TableModule` of lib/snmpy/module/__init__.py: columns, and the rows of the last update.
pub mod Rows
pub mod Typed
use snmpy.Shared.{
  Bool, List, Proc, Result, [], get_elem?, if◌then◌else◌, index_error, io_error, key_error, ok,
  or_raise, raise, type_error, ◌&&◌, ◌++◌, ◌-◌, ◌>>=◌, ◌∷◌,
}
use snmpy.Shared.Text.{Text}
use snmpy.Shared.Values.{Value}
use snmpy.Shared.Dicts.{Dict, lookup}
use snmpy.Module.Item.{Item, ItemConf, make_items}
use snmpy.Mibgen.Syntax.{to_native}

-- What a plugin appends: a list or tuple, a dictionary, or anything else.
pub data RowData : Type 0 where
  sequence : List Value → RowData
  mapping : Dict Value → RowData
  other : RowData

pub record TableModule : Type 0 where
  pub name : Text
  pub save : Bool
  pub cols : Dict Item
  pub rows : List (List Value)

pub record RowsFile : Type 0 where
  pub content : Result (List (List Value))
  pub writable : Bool

-- `data[col.oidnum - 1]` of a list, `data[key]` of a dictionary.
fetch : RowData → Text → Item → Result Value
fetch (sequence vs) key col = or_raise index_error (get_elem? vs (col.oidnum - 1))
fetch (mapping d) key col = or_raise key_error (lookup key d)
fetch other key col = raise type_error

-- `col.syntax.native_type(data[...])`
pub cell : RowData → Text → Item → Result Value
unfolding fetch
cell d key col = do x ← fetch d key col; to_native col.syntax.native_type x

-- A value that is refused ends the row.
extend : Result Value → Result (Unit {0}) × List Value → Result (Unit {0}) × List Value
extend (ok v) (r, row) = (r, v ∷ row)
extend (raise e) _ = (raise e, [])

-- The loop over the columns: how it ended, and the values appended to the new row.
convert_row : RowData → Dict Item → Result (Unit {0}) × List Value
convert_row d [] = (ok tt, [])
convert_row d ((key, col) ∷ cols) = extend (cell d key col) (convert_row d cols)

-- What is appended to `self.rows`: of data that is neither a list nor a dictionary, an empty row.
new_row : RowData → Dict Item → Result (Unit {0}) × List Value
new_row (sequence vs) cols = convert_row (sequence vs) cols
new_row (mapping d) cols = convert_row (mapping d) cols
new_row other cols = (ok tt, [])

-- append(data): the row is there before its values are converted, and stays if that fails.
pub append : RowData → Proc TableModule
append d t = let (r, row) = new_row d t.cols in (r, record t { rows = t.rows ++ row ∷ [] })

pub clear : TableModule → TableModule
clear t = record t { rows = [] }

load_rows : Result (List (List Value)) → TableModule → Result TableModule
load_rows (raise io_error) t = ok t
load_rows (raise e) t = raise e
load_rows (ok rows) t = ok (record t { rows = rows })

pub load : RowsFile → TableModule → Result TableModule
unfolding load_rows
load file t = if t.save then load_rows file.content t else ok t

pub dump : TableModule → RowsFile → RowsFile
dump t file = if t.save && file.writable then record file { content = ok t.rows } else file

-- TableModule(conf)
pub create : Text → Bool → List (Text × ItemConf) → RowsFile → Result TableModule
create name save confs file = do
  cols ← make_items name 0 confs []
  load file (record { name = name; save = save; cols = cols; rows = [] })

-- `update` as the metaclass wraps it.
pub wrapped_update :
    Proc TableModule → TableModule → RowsFile → Result (Unit {0}) × TableModule × RowsFile
wrapped_update func t file =
    let (r, t') = func (clear t) in
    elim r [ ok _ ↦ (ok tt, t', dump t' file) | raise e ↦ (raise e, t', file) ]
