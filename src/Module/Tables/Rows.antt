-- ===== src/Module/Tables/Rows.antt =====
-- What `TableModule.append` of lib/snmpy/module/__init__.py adds to the rows.
use snmpy.Shared.{
  Bool, Exc, Option, List, Result, [], ap, false, get_elem?, index_error, key_error, none, ok,
  ok-injective, ok_of_bind, or_raise, raise, refl, some, sym, true, ◌++◌, ◌-◌, ◌>>=◌, ◌∙◌, ◌∷◌, ◌≡◌,
}
use snmpy.Shared.Text.{Text}
use snmpy.Shared.Values.{Value}
use snmpy.Shared.Dicts.{Dict, lookup}
use snmpy.Module.Item.{Item}
use snmpy.Mibgen.Syntax.{to_native}
use snmpy.Module.Tables.{
  RowData, TableModule, append, cell, convert_row, extend, fetch, mapping, new_row, other, sequence,
}

abbrev pub is_other : RowData → Bool
is_other (sequence vs) = false
is_other (mapping d) = false
is_other other = true

-- What the data has for a column: a list at the column's number, counted from 1, a dictionary at its
-- name.
abbrev pub Has : RowData → Text → Item → Value → Type 0
Has (sequence vs) key col x = get_elem? vs (col.oidnum - 1) ≡ some x
Has (mapping d) key col x = lookup key d ≡ some x
Has other key col x = ⊥

-- The value of a column: what its native type makes of what the data has.
abbrev pub IsCell : RowData → Text → Item → Value → Type 0
IsCell d key col v = (x : Value) × Has d key col x × (to_native col.syntax.native_type x ≡ ok v)

abbrev pub RowOf : RowData → Dict Item → List Value → Type 0
RowOf d [] [] = Unit
RowOf d ((key, col) ∷ cols) (v ∷ row) = IsCell d key col v × RowOf d cols row
RowOf _ _ _ = ⊥

-- The row up to a column that has no value.
abbrev pub StopsAt : RowData → Dict Item → List Value → Type 0
StopsAt d ((key, col) ∷ cols) [] = (v : Value) → IsCell d key col v → ⊥
StopsAt d ((key, col) ∷ cols) (v ∷ row) = IsCell d key col v × StopsAt d cols row
StopsAt d [] row = ⊥

-- A whole row if the loop ends well; else the values before the one that was refused.
abbrev pub Outcome : RowData → Dict Item → Result (Unit {0}) × List Value → Type 0
Outcome d cols (ok _, row) = RowOf d cols row
Outcome d cols (raise e, row) = StopsAt d cols row

found : {A : Type 0} (o : Option A) (e : Exc) (x : A) → or_raise e o ≡ ok x → o ≡ some x
found none e x h = cc
found (some a) e x h = ap some (ok-injective h)

cell-IsCell :
    (d : RowData) (key : Text) (col : Item) (v : Value) → cell d key col ≡ ok v → IsCell d key col v
unfolding cell fetch
cell-IsCell (sequence vs) key col v h =
    let (x, has, made) = ok_of_bind (or_raise index_error (get_elem? vs (col.oidnum - 1))) _ h in
    (x, found _ _ x has, made)
cell-IsCell (mapping d) key col v h =
    let (x, has, made) = ok_of_bind (or_raise key_error (lookup key d)) _ h in
    (x, found _ _ x has, made)
cell-IsCell other key col v h = cc

IsCell-cell :
    (d : RowData) (key : Text) (col : Item) (v : Value) → IsCell d key col v → cell d key col ≡ ok v
unfolding cell fetch
IsCell-cell (sequence vs) key col v (x, has, made) =
    ap (λ o. or_raise index_error o >>= to_native col.syntax.native_type) has ∙ made
IsCell-cell (mapping d) key col v (x, has, made) =
    ap (λ o. or_raise key_error o >>= to_native col.syntax.native_type) has ∙ made
IsCell-cell other key col v (x, has, made) = absurd has

not_ok : {e : Exc} {v : Value} → raise e ≡ ok v → ⊥
not_ok h = cc

extend-Outcome :
    (d : RowData) (key : Text) (col : Item) (cols : Dict Item) (r : Result Value)
    (rest : Result (Unit {0}) × List Value)
    → cell d key col ≡ r
    → Outcome d cols rest
    → Outcome d ((key, col) ∷ cols) (extend r rest)
unfolding extend
extend-Outcome d key col cols (ok v) (ok _, row) e h = (cell-IsCell d key col v e, h)
extend-Outcome d key col cols (ok v) (raise x, row) e h = (cell-IsCell d key col v e, h)
extend-Outcome d key col cols (raise x) rest e h =
    λ v made. not_ok (sym e ∙ IsCell-cell d key col v made)

convert_row-Outcome : (d : RowData) (cols : Dict Item) → Outcome d cols (convert_row d cols)
unfolding convert_row
convert_row-Outcome d [] = tt
convert_row-Outcome d ((key, col) ∷ cols) =
    extend-Outcome d key col cols (cell d key col) (convert_row d cols) refl
      (convert_row-Outcome d cols)

-- `append` of a list or a dictionary adds one row behind the others and changes nothing else. If it
-- does not raise, the row has for each column what the column's native type makes of what the data has
-- for it: a list at the column's number, a dictionary at its name. If it raises, the row stays, with
-- these values up to a column for which there is none.
pub append-Outcome :
    (d : RowData) (t : TableModule)
    → is_other d ≡ false
    → (row : List Value) × ((append d t).1 ≡ record t { rows = t.rows ++ row ∷ [] })
      × Outcome d t.cols ((append d t).0, row)
unfolding append new_row
append-Outcome (sequence vs) t h = (_, refl, convert_row-Outcome (sequence vs) t.cols)
append-Outcome (mapping m) t h = (_, refl, convert_row-Outcome (mapping m) t.cols)
append-Outcome other t h = cc

-- A row of `None` or the like is taken for a row without a value.
pub append_other :
    (t : TableModule) → append other t ≡ (ok tt, record t { rows = t.rows ++ [] ∷ [] })
unfolding append new_row
append_other t = refl
