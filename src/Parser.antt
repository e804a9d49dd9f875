-- ===== src/Parser.antt =====
-- lib/snmpy/parser.py: values and rows out of text. What a regular expression of the configuration
-- finds in a text is a parameter: `findall` the matches of a pattern with one group, `finditer` the
-- named groups of each match.
pub mod Consolidation
pub mod Invalid
mod Tests
use snmpy.Shared.{
  Bool, List, Option, Proc, Result, [], false, if◌then◌else◌, key_error, length, min, name_error,
  none, ok, raise, some, true, type_error, value_error, ◌>>=◌, ◌>>◌, ◌∷◌,
}
use snmpy.Shared.Text.{Text, codes, join, text_eq}
use snmpy.Shared.Values.{Value, int, str}
use snmpy.Shared.Dicts.{Dict}
use snmpy.Shared.Int.{div_ℤ, ltb_ℤ, pos, ℤ, ◌+ℤ◌}
use snmpy.Module.Item.{Item}
use snmpy.Mibgen.Syntax.{NativeType, to_native}
use snmpy.Module.Tables.{RowData, TableModule, append, mapping, other}
use snmpy.Shared.Sorting.{text_lt}

-- The order of two values of one type.
pub value_lt : Value → Value → Bool
unfolding text_lt
value_lt (int a) (int b) = ltb_ℤ a b
value_lt (str s) (str t) = text_lt s t
value_lt _ _ = false

-- t(i) for i in l
pub native_all : NativeType → List Text → Result (List Value)
native_all t [] = ok []
native_all t (s ∷ ss) = do v ← to_native t (str s); vs ← native_all t ss; ok (v ∷ vs)

-- `min` and `max`: the first of the least, and of the greatest.
pub min_from : Value → List Value → Value
min_from m [] = m
min_from m (v ∷ vs) = min_from (if value_lt v m then v else m) vs

pub max_from : Value → List Value → Value
max_from m [] = m
max_from m (v ∷ vs) = max_from (if value_lt m v then v else m) vs

min_of : List Value → Result Value
min_of [] = raise value_error
min_of (v ∷ vs) = ok (min_from v vs)

max_of : List Value → Result Value
max_of [] = raise value_error
max_of (v ∷ vs) = ok (max_from v vs)

-- `sum` starts at 0, to which a text cannot be added.
pub sum_from : ℤ → List Value → Result ℤ
unfolding ◌+ℤ◌
sum_from acc [] = ok acc
sum_from acc (int z ∷ vs) = sum_from (acc +ℤ z) vs
sum_from acc (_ ∷ vs) = raise type_error

pub data Cdef : Type 0 where
  cdef_min cdef_max cdef_sum cdef_len cdef_avg : Cdef

-- The keys of the `cdef` dictionary.
pub cdef_named : Text → Option Cdef
cdef_named k =
    if text_eq k (codes "min")
    then some cdef_min
    else if text_eq k (codes "max")
    then some cdef_max
    else if text_eq k (codes "sum")
    then some cdef_sum
    else if text_eq k (codes "len")
    then some cdef_len
    else if text_eq k (codes "avg")
    then some cdef_avg
    else none

-- cdef[item.cdef](l, t)
pub consolidate : Cdef → List Text → NativeType → Result Value
consolidate cdef_min l t = do vs ← native_all t l; min_of vs
consolidate cdef_max l t = do vs ← native_all t l; max_of vs
consolidate cdef_sum l t = do vs ← native_all t l; z ← sum_from (pos 0) vs; ok (int z)
consolidate cdef_len l t = ok (int (pos (length l)))
consolidate cdef_avg [] t = ok (int (pos 0))
consolidate cdef_avg (s ∷ ss) t = do
  vs ← native_all t (s ∷ ss)
  z ← sum_from (pos 0) vs
  ok (int (div_ℤ z (length (s ∷ ss))))

abbrev cdef_of : Option Text → Option Cdef
cdef_of none = none
cdef_of (some k) = cdef_named k

-- What is made of the matches, of which there is at least one.
pub use_matches : Item → List Text → Result Value
use_matches item found = elim (cdef_of item.cdef) [
  | some c ↦ consolidate c found item.syntax.native_type
  | none ↦ to_native item.syntax.native_type (str (join item.join found))
]

module _ (findall : Text → Text → List Text) where
  abbrev found_by : Option Text → Text → List Text
  found_by none text = []
  found_by (some regex) text = findall regex text

  -- Where nothing is found the item keeps its value.
  value_found : Item → List Text → Result Value
  value_found item [] = ok item.value
  value_found item (s ∷ ss) = use_matches item (s ∷ ss)

  unfoldable pub parse_value : Text → Item → Result Value
  unfolding value_found use_matches
  parse_value text item = value_found item (found_by item.regex text)

-- parser['path']: a text, a list of texts, or a value of another type.
pub data ParserPath : Type 0 where
  one_path : Text → ParserPath
  many_paths : List Text → ParserPath
  bad_path : ParserPath

pub record TableParser : Type 0 where
  pub type : Option Text
  pub path : Option ParserPath

abbrev is_regex : Option Text → Bool
is_regex none = false
is_regex (some k) = text_eq k (codes "regex")

abbrev is_valid_path : Option ParserPath → Bool
is_valid_path none = false
is_valid_path (some bad_path) = false
is_valid_path (some (one_path p)) = true
is_valid_path (some (many_paths ps)) = true

-- A generator: what it yields, and how it ends.
abbrev pub Generator : Type 0
Generator = List RowData × Result (Unit {0})

module _ (finditer : Text → Text → List (Dict Value)) where
  yield_all : List (Dict Value) → List RowData
  yield_all [] = []
  yield_all (d ∷ ds) = mapping d ∷ yield_all ds

  -- From `patt` on; for a path of another type `patt` has no value.
  yield_path : ParserPath → Text → Generator
  yield_path (one_path p) text = (yield_all (finditer p text), ok tt)
  yield_path (many_paths ps) text = (yield_all (finditer (join (codes ".*?") ps) text), ok tt)
  yield_path bad_path text = ([], raise name_error)

  yield_rows : TableParser → Text → Generator
  yield_rows conf text = elim conf.type [
    | none ↦ ([], raise key_error)
    | some k ↦
        if text_eq k (codes "regex")
        then (elim conf.path [ none ↦ ([], raise key_error) | some p ↦ yield_path p text ])
        else ([], ok tt)
  ]

  -- `yield` in place of a return: the caller is given a `None`, and the generator goes on.
  yield_unless : Bool → Generator → Generator
  yield_unless true g = g
  yield_unless false (rows, end) = (other ∷ rows, end)

  pub parse_table : TableParser → Text → Generator
  parse_table parser text =
      yield_unless (is_regex parser.type)
        (yield_unless (is_valid_path parser.path) (yield_rows parser text))

-- `for item in parse_table(...): self.append(item)`, in exec_table.py and file_table.py.
pub append_items : List RowData → Proc TableModule
append_items [] t = (ok tt, t)
append_items (d ∷ ds) t = (append d >> append_items ds) t

pub append_generated : Generator → Proc TableModule
append_generated (ds, end) = append_items ds >> (λ t. (end, t))
