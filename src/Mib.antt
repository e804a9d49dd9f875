-- ===== src/Mib.antt =====
-- `config_mib` and `create_mib` of lib/snmpy/mibgen.py: the text of the MIB. The date is a parameter.
pub mod Layout
pub mod Create
pub mod Declared
mod Tests
use snmpy.Shared.{List, Result, [], if◌then◌else◌, ok, replicate, ℕ, ◌++◌, ◌>>=◌, ◌∷◌}
use snmpy.Shared.Text.{Text, codes, join, rstrip, text_eq}
use snmpy.Shared.Numbers.{digits}
use snmpy.Shared.Dicts.{Dict}
use snmpy.Module.Item.{Item}
use snmpy.Mibgen.Names.{camel_case, key_prefix}
use snmpy.Server.{Content, Plugin, table_module, value_module}

-- A line of a template: a newline, the indentation that the line has in the source, and its parts.
pub row : ℕ → List Text → Text
row indent parts = b'\n' ∷ replicate indent b' ' ++ join [] parts

-- The end of a template, whose quotes stand on a line of their own.
pub last_row : ℕ → Text
last_row indent = row indent []

-- The `OBJECT-TYPE` of an item of a ValueModule; `name` is the plugin's and `part` the item's, in camel
-- case.
value_rows : Text → Text → Item → Text
unfolding row last_row
value_rows name part item =
    row 20 (codes "SYNTAX      " ∷ item.syntax.mib_type ∷ [])
    ++ row 20 (codes "MAX-ACCESS  read-only" ∷ [])
    ++ row 20 (codes "STATUS      current" ∷ [])
    ++ row 20 (codes "DESCRIPTION \"" ∷ key_prefix ∷ name ∷ part ∷ codes "\"" ∷ [])
    ++ row 20
        (codes "::= { " ∷ key_prefix ∷ name ∷ codes " " ∷ digits item.oidnum ∷ codes " }" ∷ [])
    ++ last_row 12

value_text : Text → Text → Item → Text
unfolding value_rows
value_text name part item =
    row 16 (key_prefix ∷ name ∷ part ∷ codes " OBJECT-TYPE" ∷ []) ++ value_rows name part item

value_part : Text → Text × Item → Result Text
unfolding value_text
value_part name (key, item) = do part ← camel_case key; ok (value_text name part item)

pub value_parts : Text → Dict Item → Result Text
value_parts name [] = ok []
value_parts name (item ∷ items) = do
  part ← value_part name item
  parts ← value_parts name items
  ok (part ++ parts)

-- The loop over the columns of a TableModule: `types` and `parts`.
type_part : Text → Text × Item → Result Text
type_part name (key, col) = do
  part ← camel_case key
  ok (
      rstrip
        (row 20 (key_prefix ∷ name ∷ part ∷ codes " " ∷ col.syntax.mib_type ∷ []) ++ last_row 16))

column_part : Text → Text × Item → Result Text
column_part name (key, col) = do
  part ← camel_case key
  ok (
      row 16 (key_prefix ∷ name ∷ part ∷ codes " OBJECT-TYPE" ∷ [])
      ++ row 16 (codes "SYNTAX      " ∷ col.syntax.mib_type ∷ [])
      ++ row 16 (codes "MAX-ACCESS  read-only" ∷ [])
      ++ row 16 (codes "STATUS      current" ∷ [])
      ++ row 16 (codes "DESCRIPTION \"" ∷ key_prefix ∷ name ∷ part ∷ codes "\"" ∷ [])
      ++ row 16 (
          codes "::= { " ∷ key_prefix ∷ name ∷ codes "Entry " ∷ digits col.oidnum ∷ codes " }" ∷ [])
      ++ last_row 12)

table_parts : Text → Dict Item → Result (List Text × Text)
table_parts name [] = ok ([], [])
table_parts name (col ∷ cols) = do
  type ← type_part name col
  part ← column_part name col
  rest ← table_parts name cols
  ok (type ∷ rest.0, part ++ rest.1)

-- The template of a table; `big` is the prefix in camel case.
table_text : Text → Text → List Text → Text → Text
table_text big name types parts =
    row 12 (big ∷ name ∷ codes "Entry ::= SEQUENCE {" ∷ [])
    ++ row 16 (key_prefix ∷ name ∷ codes "Index Integer32," ∷ [])
    ++ row 16 (join (b',' ∷ b'\n' ∷ []) types ∷ [])
    ++ row 12 (codes "}" ∷ [])
    ++ row 12 (key_prefix ∷ name ∷ codes "Table OBJECT-TYPE" ∷ [])
    ++ row 16 (codes "SYNTAX      SEQUENCE OF " ∷ big ∷ name ∷ codes "Entry" ∷ [])
    ++ row 16 (codes "MAX-ACCESS  not-accessible" ∷ [])
    ++ row 16 (codes "STATUS      current" ∷ [])
    ++ row 16 (codes "DESCRIPTION \"" ∷ key_prefix ∷ name ∷ codes "Table\"" ∷ [])
    ++ row 16 (codes "::= { " ∷ key_prefix ∷ name ∷ codes " 1 }" ∷ [])
    ++ row 12 (key_prefix ∷ name ∷ codes "Entry OBJECT-TYPE" ∷ [])
    ++ row 16 (codes "SYNTAX      " ∷ big ∷ name ∷ codes "Entry" ∷ [])
    ++ row 16 (codes "MAX-ACCESS  not-accessible" ∷ [])
    ++ row 16 (codes "STATUS      current" ∷ [])
    ++ row 16 (codes "DESCRIPTION \"" ∷ key_prefix ∷ name ∷ codes "Entry\"" ∷ [])
    ++ row 16 (codes "INDEX       { " ∷ key_prefix ∷ name ∷ codes "Index }" ∷ [])
    ++ row 16 (codes "::= { " ∷ key_prefix ∷ name ∷ codes "Table 1 }" ∷ [])
    ++ row 12 (parts ∷ [])
    ++ last_row 8

-- What the class of the plugin adds to its part.
class_part : Text → Content → Result Text
class_part name (value_module m) = value_parts name m.items
class_part name (table_module t) = do
  parts ← table_parts name t.cols
  big ← camel_case key_prefix
  ok (table_text big name parts.0 parts.1)

plugin_row : Text → ℕ → Text
plugin_row name oid =
    row 8 (
      key_prefix
      ∷ name
      ∷ codes " OBJECT IDENTIFIER ::= { "
      ∷ key_prefix
      ∷ codes "MIB "
      ∷ digits oid
      ∷ codes " }"
      ∷ [])
    ++ last_row 4

-- config_mib(plugin)
pub config_mib : Plugin → Result Text
unfolding plugin_row class_part
config_mib p = do
  name ← camel_case p.name
  part ← class_part name p.content
  ok (plugin_row name p.index ++ part)

-- `''.join(config_mib(p) for p in plugins if p.name != 'snmpy_info')`
pub config_mibs : List Plugin → Result Text
config_mibs [] = ok []
config_mibs (p ∷ ps) =
    let rest = config_mibs ps in
    if text_eq p.name (codes "snmpy_info")
    then rest
    else (do part ← config_mib p; parts ← rest; ok (part ++ parts))
