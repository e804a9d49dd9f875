-- ===== src/Plugins.antt =====
-- The plugins of lib/snmpy/module/: how their `update` methods fill the two module classes. The text
-- that a command prints or a file holds is a parameter.
pub mod LogProcessor
pub mod FileHash
pub mod FileValue
pub mod FilesystemSpace
pub mod ProcessInfo
pub mod DiskUtilization
pub mod RaidInfo
mod Tests
use snmpy.Shared.{List, Proc, [], key_error, ok, or_raise, raise, ◌>>=◌, ◌>>◌, ◌∷◌}
use snmpy.Shared.Text.{Text}
use snmpy.Shared.Dicts.{Dict, keys, lookup}
use snmpy.Module.Item.{Item}
use snmpy.Module.Values.{ValueModule, set_item}
use snmpy.Module.Tables.{TableModule}
use snmpy.Parser.{TableParser, append_generated, parse_table, parse_value}
use snmpy.Shared.Values.{Value}

module _ (findall : Text → Text → List Text) where
  -- self[item] = parse_value(text, self[item])
  parse_item : Text → Text → Proc (Dict Item)
  parse_item text key items =
      elim (or_raise key_error (lookup key items)
        >>= (λ item. parse_value findall text item >>= (λ v. set_item key v items))) [
          | ok items' ↦ (ok tt, items')
          | raise e ↦ (raise e, items)
        ]

  -- The loop over the names of the items.
  pub parse_items : Text → List Text → Proc (Dict Item)
  parse_items text [] items = (ok tt, items)
  parse_items text (key ∷ ks) items = (parse_item text key >> parse_items text ks) items

  -- `for item in self: self[item] = parse_value(text, self[item])`
  pub parse_each : Text → Proc (Dict Item)
  parse_each text items = parse_items text (keys items) items

  -- exec_value.update, for what the command prints
  pub exec_value_update : Text → Proc ValueModule
  exec_value_update text m =
      let (r, items) = parse_each text m.items in (r, record m { items = items })

-- exec_table.update, for what the command prints, and file_table.update, for what the file holds
pub table_update : (Text → Text → List (Dict Value)) → TableParser → Text → Proc TableModule
table_update finditer parser text = append_generated (parse_table finditer parser text)
