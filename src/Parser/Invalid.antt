-- ===== src/Parser/Invalid.antt =====
-- Parsers that `parse_table` of lib/snmpy/parser.py takes for invalid.
use snmpy.Shared.{
  List, [], false, key_error, none, ok, raise, refl, some, true, ◌++◌, ◌∷◌, ◌≡◌, arith,
}
use snmpy.Shared.Text.{Text, codes, text_eq}
use snmpy.Shared.Values.{Value}
use snmpy.Shared.Dicts.{Dict}
use snmpy.Module.Tables.{TableModule, other}
use snmpy.Parser.{
  TableParser, append_generated, append_items, is_valid_path, parse_table, yield_rows, yield_unless,
}
use snmpy.Module.Tables.Rows.{append_other}

module _ (finditer : Text → Text → List (Dict Value)) where
  unknown_type :
      (conf : TableParser) (text k : Text)
      → conf.type ≡ some k
      → text_eq k (codes "regex") ≡ false
      → is_valid_path conf.path ≡ true
      → parse_table finditer conf text ≡ (other ∷ [], ok tt)
  unfolding parse_table yield_unless yield_rows
  unknown_type conf text k typed unknown valid = ground arith

  no_type :
      (conf : TableParser) (text : Text)
      → conf.type ≡ none
      → is_valid_path conf.path ≡ true
      → parse_table finditer conf text ≡ (other ∷ [], raise key_error)
  unfolding parse_table yield_unless yield_rows
  no_type conf text untyped valid = ground arith

  -- A parser of an unknown type with a usable path does not fail: every update of the table serves one
  -- row without a value, whatever the text.
  pub append_unknown_type :
      (conf : TableParser) (text k : Text) (t : TableModule)
      → conf.type ≡ some k
      → text_eq k (codes "regex") ≡ false
      → is_valid_path conf.path ≡ true
      → append_generated (parse_table finditer conf text) t
        ≡ (ok tt, record t { rows = t.rows ++ [] ∷ [] })
  unfolding append_generated append_items
  append_unknown_type conf text k t typed unknown valid =
      rw
        (unknown_type conf text k typed unknown valid, append_generated, append_items, append_other)
        refl

  -- Without a type the row is added too, and then the update fails.
  pub append_no_type :
      (conf : TableParser) (text : Text) (t : TableModule)
      → conf.type ≡ none
      → is_valid_path conf.path ≡ true
      → append_generated (parse_table finditer conf text) t
        ≡ (raise key_error, record t { rows = t.rows ++ [] ∷ [] })
  unfolding append_generated append_items
  append_no_type conf text t untyped valid =
      rw (no_type conf text untyped valid, append_generated, append_items, append_other) refl
