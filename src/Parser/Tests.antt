-- ===== src/Parser/Tests.antt =====
-- Parsers at concrete inputs, with regular expressions that find nothing.
use snmpy.Shared.{List, [], false, length, map, none, ok, refl, some, ◌∷◌, ◌≡◌}
use snmpy.Shared.Text.{Text, codes, text_eq}
use snmpy.Shared.Values.{Value, int}
use snmpy.Shared.Dicts.{Dict}
use snmpy.Shared.Int.{negsuc, pos, ℤ}
use snmpy.Shared.Numbers.{parse_int}
use snmpy.Parser.{
  TableParser, append_generated, cdef_avg, cdef_len, cdef_max, cdef_min, cdef_sum, consolidate,
  native_all, one_path, parse_table,
}
use snmpy.Parser.Invalid.{append_unknown_type}
use snmpy.Parser.Consolidation.{IsFloor, IsMax, IsMin, consolidate_numbers, sum}
use snmpy.Module.Tables.{TableModule}
use snmpy.Mibgen.Syntax.{int_type, to_native}

abbrev no_match : Text → Text → List (Dict Value)
no_match patt text = []

abbrev empty_table : TableModule
empty_table = record { name = codes "disks"; save = false; cols = []; rows = [] }

abbrev misspelt : TableParser
misspelt = record { type = some (codes "regexp"); path = some (one_path (codes "x")) }

abbrev untyped : TableParser
untyped = record { type = none; path = some (one_path (codes "x")) }

misspelt_differs : text_eq (codes "regexp") (codes "regex") ≡ false
unfolding text_eq
misspelt_differs = refl

append_unknown_type_example :
    append_generated (parse_table no_match misspelt []) empty_table
    ≡ (ok tt, record empty_table { rows = [] ∷ [] })
append_unknown_type_example =
    append_unknown_type no_match misspelt [] (codes "regexp") empty_table refl (misspelt_differs)
      refl

found_numbers :
    native_all int_type (codes "7" ∷ codes "-2" ∷ []) ≡ ok (map int (pos 7 ∷ negsuc 1 ∷ []))
unfolding native_all to_native parse_int
found_numbers = refl

consolidate_numbers_example :
    ((m : ℤ) × (consolidate cdef_min (codes "7" ∷ codes "-2" ∷ []) int_type ≡ ok (int m))
      × IsMin m (pos 7 ∷ negsuc 1 ∷ []))
    × ((m : ℤ) × (consolidate cdef_max (codes "7" ∷ codes "-2" ∷ []) int_type ≡ ok (int m))
        × IsMax m (pos 7 ∷ negsuc 1 ∷ []))
    × (consolidate cdef_sum (codes "7" ∷ codes "-2" ∷ []) int_type
        ≡ ok (int (sum (pos 7 ∷ negsuc 1 ∷ []))))
    × (consolidate cdef_len (codes "7" ∷ codes "-2" ∷ []) int_type
        ≡ ok (int (pos (length (pos 7 ∷ negsuc 1 ∷ [])))))
    × ((q : ℤ) × (consolidate cdef_avg (codes "7" ∷ codes "-2" ∷ []) int_type ≡ ok (int q))
        × IsFloor (sum (pos 7 ∷ negsuc 1 ∷ [])) (length (pos 7 ∷ negsuc 1 ∷ [])) q)
consolidate_numbers_example =
    consolidate_numbers (codes "7") (codes "-2" ∷ []) (pos 7) (negsuc 1 ∷ []) found_numbers
