-- ===== src/Mibgen/Syntax.antt =====
-- `get_syntax` of lib/snmpy/mibgen.py: the SNMP type of a configured type name.
pub mod Prefixes
use snmpy.Shared.{
  Bool, List, Result, [], false, if◌then◌else◌, ok, raise, true, type_error, ◌++◌, ◌==◌, ◌>>=◌, ◌∷◌,
}
use snmpy.Shared.Text.{Text, codes}
use snmpy.Shared.Values.{Value, int, null, str}
use snmpy.Shared.Numbers.{parse_int, print_int}

-- The regular expressions of the type map.
pub data Pattern : Type 0 where
  lit : Text → Pattern
  seq alt : Pattern → Pattern → Pattern
  opt : Pattern → Pattern

-- What is left of the text behind the pattern, in each way in which the pattern matches at its start.
abbrev strip_prefix : Text → Text → List Text
strip_prefix s [] = s ∷ []
strip_prefix [] (p ∷ ps) = []
strip_prefix (c ∷ s) (p ∷ ps) = if c == p then strip_prefix s ps else []

abbrev on_each : (Text → List Text) → List Text → List Text
on_each f [] = []
on_each f (s ∷ ss) = f s ++ on_each f ss

pub rests : Pattern → Text → List Text
rests (lit p) s = strip_prefix s p
rests (seq a b) s = on_each (rests b) (rests a s)
rests (alt a b) s = rests a s ++ rests b s
rests (opt a) s = rests a s ++ s ∷ []

abbrev any_rest : List Text → Bool
any_rest [] = false
any_rest (_ ∷ _) = true

-- Whether `re.match` finds the pattern at the start of the text.
pub matches : Pattern → Text → Bool
matches p s = any_rest (rests p s)

-- (?:long|int(?:eger)?64|count(?:er)?64)
abbrev pub counter64_pattern : Pattern
counter64_pattern = alt (lit (codes "long")) (
    alt (seq (lit (codes "int")) (seq (opt (lit (codes "eger"))) (lit (codes "64"))))
      (seq (lit (codes "count")) (seq (opt (lit (codes "er"))) (lit (codes "64")))))

-- (?:int(?:eger)?|count)(?:32)?
abbrev pub integer32_pattern : Pattern
integer32_pattern =
    seq (alt (seq (lit (codes "int")) (opt (lit (codes "eger")))) (lit (codes "count")))
      (opt (lit (codes "32")))

pub data ObjectType : Type 0 where
  counter64_type integer32_type octet_string_type : ObjectType

pub data NativeType : Type 0 where
  int_type str_type : NativeType

-- object_syntax
pub record Syntax : Type 0 where
  pub mib_type : Text
  pub object_type : ObjectType
  pub native_type : NativeType

abbrev pub counter64_syntax : Syntax
counter64_syntax = record {
  mib_type = codes "Counter64";
  object_type = counter64_type;
  native_type = int_type;
}

abbrev pub integer32_syntax : Syntax
integer32_syntax = record {
  mib_type = codes "Integer32";
  object_type = integer32_type;
  native_type = int_type;
}

abbrev pub octet_string_syntax : Syntax
octet_string_syntax = record {
  mib_type = codes "OCTET STRING";
  object_type = octet_string_type;
  native_type = str_type;
}

unfoldable pub get_syntax : Text → Syntax
get_syntax key =
    if matches counter64_pattern key
    then counter64_syntax
    else if matches integer32_pattern key
    then integer32_syntax
    else octet_string_syntax

-- `int(v)` and `str(v)`
unfoldable pub to_native : NativeType → Value → Result Value
to_native int_type null = raise type_error
to_native int_type (int z) = ok (int z)
to_native int_type (str s) = do z ← parse_int s; ok (int z)
to_native str_type null = ok (str (codes "None"))
to_native str_type (int z) = ok (str (print_int z))
to_native str_type (str s) = ok (str s)
