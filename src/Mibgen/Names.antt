-- ===== src/Mibgen/Names.antt =====
-- `camel_case` and `get_oidstr` of lib/snmpy/mibgen.py: from configuration names to MIB object names.
pub mod Injective
pub mod Joined
pub mod Clashes
use snmpy.Shared.{List, Result, [], index_error, map, ok, raise, ◌++◌, ◌>>=◌, ◌∷◌}
use snmpy.Shared.Text.{Text, codes, join, lower, split, upper}

abbrev pub mib_module : Text
mib_module = codes "SNMPY-MIB"

abbrev pub key_prefix : Text
key_prefix = codes "snmpy"

abbrev pub version_key : Text
version_key = codes "info_version"

abbrev pub plugins_key : Text
plugins_key = codes "info_plugins"

-- `i[0].upper() + i[1:].lower()`; an empty part has no first letter.
pub capitalize : Text → Result Text
unfolding upper lower
capitalize [] = raise index_error
capitalize (c ∷ s) = ok (upper c ∷ map lower s)

-- The parts of a key, capitalized and joined.
pub capitalize_all : List Text → Result Text
unfolding capitalize
capitalize_all [] = ok []
capitalize_all (p ∷ ps) = do t ← capitalize p; ts ← capitalize_all ps; ok (t ++ ts)

unfoldable pub camel_case : Text → Result Text
unfolding capitalize_all split
camel_case key = capitalize_all (split b'_' key)

-- get_oidstr(*args)
unfoldable pub get_oidstr : List Text → Result Text
unfolding camel_case join
get_oidstr args = do
  t ← camel_case (join (b'_' ∷ []) args)
  ok (mib_module ++ codes "::" ++ key_prefix ++ t)
