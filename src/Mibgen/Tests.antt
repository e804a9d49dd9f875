-- ===== src/Mibgen/Tests.antt =====
-- Names and types at concrete inputs.
use snmpy.Shared.{if◌then◌else◌, ok, refl, ◌≡◌}
use snmpy.Shared.Text.{Text, codes, split}
use snmpy.Mibgen.Names.{camel_case}
use snmpy.Mibgen.Names.Injective.{IsName, camel_case-injective}
use snmpy.Mibgen.Syntax.{counter64_syntax, get_syntax, integer32_syntax, octet_string_syntax}
use snmpy.Mibgen.Syntax.Prefixes.{counter64_names, get_syntax_lem, integer32_names, any_prefix}

disk_use_IsName : IsName (codes "disk_use")
unfolding split
disk_use_IsName = ((refl, (refl, (refl, (refl, tt)))), ((refl, (refl, (refl, tt))), tt))

camel_case-injective_example :
    ((t : Text) × (camel_case (codes "disk_use") ≡ ok t)) × (codes "disk_use" ≡ codes "disk_use")
camel_case-injective_example =
    camel_case-injective (codes "disk_use") (codes "disk_use") disk_use_IsName disk_use_IsName refl

get_syntax_lem_example : get_syntax (codes "integer64") ≡ (
    if any_prefix (codes "integer64") counter64_names
    then counter64_syntax
    else if any_prefix (codes "integer64") integer32_names
    then integer32_syntax
    else octet_string_syntax)
get_syntax_lem_example = get_syntax_lem (codes "integer64")
