-- ===== src/Mib/Layout/Indented.antt =====
-- What the last pass of `create_mib` in lib/snmpy/mibgen.py changes.
use snmpy.Shared.{List, [], ◌++◌, ◌∷◌, ◌≡◌}
use snmpy.Shared.Text.{Text}

abbrev concat : List Text → Text
concat [] = []
concat (line ∷ lines) = line ++ concat lines

-- All lines but the last end with a newline.
abbrev AreLines : List Text → Type 0
AreLines [] = Unit
AreLines (line ∷ []) = Unit
AreLines (line ∷ next ∷ lines) = ((l : Text) × (line ≡ l ++ b'\n' ∷ [])) × AreLines (next ∷ lines)
