-- ===== src/Mib/Create/Made.antt =====
-- When the MIB of lib/snmpy/mibgen.py can be made.
use snmpy.Shared.{
  All, Bool-cases, List, [], inl, inr, none, ok, refl, ◌++◌, ◌∷◌, ◌≡◌, Result, ap, ◌>>=◌, ◌∙◌,
}
use snmpy.Shared.Text.{Text, codes, text_eq}
use snmpy.Shared.Dicts.{Dict, keys}
use snmpy.Module.Item.{Item}
use snmpy.Mibgen.Names.{camel_case}
use snmpy.Server.{Content, Plugin, table_module, value_module}
use snmpy.Mib.{
  class_part, column_part, config_mib, config_mibs, plugin_row, table_parts, type_part, value_part,
  value_parts, value_text,
}
use snmpy.Mib.Create.{MibConf, MibNames, create_mib, make_mib, mib_names}

-- A key that has a camel case.
abbrev pub CanName : Text → Type 0
CanName key = (t : Text) × (camel_case key ≡ ok t)

-- The keys of the items, or of the columns, of a plugin.
abbrev pub keys_of : Content → List Text
keys_of (value_module m) = keys m.items
keys_of (table_module t) = keys t.cols

abbrev pub CanDeclare : Plugin → Type 0
CanDeclare p = CanName p.name × All CanName (keys_of p.content)

-- A value is made, and something of it.
bind_made :
    {X Y : Type 0} (r : Result X) (f : X → Result Y)
    → (x : X) × (r ≡ ok x)
    → ((x : X) → (y : Y) × (f x ≡ ok y))
    → (y : Y) × ((r >>= f) ≡ ok y)
bind_made r f (x, made) h = let (y, next) = h x in (y, ap (λ q. q >>= f) made ∙ next)

value_parts_made :
    (name : Text) (items : Dict Item)
    → All CanName (keys items)
    → (t : Text) × (value_parts name items ≡ ok t)
unfolding value_parts value_part
value_parts_made name [] h = ([], refl)
value_parts_made name ((key, item) ∷ items) ((t, named), h) =
    let (ts, rest) = value_parts_made name items h in
    (value_text name t item ++ ts, rw (named, rest) refl)

table_parts_made :
    (name : Text) (cols : Dict Item)
    → All CanName (keys cols)
    → (t : List Text × Text) × (table_parts name cols ≡ ok t)
unfolding table_parts type_part column_part
table_parts_made name [] h = (([], []), refl)
table_parts_made name ((key, col) ∷ cols) (named, h) =
    bind_made (type_part name (key, col)) _ (bind_made (camel_case key) _ named (λ part. (_, refl)))
      (λ type.
        bind_made (column_part name (key, col)) _
          (bind_made (camel_case key) _ named (λ part. (_, refl)))
          (λ part.
            bind_made (table_parts name cols) _ (table_parts_made name cols h) (λ rest. (_, refl))))

class_part_made :
    (name : Text) (c : Content) → All CanName (keys_of c) → (t : Text) × (class_part name c ≡ ok t)
unfolding class_part camel_case
class_part_made name (value_module m) h = value_parts_made name m.items h
class_part_made name (table_module t) h =
    bind_made (table_parts name t.cols) _ (table_parts_made name t.cols h) (λ parts. (_, refl))

config_mib_made : (p : Plugin) → CanDeclare p → (t : Text) × (config_mib p ≡ ok t)
unfolding config_mib
config_mib_made p ((name, named), h) =
    let (part, made) = class_part_made name p.content h in
    (plugin_row name p.index ++ part, rw (named, made) refl)

config_mibs_made : (ps : List Plugin) → All CanDeclare ps → (t : Text) × (config_mibs ps ≡ ok t)
unfolding config_mibs
config_mibs_made [] h = ([], refl)
config_mibs_made (p ∷ ps) (can, h) =
    let (part, made) = config_mib_made p can in
    let (parts, rest) = config_mibs_made ps h in
    elim (Bool-cases (text_eq p.name (codes "snmpy_info"))) [
      | inl skipped ↦ (parts, rw (skipped, rest) refl)
      | inr told ↦ (part ++ parts, rw (told, made, rest) refl)
    ]

mib_names_made : (names : MibNames) × (mib_names ≡ ok names)
unfolding mib_names camel_case
mib_names_made = (_, refl)

make_mib_made :
    (conf : MibConf) (date : Text) (ps : List Plugin)
    → All CanDeclare ps
    → (text : Text) × (make_mib conf date ps ≡ ok text)
unfolding make_mib
make_mib_made conf date ps h =
    bind_made (config_mibs ps) _ (config_mibs_made ps h)
      (λ parts. bind_made mib_names _ mib_names_made (λ names. (_, refl)))

-- If the names of the plugins and the keys of their items and columns all have a camel case, the first
-- call of `create_mib` does not raise.
pub create_mib_made :
    (conf : MibConf) (date : Text) (ps : List Plugin)
    → All CanDeclare ps
    → (text : Text) × ((create_mib none conf date ps).0 ≡ ok text)
unfolding create_mib
create_mib_made conf date ps h =
    let (text, made) = make_mib_made conf date ps h in (text, rw (made, create_mib) refl)
