-- ===== src/Mib/Declared.antt =====
-- The object names that a ValueModule's part of the MIB declares (lib/snmpy/mibgen.py), and those that
-- the agent registers.
use snmpy.Shared.{
  [], ap, append_assoc, ok, refl, sym, ◌++◌, ◌∙◌, ◌∷◌, ◌≡◌, ok-injective, All, All-map, List,
  append-nil,
}
use snmpy.Shared.Text.{Text, codes, join}
use snmpy.Mibgen.Names.{camel_case, key_prefix, mib_module}
use snmpy.Mibgen.Names.Joined.{get_oidstr_parts}
use snmpy.Mib.{
  row, value_part, class_part, config_mib, value_parts, value_text, plugin_row, value_rows,
}
use snmpy.Module.Item.{Item, ItemConf, make_items}
use snmpy.Module.Item.Named.{IsNamed, make_items-IsNamed}
use snmpy.Shared.Dicts.{Dict}
use snmpy.Module.Values.{ValueModule}
use snmpy.Server.{Plugin, value_module}

-- The name that an object of the MIB is registered under.
abbrev registered_name : Text → Text
registered_name object = mib_module ++ codes "::" ++ object

-- The text declares the object.
abbrev pub Declares : Text → Text → Type 0
Declares text object =
    (front body : Text) × (text ≡ front ++ (row 16 (object ∷ codes " OBJECT-TYPE" ∷ []) ++ body))

-- The entry of the items is registered as an object that the text declares.
abbrev pub IsDeclared : Text → Text × Item → Type 0
IsDeclared text entry =
    (object : Text) × (entry.1.oidstr ≡ registered_name object) × Declares text object

Declares-behind :
    (front text object : Text) → Declares text object → Declares (front ++ text) object
Declares-behind front text object (s, t, e) =
    (front ++ s, t, ap (λ l. front ++ l) e ∙ sym (append_assoc front s _))

Declares-before : (text rest object : Text) → Declares text object → Declares (text ++ rest) object
Declares-before text rest object (s, t, e) =
    (s, t ++ rest, ap (λ l. l ++ rest) e ∙ simp append_assoc)

name_row :
    (name part : Text)
    → row 16 (key_prefix ∷ name ∷ part ∷ codes " OBJECT-TYPE" ∷ [])
      ≡ row 16 ((key_prefix ++ (name ++ part)) ∷ codes " OBJECT-TYPE" ∷ [])
unfolding row join
name_row name part = simp (append-nil, append_assoc)

value_text-Declares :
    (name part : Text) (item : Item)
    → Declares (value_text name part item) (key_prefix ++ (name ++ part))
unfolding value_text
value_text-Declares name part item =
    ([], value_rows name part item, ap (λ r. r ++ value_rows name part item) (name_row name part))

value_part_lem :
    (p name : Text) (entry : Text × Item)
    → camel_case p ≡ ok name
    → IsNamed p entry
    → (text : Text) × (value_part name entry ≡ ok text) × IsDeclared text entry
unfolding value_part
value_part_lem p name (key, item) big named =
    let (a, b, ha, hb, e) = get_oidstr_parts p key item.oidstr named in
    let same = ok-injective (sym ha ∙ big) in
    (
      value_text name b item,
      rw hb refl,
      (
        key_prefix ++ (name ++ b),
        e ∙ ap (λ t. registered_name (key_prefix ++ (t ++ b))) same,
        value_text-Declares name b item,
      ),
    )

IsDeclared-behind :
    (front text : Text) (entry : Text × Item)
    → IsDeclared text entry
    → IsDeclared (front ++ text) entry
IsDeclared-behind front text entry (object, reg, decl) =
    (object, reg, Declares-behind front text object decl)

IsDeclared-before :
    (text rest : Text) (entry : Text × Item)
    → IsDeclared text entry
    → IsDeclared (text ++ rest) entry
IsDeclared-before text rest entry (object, reg, decl) =
    (object, reg, Declares-before text rest object decl)

value_parts_lem :
    (p name : Text) (items : Dict Item)
    → camel_case p ≡ ok name
    → All (IsNamed p) items
    → (text : Text) × (value_parts name items ≡ ok text) × All (IsDeclared text) items
unfolding value_parts
value_parts_lem p name [] big named = ([], refl, tt)
value_parts_lem p name (entry ∷ items) big (one, named) =
    let (t, made, decl) = value_part_lem p name entry big one in
    let (ts, others, decls) = value_parts_lem p name items big named in
    (
      t ++ ts,
      rw (made, others) refl,
      (
        IsDeclared-before t ts entry decl,
        All-map {P = IsDeclared ts} (IsDeclared-behind t ts) items decls,
      ),
    )

-- Of a ValueModule whose items were made from its configuration, and whose name has a camel case, the
-- MIB is made without an exception, and declares every item under the object name under which the agent
-- registers it.
pub config_mib-declares :
    (p : Plugin) (m : ValueModule) (confs : List (Text × ItemConf)) (name : Text)
    → p.content ≡ value_module m
    → make_items p.name 0 confs [] ≡ ok m.items
    → camel_case p.name ≡ ok name
    → (text : Text) × (config_mib p ≡ ok text) × All (IsDeclared text) m.items
unfolding config_mib class_part
config_mib-declares p m confs name at made big =
    let (t, parts, decls) =
      value_parts_lem p.name name m.items big
        (make_items-IsNamed p.name 0 confs [] m.items tt made) in
    (
      plugin_row name p.index ++ t,
      rw (big, at, parts) refl,
      All-map {P = IsDeclared t} (IsDeclared-behind (plugin_row name p.index) t) m.items decls,
    )
