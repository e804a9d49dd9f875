-- ===== src/Module/Item.antt =====
-- `ModuleItem` of lib/snmpy/module/__init__.py, and the configuration it is made of.
pub mod Named
pub mod Each
use snmpy.Shared.{List, Option, Result, [], key_error, none, ok, or_raise, some, ℕ, ◌+◌, ◌>>=◌, ◌∷◌}
use snmpy.Shared.Text.{Text}
use snmpy.Shared.Values.{Value, null}
use snmpy.Shared.Dicts.{Dict, insert}
use snmpy.Mibgen.Names.{get_oidstr}
use snmpy.Mibgen.Syntax.{Syntax, get_syntax}

-- The attributes of an item in a plugin's configuration, each of which may be absent.
pub record ItemConf : Type 0 where
  pub type : Option Text
  pub regex : Option Text
  pub cdef : Option Text
  pub join : Option Text

-- `regex` may be no attribute of the object; ValueModule gives `cdef` and `join` their defaults.
pub record Item : Type 0 where
  pub oidnum : ℕ
  pub oidstr : Text
  pub syntax : Syntax
  pub regex : Option Text
  pub cdef : Option Text
  pub join : Text
  pub value : Value

abbrev pub text_or : Text → Option Text → Text
text_or d none = d
text_or d (some s) = s

-- One round of the loops of the two `__init__` methods: the item numbered `oid` of plugin `name`.
unfoldable pub make_item : Text → ℕ → Text → ItemConf → Result Item
make_item name oid obj cfg = do
  oidstr ← get_oidstr (name ∷ obj ∷ [])
  type ← or_raise key_error cfg.type
  ok (record {
    oidnum = oid + 1;
    oidstr = oidstr;
    syntax = get_syntax type;
    regex = cfg.regex;
    cdef = cfg.cdef;
    join = text_or [] cfg.join;
    value = null;
  })

-- `for oid in range(len(confs))`: a name that comes again takes over the place of the first.
unfoldable pub make_items : Text → ℕ → List (Text × ItemConf) → Dict Item → Result (Dict Item)
make_items name oid [] items = ok items
make_items name oid ((obj, cfg) ∷ confs) items = do
  item ← make_item name oid obj cfg
  make_items name (oid + 1) confs (insert obj item items)
