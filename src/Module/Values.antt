-- ===== src/Module/Values.antt =====
-- `ValueModule` of lib/snmpy/module/__init__.py: items by name, kept across restarts if asked.
pub mod Retained
use snmpy.Shared.{
  Bool, List, Proc, Result, [], if◌then◌else◌, io_error, key_error, ok, or_raise, raise, ◌&&◌,
  ◌>>=◌, ◌∷◌,
}
use snmpy.Shared.Text.{Text}
use snmpy.Shared.Values.{Value}
use snmpy.Shared.Dicts.{Dict, insert, lookup}
use snmpy.Module.Item.{Item, ItemConf, make_items}

-- The file that a plugin's state is kept in: what opening and reading it gives, and whether it can be
-- written. The pickled data is the list of names and values.
pub record SaveFile : Type 0 where
  pub content : Result (List (Text × Value))
  pub writable : Bool

-- A plugin: `conf['save']` is set or not.
pub record ValueModule : Type 0 where
  pub name : Text
  pub save : Bool
  pub items : Dict Item

-- self[obj] = val
pub set_item : Text → Value → Dict Item → Result (Dict Item)
set_item obj val items = do
  item ← or_raise key_error (lookup obj items)
  ok (insert obj (record item { value = val }) items)

-- `for key, val in pickle.load(...): self[key] = val`
pub load_items : List (Text × Value) → Dict Item → Result (Dict Item)
load_items [] items = ok items
load_items ((key, val) ∷ saved) items = do items' ← set_item key val items; load_items saved items'

-- An IOError is logged.
load_content : Result (List (Text × Value)) → ValueModule → Result ValueModule
load_content (raise io_error) m = ok m
load_content (raise e) m = raise e
load_content (ok saved) m = do items ← load_items saved m.items; ok (record m { items = items })

pub load : SaveFile → ValueModule → Result ValueModule
unfolding load_content
load file m = if m.save then load_content file.content m else ok m

-- [(k, self[k].value) for k in self]
pub saved_items : Dict Item → List (Text × Value)
saved_items [] = []
saved_items ((k, item) ∷ items) = (k, item.value) ∷ saved_items items

pub dump : ValueModule → SaveFile → SaveFile
dump m file =
    if m.save && file.writable then record file { content = ok (saved_items m.items) } else file

-- ValueModule(conf), where `confs` are the configuration's items.
pub create : Text → Bool → List (Text × ItemConf) → SaveFile → Result ValueModule
create name save confs file = do
  items ← make_items name 0 confs []
  load file (record { name = name; save = save; items = items })

-- `update` as the metaclass wraps it: `clear` does nothing here, and the state is saved only if the
-- plugin's own `update` does not raise.
pub wrapped_update :
    Proc ValueModule → ValueModule → SaveFile → Result (Unit {0}) × ValueModule × SaveFile
wrapped_update func m file =
    let (r, m') = func m in
    elim r [ ok _ ↦ (ok tt, m', dump m' file) | raise e ↦ (raise e, m', file) ]
