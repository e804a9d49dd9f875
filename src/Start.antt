-- ===== src/Start.antt =====
-- The program `snmpy`: `parse_conf`, as far as it gathers the plugins' configurations, and `initialize`.
-- Parameters are what YAML makes of a file and what becomes of creating a plugin; the arguments of the
-- command line, the log and the change to the background are left out.
pub mod Numbered
pub mod Ordered
mod Tests
use snmpy.Shared.{
  Bool, Exc, List, Option, Result, [], drop, false, if◌then◌else◌, key_error, length, ltb, none,
  not, ok, or_raise, raise, some, take, true, value_error, ◌&&◌, ◌++◌, ◌+◌, ◌>>=◌, ◌||◌, ◌∷◌,
  type_error,
}
use snmpy.Shared.Text.{Text, codes, find, text_eq}
use snmpy.Shared.Int.{ltb_ℤ, pos, ℤ, eq_ℤ}
use snmpy.Shared.Numbers.{parse_int}
use snmpy.Shared.Dicts.{Dict, has_key, insert, lookup, update_with}
use snmpy.Shared.Sorting.{sorted_items}

-- A value of a configuration; of other values, whether they are true.
pub data Setting : Type 0 where
  text : Text → Setting
  number : ℤ → Setting
  flag : Bool → Setting
  pairs : Dict Text → Setting
  other : Bool → Setting

abbrev pub PluginConf : Type 0
PluginConf = Dict Setting

-- `conf`: the global settings and the plugins by their names.
abbrev pub Conf : Type 0
Conf = Dict PluginConf

abbrev pub global : Text
global = codes "snmpy_global"

-- yaml.load(open(item)): a mapping, nothing, an error that parser.error reports, or what `update`
-- does not take.
pub data Loaded : Type 0 where
  mapping : PluginConf → Loaded
  nothing : Loaded
  broken : Loaded
  unsuited : Exc → Loaded

-- A file of the plugin directory: its name without directory and extension, and its content.
pub record ConfFile : Type 0 where
  pub stem : Text
  pub loaded : Loaded

-- The two parts of stem.split('_', 1), which are unpacked.
split_stem : Text → Result (Text × Text)
split_stem stem = elim (find b'_' stem) [
  | none ↦ raise value_error
  | some i ↦ ok (take i stem, drop (i + 1) stem)
]

-- The list of the other plugins' indexes.
index_of : Text → PluginConf → Result (List Setting) → Result (List Setting)
index_of k v rest =
    if text_eq k global
    then rest
    else (do i ← or_raise key_error (lookup (codes "snmpy_index") v); is ← rest; ok (i ∷ is))

unfoldable pub indexes : Conf → Result (List Setting)
unfolding index_of
indexes [] = ok []
indexes ((k, v) ∷ conf) = index_of k v (indexes conf)

-- int(indx) == v: True is 1, and False 0.
same_index : ℤ → Setting → Bool
same_index z (number y) = eq_ℤ z y
same_index z (flag true) = eq_ℤ z (pos 1)
same_index z (flag false) = eq_ℤ z (pos 0)
same_index z _ = false

is_taken : ℤ → List Setting → Bool
unfolding same_index
is_taken z [] = false
is_taken z (i ∷ is) = same_index z i || is_taken z is

-- conf[name] = {...}
abbrev pub new_entry : Text → ℤ → Dict Text → PluginConf
new_entry name z extra =
    (codes "name", text name)
    ∷ (codes "time", number (pos 0))
    ∷ (codes "save", flag false)
    ∷ (codes "snmpy_index", number z)
    ∷ (codes "snmpy_extra", pairs extra)
    ∷ []

is_true : Setting → Bool
is_true (text s) = ltb 0 (length s)
is_true (number z) = not (eq_ℤ z (pos 0))
is_true (flag b) = b
is_true (pairs d) = ltb 0 (length d)
is_true (other b) = b

-- conf[name].get('retain', False)
wants_retain : Option Setting → Bool
unfolding is_true
wants_retain none = false
wants_retain (some v) = is_true v

module _ (persist : Option Text) (extra : Dict Text) where
  -- With the directory of `persist_dir`, if there is one.
  retain : Text → PluginConf → PluginConf
  unfolding wants_retain is_true
  retain name e = elim persist [
    | none ↦ e
    | some dir ↦
        if ltb 0 (length dir) && wants_retain (lookup (codes "retain") e)
        then insert (codes "save") (text (dir ++ b'/' ∷ name ++ codes ".dat")) e
        else e
  ]

  -- conf[name].update(...); `none` is the end of the program by parser.error.
  fill : Text → Loaded → PluginConf → Conf → Result (Option Conf)
  unfolding retain
  fill name (mapping d) e conf = ok (some (insert name (retain name (update_with d e)) conf))
  fill name nothing e conf = ok (some (insert name (retain name e) conf))
  fill name broken e conf = ok none
  fill name (unsuited x) e conf = raise x

  -- What is done for a file once its name is split, and its index read.
  check_index : Text → ℤ → Loaded → Conf → Result (Option Conf)
  unfolding fill is_taken
  check_index name z loaded conf = do
    is ← indexes conf
    if is_taken z is then raise value_error else fill name loaded (new_entry name z extra) conf

  check_file : Text → Text → Loaded → Conf → Result (Option Conf)
  unfolding check_index
  check_file indx name loaded conf = if has_key name conf then raise value_error else (do
    z ← parse_int indx
    if ltb_ℤ z (pos 1) then raise value_error else check_index name z loaded conf)

  pub add_file : ConfFile → Conf → Result (Option Conf)
  unfolding split_stem check_file
  add_file file conf = do parts ← split_stem file.stem; check_file parts.0 parts.1 file.loaded conf

  next_file : (Conf → Result (Option Conf)) → Result (Option Conf) → Result (Option Conf)
  next_file f (ok (some conf)) = f conf
  next_file f (ok none) = ok none
  next_file f (raise e) = raise e

  -- The loop of parse_conf over the files, in the order in which `glob` has them.
  unfoldable pub add_files : List ConfFile → Conf → Result (Option Conf)
  unfolding add_file next_file
  add_files [] conf = ok (some conf)
  add_files (file ∷ files) conf = next_file (add_files files) (add_file file conf)

-- The plugins' names and configurations in the order in which they are made.
unfoldable pub plugins_of : Conf → Conf
plugins_of [] = []
plugins_of ((k, v) ∷ conf) =
    let rest = plugins_of conf in if text_eq k global then rest else (k, v) ∷ rest

module _ {M : Type 0} (create : Text → Text → PluginConf → Result M) where
  -- `conf[name]['module']`; what is no text fails at `'/' in item` or at the import. Then the import and
  -- the call of the class, as `create name item conf`.
  module_of : Setting → Result Text
  module_of (text item) = ok item
  module_of _ = raise type_error

  unfoldable pub create_plugin : Text → PluginConf → Result M
  unfolding module_of
  create_plugin name e = do
    setting ← or_raise key_error (lookup (codes "module") e)
    item ← module_of setting
    create name item e

  create_all : Conf → Dict M → Result (Dict M)
  unfolding create_plugin
  create_all [] plugins = ok plugins
  create_all ((name, e) ∷ conf) plugins = do
    m ← create_plugin name e
    create_all conf (insert name m plugins)

  -- initialize(conf): the plugins by their names; an exception ends the process in log_fatal.
  unfoldable pub initialize : Conf → Result (Dict M)
  unfolding plugins_of create_all
  initialize conf = create_all (plugins_of (sorted_items conf)) []
