-- ===== src/Plugins/FileValue.antt =====
-- `update` of lib/snmpy/module/file_value.py. The path is a text, with what `lstat` answers for it and
-- what stands in the file, and what Python's `re` finds is a parameter.
pub mod Items
pub mod Told
mod Tests
use snmpy.Shared.{
  Bool, List, Option, Proc, Result, [], false, if◌then◌else◌, key_error, none, not, ok, or_raise,
  raise, some, true, ℕ, ◌%◌, ◌&&◌, ◌+◌, ◌/◌, ◌==◌, ◌>>=◌, ◌>>◌, ◌∷◌,
}
use snmpy.Shared.Text.{Text, codes, text_eq, one_of}
use snmpy.Shared.Int.{pos, ℤ}
use snmpy.Shared.Values.{Value, int, null, str}
use snmpy.Shared.Dicts.{Dict, keys, lookup}
use snmpy.Module.Item.{Item}
use snmpy.Module.Values.{set_item}
use snmpy.Parser.{parse_value}
use snmpy.Plugins.FileHash.{HashConf, md5sum, span_of}

-- The fields of `os.lstat` that the items show, with times in whole seconds.
pub record FileStat : Type 0 where
  pub st_mode : ℕ
  pub st_atime : ℤ
  pub st_mtime : ℤ
  pub st_ctime : ℤ
  pub st_nlink : ℕ
  pub st_size : ℕ
  pub st_ino : ℕ
  pub st_uid : ℕ
  pub st_gid : ℕ

-- kind[stat.S_IFMT(mode)]
pub file_kind : ℕ → Result Text
file_kind mode =
    let fmt = mode / 4096 % 16 in
    if fmt == 4
    then ok (codes "directory")
    else if fmt == 2
    then ok (codes "character device")
    else if fmt == 6
    then ok (codes "block device")
    else if fmt == 8
    then ok (codes "regular file")
    else if fmt == 1
    then ok (codes "named pipe")
    else if fmt == 10
    then ok (codes "symbolic link")
    else if fmt == 12
    then ok (codes "socket")
    else raise key_error

-- '%04o' % stat.S_IMODE(mode)
pub mode_text : ℕ → Text
mode_text mode =
    (48 + mode / 512 % 8) ∷ (48 + mode / 64 % 8) ∷ (48 + mode / 8 % 8) ∷ (48 + mode % 8) ∷ []

-- The items that `use_stat` adds, each with its function, given the file's name. One of them is passed
-- its own field if there is such a field, else `st_mode`.
pub stat_items : Text → Dict (FileStat → Result Value)
unfolding file_kind mode_text
stat_items name =
    (codes "file_name", λ x. ok (str name))
    ∷ (codes "file_type", λ x. do kind ← file_kind x.st_mode; ok (str kind))
    ∷ (codes "file_mode", λ x. ok (str (mode_text x.st_mode)))
    ∷ (codes "file_atime", λ x. ok (int x.st_atime))
    ∷ (codes "file_mtime", λ x. ok (int x.st_mtime))
    ∷ (codes "file_ctime", λ x. ok (int x.st_ctime))
    ∷ (codes "file_nlink", λ x. ok (int (pos x.st_nlink)))
    ∷ (codes "file_size", λ x. ok (int (pos x.st_size)))
    ∷ (codes "file_ino", λ x. ok (int (pos x.st_ino)))
    ∷ (codes "file_uid", λ x. ok (int (pos x.st_uid)))
    ∷ (codes "file_gid", λ x. ok (int (pos x.st_gid)))
    ∷ []

-- conf['object'], conf['use_stat'], conf['use_text'], conf['use_hash'], and the names of the items of
-- the configuration itself, which take the place of those that `use_stat` adds.
pub record FileConf : Type 0 where
  pub object : Text
  pub use_stat : Bool
  pub use_text : Bool
  pub use_hash : Option HashConf
  pub own : List Text

-- self[item].func, if there is one
pub func_of : FileConf → Text → Option (FileStat → Result Value)
unfolding stat_items
func_of conf key =
    if conf.use_stat && not (one_of key conf.own) then lookup key (stat_items conf.object) else none

-- What was gathered before the loop: `text` is empty if there is none.
pub record Gathered : Type 0 where
  pub info : FileStat
  pub text : Text
  pub part : Value
  pub hash : Value

read_text : Bool → Result Text → Result Text
read_text false content = ok []
read_text true content = content

hash_values : Option (Result (Text × Text)) → Result (Value × Value)
hash_values none = ok (null, null)
hash_values (some r) = do p ← r; ok (str p.0, str p.1)

store : Result (Dict Item) → Proc (Dict Item)
store (raise e) items = (raise e, items)
store (ok items') items = (ok tt, items')

module _ (block : ℕ) (md5 : Text → Text) (findall : Text → Text → List Text) where
  -- The hash of the file, if the configuration wants one; its span is read before the file is opened.
  hash_of : FileConf → FileStat → Result Text → Option (Result (Text × Text))
  hash_of conf info content = elim conf.use_hash [
    | none ↦ none
    | some h ↦
        some (
          span_of h info.st_size >>= (λ span. content >>= (λ c. md5sum block md5 h info.st_size c)))
  ]

  pub gather_file : FileConf → Result FileStat → Result Text → Result Gathered
  unfolding read_text hash_values hash_of
  gather_file conf lstat content = do
    info ← lstat
    text ← read_text conf.use_text content
    hashed ← hash_values (hash_of conf info content)
    ok (record { info = info; text = text; part = hashed.0; hash = hashed.1 })

  parse_text : Text → Item → Result Value
  parse_text [] item = ok item.value
  parse_text (c ∷ s) item = parse_value findall (c ∷ s) item

  -- What an item is set to; one that is not set keeps its value.
  pub told_item : FileConf → Gathered → Text → Item → Result Value
  unfolding func_of parse_text
  told_item conf g key item = elim (func_of conf key) [
    | some f ↦ f g.info
    | none ↦
        if text_eq key (codes "file_md5")
        then ok g.hash
        else if text_eq key (codes "md5_span")
        then ok g.part
        else parse_text g.text item
  ]

  -- The body of the loop.
  set_told : FileConf → Gathered → Text → Proc (Dict Item)
  unfolding told_item store
  set_told conf g key items =
      store
        (or_raise key_error (lookup key items)
          >>= (λ item. told_item conf g key item >>= (λ v. set_item key v items)))
        items

  pub set_items : FileConf → Gathered → List Text → Proc (Dict Item)
  unfolding set_told
  set_items conf g [] items = (ok tt, items)
  set_items conf g (key ∷ ks) items = (set_told conf g key >> set_items conf g ks) items

  set_gathered : FileConf → Result Gathered → Proc (Dict Item)
  unfolding set_items
  set_gathered conf (raise e) items = (raise e, items)
  set_gathered conf (ok g) items = set_items conf g (keys items) items

  pub file_update : FileConf → Result FileStat → Result Text → Proc (Dict Item)
  unfolding gather_file set_gathered
  file_update conf lstat content items = set_gathered conf (gather_file conf lstat content) items
