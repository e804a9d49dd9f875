-- ===== src/Plugins/FileValue/Items.antt =====
-- The loop of `update` of lib/snmpy/module/file_value.py over the items.
use snmpy.Shared.{
  Distinct, List, Result, [], ap, continue_same, ok, refl, some, ℕ, ◌∙◌, ◌∷◌, ◌≡◌, key_error,
  or_raise, ◌>>=◌,
}
use snmpy.Shared.Text.{Text}
use snmpy.Shared.Dicts.{Dict, insert, keys, lookup}
use snmpy.Shared.Values.{Value}
use snmpy.Module.Item.{Item}
use snmpy.Module.Item.Each.{each, each-updated, updated, with_value}
use snmpy.Plugins.FileValue.{
  FileConf, FileStat, Gathered, file_update, gather_file, set_items, set_told, told_item,
  set_gathered, store,
}
use snmpy.Module.Values.Retained.{set_item_found}
use snmpy.Module.Values.{set_item}

module _ (block : ℕ) (md5 : Text → Text) (findall : Text → Text → List Text) where
  set_told_lem :
      (conf : FileConf) (g : Gathered) (k : Text) (item : Item) (v : Value) (items : Dict Item)
      → lookup k items ≡ some item
      → told_item block md5 findall conf g k item ≡ ok v
      → set_told block md5 findall conf g k items ≡ (ok tt, insert k (with_value v item) items)
  unfolding set_told store
  set_told_lem conf g k item v items found told =
      let set : Result (Dict Item) = ok (insert k (with_value v item) items) in
      ap (λ r. store r items) {y = set}
        (ap
            (λ o.
              or_raise key_error o
              >>= (λ i. told_item block md5 findall conf g k i >>= (λ w. set_item k w items)))
            found
          ∙ ap (λ r. r >>= (λ w. set_item k w items)) told
          ∙ set_item_found k v items item found)

  set_items-each :
      (conf : FileConf) (g : Gathered) (ks : List Text) (items : Dict Item)
      → set_items block md5 findall conf g ks items
        ≡ each (set_told block md5 findall conf g) ks items
  unfolding set_items
  set_items-each conf g [] items = refl
  set_items-each conf g (k ∷ ks) items =
      continue_same (set_told block md5 findall conf g k items) (set_items-each conf g ks)

  pub file_update-updated :
      (conf : FileConf) (lstat : Result FileStat) (content : Result Text) (g : Gathered)
      (items items' : Dict Item)
      → Distinct (keys items)
      → gather_file block md5 findall conf lstat content ≡ ok g
      → updated (told_item block md5 findall conf g) items ≡ ok items'
      → file_update block md5 findall conf lstat content items ≡ (ok tt, items')
  unfolding file_update set_gathered
  file_update-updated conf lstat content g items items' d gathered told =
      ap (λ r. set_gathered block md5 findall conf r items) gathered
      ∙ set_items-each conf g (keys items) items
      ∙ each-updated (set_told block md5 findall conf g) (told_item block md5 findall conf g)
          (set_told_lem conf g) items items' d told
