-- ===== src/Plugins/FileValue/Told.antt =====
-- What `update` of lib/snmpy/module/file_value.py leaves in the items.
use snmpy.Shared.{
  Result, All, Bool, Bool-cases, Distinct, List, Option, [], ap, arith, false, inl, inr, length,
  none, not, ok, refl, some, subst, sym, true, ℕ, ◌&&◌, ◌<◌, ◌∙◌, ◌∷◌, ◌≡◌, ◌≢◌, ◌⊎◌,
}
use snmpy.Shared.Text.{Text, codes, one_of, text_eq, text_eq_iff}
use snmpy.Shared.Dicts.{Dict, keys, lookup}
use snmpy.Shared.Values.{Value, int, null, str}
use snmpy.Module.Item.{Item}
use snmpy.Module.Item.Each.{updated, with_value}
use snmpy.Plugins.FileValue.{
  FileConf, FileStat, Gathered, file_kind, file_update, func_of, gather_file, hash_of, hash_values,
  mode_text, parse_text, read_text, stat_items, told_item,
}
use snmpy.Shared.Int.{pos}
use snmpy.Plugins.FileHash.{HashConf, md5sum}
use snmpy.Parser.{parse_value}
use snmpy.Plugins.FileHash.Span.{md5sum-span_of}
use snmpy.Plugins.FileValue.Items.{file_update-updated}

-- What `lstat` tells for the names that `use_stat` adds.
pub data IsStat (object : Text) (info : FileStat) : Text → Value → Type 0 where
  stat_name : IsStat object info (codes "file_name") (str object)
  stat_type :
      (kind : Text)
      → file_kind info.st_mode ≡ ok kind
      → IsStat object info (codes "file_type") (str kind)
  stat_mode : IsStat object info (codes "file_mode") (str (mode_text info.st_mode))
  stat_atime : IsStat object info (codes "file_atime") (int info.st_atime)
  stat_mtime : IsStat object info (codes "file_mtime") (int info.st_mtime)
  stat_ctime : IsStat object info (codes "file_ctime") (int info.st_ctime)
  stat_nlink : IsStat object info (codes "file_nlink") (int (pos info.st_nlink))
  stat_size : IsStat object info (codes "file_size") (int (pos info.st_size))
  stat_ino : IsStat object info (codes "file_ino") (int (pos info.st_ino))
  stat_uid : IsStat object info (codes "file_uid") (int (pos info.st_uid))
  stat_gid : IsStat object info (codes "file_gid") (int (pos info.st_gid))

abbrev pub stat_names : List Text
stat_names =
    codes "file_name"
    ∷ codes "file_type"
    ∷ codes "file_mode"
    ∷ codes "file_atime"
    ∷ codes "file_mtime"
    ∷ codes "file_ctime"
    ∷ codes "file_nlink"
    ∷ codes "file_size"
    ∷ codes "file_ino"
    ∷ codes "file_uid"
    ∷ codes "file_gid"
    ∷ []

-- The status says nothing for a name: it is not asked for, the name is one of the configuration's own,
-- or it is none of those added.
abbrev pub HasNoStat : FileConf → Text → Type 0
HasNoStat conf key =
    (conf.use_stat ≡ false) ⊎ (one_of key conf.own ≡ true) ⊎ All (λ name. name ≢ key) stat_names

-- The text, as the configuration wants it.
abbrev pub IsText : Bool → Result Text → Text → Type 0
IsText false content text = text ≡ []
IsText true content text = content ≡ ok text

module _ (block : ℕ) (md5 : Text → Text) where
  -- The span and the hash, as the configuration wants them.
  abbrev pub IsHashed : Option HashConf → ℕ → Result Text → Value → Value → Type 0
  IsHashed none size content part hash = (part ≡ null) × (hash ≡ null)
  IsHashed (some h) size content part hash =
      (c span sum : Text) × (content ≡ ok c)
      × (md5sum block md5 h size c ≡ ok (span, sum))
      × (part ≡ str span)
      × (hash ≡ str sum)

-- What an item has after the update: what the status says for it; for `file_md5` the hash, for `md5_span`
-- the span; for another name what is parsed from the text, or, without a text, what the item had.
pub data Tells (findall : Text → Text → List Text) (conf : FileConf) (g : Gathered) (key : Text)
    (item : Item) : Value → Type 0 where
  by_stat :
      (v : Value)
      → conf.use_stat ≡ true
      → one_of key conf.own ≡ false
      → IsStat conf.object g.info key v
      → Tells findall conf g key item v
  by_hash : HasNoStat conf key → key ≡ codes "file_md5" → Tells findall conf g key item g.hash
  by_span : HasNoStat conf key → key ≡ codes "md5_span" → Tells findall conf g key item g.part
  by_text :
      (v : Value)
      → HasNoStat conf key
      → key ≢ codes "file_md5"
      → key ≢ codes "md5_span"
      → 0 < length g.text
      → parse_value findall g.text item ≡ ok v
      → Tells findall conf g key item v
  kept :
      HasNoStat conf key
      → key ≢ codes "file_md5"
      → key ≢ codes "md5_span"
      → g.text ≡ []
      → Tells findall conf g key item item.value

-- Each item has a value that is told for it, and is the same otherwise.
abbrev pub AreTold :
    (Text → Text → List Text) → FileConf → Gathered → Dict Item → Dict Item → Type 0
AreTold findall conf g [] [] = Unit
AreTold findall conf g ((k, item) ∷ items) ((k', item') ∷ items') =
    (k' ≡ k)
    × (v : Value) × Tells findall conf g k item v
    × (item' ≡ with_value v item)
    × AreTold findall conf g items items'
AreTold findall conf g _ _ = ⊥

IsStat-lookup :
    (object : Text) (info : FileStat) (key : Text) (v : Value)
    → IsStat object info key v
    → (f : FileStat → Result Value) × (lookup key (stat_items object) ≡ some f) × (f info ≡ ok v)
unfolding stat_items lookup text_eq
IsStat-lookup object info key v stat_name = (_, refl, refl)
IsStat-lookup object info key v (stat_type kind h) = (_, refl, rw h refl)
IsStat-lookup object info key v stat_mode = (_, refl, refl)
IsStat-lookup object info key v stat_atime = (_, refl, refl)
IsStat-lookup object info key v stat_mtime = (_, refl, refl)
IsStat-lookup object info key v stat_ctime = (_, refl, refl)
IsStat-lookup object info key v stat_nlink = (_, refl, refl)
IsStat-lookup object info key v stat_size = (_, refl, refl)
IsStat-lookup object info key v stat_ino = (_, refl, refl)
IsStat-lookup object info key v stat_uid = (_, refl, refl)
IsStat-lookup object info key v stat_gid = (_, refl, refl)

lookup_missing :
    {A : Type 0} (key : Text) (d : Dict A) → All (λ k. k ≢ key) (keys d) → lookup key d ≡ none
unfolding lookup
lookup_missing key [] h = refl
lookup_missing key ((k, a) ∷ d) (ne, h) =
    let differ : text_eq k key ≡ false = ground (arith, text_eq_iff k key) in
    rw differ (lookup_missing key d h)

keys-stat_items : (object : Text) → keys (stat_items object) ≡ stat_names
unfolding stat_items
keys-stat_items object = refl

func_of-none : (conf : FileConf) (key : Text) → HasNoStat conf key → func_of conf key ≡ none
unfolding func_of
func_of-none conf key h = elim h [
  | inl off ↦ rw off refl
  | inr (inl own) ↦ elim (Bool-cases conf.use_stat) [
    | inl on ↦ rw (on, own) refl
    | inr off ↦ rw off refl
  ]
  | inr (inr missing) ↦
      let absent =
        lookup_missing key (stat_items conf.object)
          (subst (All (λ k. k ≢ key)) (sym (keys-stat_items conf.object)) missing) in
      elim (Bool-cases (conf.use_stat && not (one_of key conf.own))) [
        | inl on ↦ rw on absent
        | inr off ↦ rw off refl
      ]
]

differs : (s t : Text) → s ≢ t → text_eq s t ≡ false
differs s t h = ground (arith, text_eq_iff s t)

module _ (block : ℕ) (md5 : Text → Text) (findall : Text → Text → List Text) where
  told_plain :
      (conf : FileConf) (g : Gathered) (key : Text) (item : Item)
      → HasNoStat conf key
      → key ≢ codes "file_md5"
      → key ≢ codes "md5_span"
      → told_item block md5 findall conf g key item ≡ parse_text block md5 findall g.text item
  unfolding told_item
  told_plain conf g key item h a b =
      rw (func_of-none conf key h, told_item, differs key _ a, differs key _ b) refl

  parsed :
      (text : Text) (item : Item)
      → 0 < length text
      → parse_text block md5 findall text item ≡ parse_value findall text item
  unfolding parse_text
  parsed [] item h = absurd (omega arith)
  parsed (c ∷ s) item h = refl

  Tells-told :
      (conf : FileConf) (g : Gathered) (key : Text) (item : Item) (v : Value)
      → Tells findall conf g key item v
      → told_item block md5 findall conf g key item ≡ ok v
  unfolding told_item func_of parse_text
  Tells-told conf g key item v (by_stat w on own stat) =
      let (f, found, told) = IsStat-lookup conf.object g.info key w stat in
      rw (on, own, told_item, func_of, found) told
  Tells-told conf g key item v (by_hash h same) =
      rw (func_of-none conf key h, told_item, (text_eq_iff key (codes "file_md5")).1 same) refl
  Tells-told conf g key item v (by_span h same) =
      let other = differs key (codes "file_md5") (λ e. absurd (ground (arith, sym same ∙ e))) in
      rw (func_of-none conf key h, told_item, other, (text_eq_iff key (codes "md5_span")).1 same)
        refl
  Tells-told conf g key item v (by_text w h a b some_ e) =
      told_plain conf g key item h a b ∙ parsed g.text item some_ ∙ e
  Tells-told conf g key item v (kept h a b empty) =
      told_plain conf g key item h a b ∙ ap (λ t. parse_text block md5 findall t item) empty

  AreTold-updated :
      (conf : FileConf) (g : Gathered) (items items' : Dict Item)
      → AreTold findall conf g items items'
      → updated (told_item block md5 findall conf g) items ≡ ok items'
  AreTold-updated conf g [] [] h = refl
  AreTold-updated conf g ((k, item) ∷ items) ((k', item') ∷ items') (same, v, told, with_, h) =
      rw (Tells-told conf g k item v told, AreTold-updated conf g items items' h, same, with_) refl
  AreTold-updated conf g [] (i ∷ items') h = absurd h
  AreTold-updated conf g (i ∷ items) [] h = absurd h

  text_wanted :
      (b : Bool) (content : Result Text) (text : Text)
      → IsText b content text
      → read_text b content ≡ ok text
  unfolding read_text
  text_wanted false content text h = ap ok (sym h)
  text_wanted true content text h = h

  hash_wanted :
      (conf : FileConf) (o : Option HashConf) (info : FileStat) (content : Result Text)
      (part hash : Value)
      → conf.use_hash ≡ o
      → IsHashed block md5 o info.st_size content part hash
      → hash_values (hash_of block md5 findall conf info content) ≡ ok (part, hash)
  unfolding hash_values hash_of
  hash_wanted conf none info content part hash e (no_part, no_hash) = rw (e, no_part, no_hash) refl
  hash_wanted conf (some h) info content part hash e (c, span, sum, got, summed, is_part, is_hash) =
      let (at, spanned) = md5sum-span_of block md5 h info.st_size c (span, sum) summed in
      rw (e, hash_of, spanned, got, summed, is_part, is_hash) refl

  -- Where the file's status, its text and its hash can be got, as far as the configuration wants them,
  -- and there is a value for each item, of which no two have one name: the update does not raise, sets
  -- each item to that value, and changes nothing else. The value is what the status says, for the names
  -- that `use_stat` adds and that are not the configuration's own; the hash for `file_md5` and the span
  -- for `md5_span`; and for the others what is parsed from the text, or what the item had if there is none.
  pub file_update_lem :
      (conf : FileConf) (content : Result Text) (g : Gathered) (items items' : Dict Item)
      → Distinct (keys items)
      → IsText conf.use_text content g.text
      → IsHashed block md5 conf.use_hash g.info.st_size content g.part g.hash
      → AreTold findall conf g items items'
      → file_update block md5 findall conf (ok g.info) content items ≡ (ok tt, items')
  unfolding gather_file
  file_update_lem conf content g items items' d text hash told =
      file_update-updated block md5 findall conf (ok g.info) content g items items' d
        (rw
          (
            text_wanted conf.use_text content g.text text,
            hash_wanted conf conf.use_hash g.info content g.part g.hash refl hash,
          )
          refl)
        (AreTold-updated conf g items items' told)
