-- ===== src/Module/Values/Retained.antt =====
-- What `ValueModule` of lib/snmpy/module/__init__.py keeps across a restart.
use snmpy.Shared.{
  All, Distinct, List, Option, Option-cases, [], arith, if◌then◌else◌, inl, inr, none, ok, refl,
  some, true, ◌∙◌, ◌∷◌, ◌≡◌, ◌≢◌, key_error, raise, subst, ◌++◌, ap,
}
use snmpy.Shared.Text.{Text, text_eq_iff}
use snmpy.Shared.Values.{Value}
use snmpy.Shared.Dicts.{
  Dict, has_key, insert, keys, lookup, lookup-insert, lookup_cons, lookup_nil, values, has_key-keys,
  has_own_keys,
}
use snmpy.Module.Item.{Item}
use snmpy.Module.Values.{
  load_items, saved_items, set_item, SaveFile, ValueModule, dump, load, load_content,
}

-- The value of an item, if there is such an item.
abbrev pub value_of : Option Item → Option Value
value_of none = none
value_of (some item) = some item.value

abbrev pub value_at : Text → Dict Item → Option Value
value_at k items = value_of (lookup k items)

abbrev HasKeys : Dict Item → List Text → Type 0
HasKeys items ks = All (λ k. has_key k items ≡ true) ks

has_key-insert :
    (items : Dict Item) (k j : Text) (item : Item)
    → has_key j items ≡ true
    → has_key j (insert k item items) ≡ true
has_key-insert items k j item h = rw (lookup-insert k j item items) (ground arith)

HasKeys-insert :
    (items : Dict Item) (k : Text) (item : Item) (ks : List Text)
    → HasKeys items ks
    → HasKeys (insert k item items) ks
HasKeys-insert items k item [] h = tt
HasKeys-insert items k item (j ∷ ks) (h, hs) =
    (has_key-insert items k j item h, HasKeys-insert items k item ks hs)

lookup_of_fresh :
    (k : Text) (items : Dict Item) → All (λ j. k ≢ j) (keys items) → lookup k items ≡ none
unfolding lookup
lookup_of_fresh k [] h = refl
lookup_of_fresh k ((j, item) ∷ items) (h, hs) =
    ground (arith, text_eq_iff j k, lookup_of_fresh k items hs)

load_items_lem :
    (items cur : Dict Item)
    → Distinct (keys items)
    → HasKeys cur (keys items)
    → (items' : Dict Item) × (load_items (saved_items items) cur ≡ ok items')
      × ((k : Text)
          → value_at k items' ≡ (if has_key k items then value_at k items else value_at k cur))
unfolding load_items saved_items set_item
load_items_lem [] cur d h = (cur, refl, λ k. rw lookup_nil refl)
load_items_lem ((key, item) ∷ items) cur (new, d) (h, hs) = elim (Option-cases (lookup key cur)) [
  | inl missing ↦ absurd (ground arith)
  | inr (old, found) ↦
      let cur1 = insert key (record old { value = item.value }) cur in
      let (items', loaded, same) =
        load_items_lem items cur1 d (HasKeys-insert cur key _ (keys items) hs) in
      (
        items',
        rw (found, load_items) loaded,
        λ k.
            same k
            ∙ rw (lookup-insert key k _ cur, lookup_cons k key item items)
                (ground (arith, text_eq_iff key k, lookup_of_fresh key items new)),
      )
]

load_items_unknown :
    (before after : List (Text × Value)) (k : Text) (v : Value) (items : Dict Item)
    → lookup k items ≡ none
    → load_items (before ++ (k, v) ∷ after) items ≡ raise key_error
unfolding load_items set_item
load_items_unknown [] after k v items h = rw (h, load_items) refl
load_items_unknown ((j, w) ∷ before) after k v items h = elim (Option-cases (lookup j items)) [
  | inl missing ↦ rw (missing, load_items) refl
  | inr (old, found) ↦
      rw (found, load_items)
        (load_items_unknown before after k v (insert j (record old { value = w }) items)
          (rw (lookup-insert j k _ items) (ground (arith, text_eq_iff j k))))
]

dump_saved :
    (m : ValueModule) (file : SaveFile)
    → m.save ≡ true
    → file.writable ≡ true
    → dump m file ≡ record file { content = ok (saved_items m.items) }
unfolding dump
dump_saved m file s w = ground arith

load_saved :
    (m : ValueModule) (file : SaveFile) → m.save ≡ true → load file m ≡ load_content file.content m
unfolding load
load_saved m file s = ground arith

-- A plugin that retains its state is saved and, after a restart under the same configuration, loaded:
-- every item has the value that it had, and there is no other item.
pub load-dump :
    (m fresh : ValueModule) (file : SaveFile) (k : Text)
    → m.save ≡ true
    → fresh.save ≡ true
    → file.writable ≡ true
    → Distinct (keys m.items)
    → keys fresh.items ≡ keys m.items
    → (m' : ValueModule) × (load (dump m file) fresh ≡ ok m')
      × (value_at k m'.items ≡ value_at k m.items)
unfolding load_content
load-dump m fresh file k s s' w d same =
    let (items', loaded, values) =
      load_items_lem m.items fresh.items d
        (subst (HasKeys fresh.items) same (has_own_keys fresh.items)) in
    (
      record fresh { items = items' },
      load_saved fresh (dump m file) s'
          ∙ ap (λ (f : SaveFile). load_content f.content fresh) (dump_saved m file s w)
          ∙ rw (loaded, load_content) refl,
      values k ∙ ground (arith, has_key-keys k fresh.items m.items same),
    )

-- A saved item that the configuration no longer has makes the plugin fail with a KeyError, which is
-- not caught: only an IOError is.
pub load_unknown_key :
    (m : ValueModule) (file : SaveFile) (before after : List (Text × Value)) (k : Text) (v : Value)
    → m.save ≡ true
    → file.content ≡ ok (before ++ (k, v) ∷ after)
    → lookup k m.items ≡ none
    → load file m ≡ raise key_error
unfolding load_content
load_unknown_key m file before after k v s c h =
    load_saved m file s
    ∙ ap (λ x. load_content x m) c
    ∙ rw (load_items_unknown before after k v m.items h, load_content) refl

-- Setting an item that is there.
pub set_item_found :
    (k : Text) (v : Value) (items : Dict Item) (item : Item)
    → lookup k items ≡ some item
    → set_item k v items ≡ ok (insert k (record item { value = v }) items)
unfolding set_item
set_item_found k v items item found = rw found refl
