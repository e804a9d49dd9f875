-- ===== src/Module/Item/Named.antt =====
-- The names that `ModuleItem`s are registered under (lib/snmpy/module/__init__.py).
use snmpy.Shared.{
  All, Bool-cases, List, [], inl, inr, ok, ok-injective, ok_of_bind, subst, sym, ℕ, ◌+◌, ◌∷◌, ◌≡◌,
  Distinct, ap, arith, length, map, none, suc, zero, ◌++◌, ◌∙◌, append-nil, append_assoc, key_error,
  map-append, or_raise, ◌>>=◌, ◌≢◌,
}
use snmpy.Shared.Text.{Text, text_eq, text_eq_iff}
use snmpy.Shared.Dicts.{
  Dict, insert, keys, lookup, insert_new, keys-append, lookup-insert, lookup_nil,
}
use snmpy.Mibgen.Names.{get_oidstr}
use snmpy.Module.Item.{Item, ItemConf, make_item, make_items, text_or}
use snmpy.Shared.Values.{null}
use snmpy.Mibgen.Syntax.{get_syntax}

-- What `make_item` puts into an item, by the key of the item.
abbrev pub IsNamed : Text → Text × Item → Type 0
IsNamed name entry = get_oidstr (name ∷ entry.0 ∷ []) ≡ ok entry.1.oidstr

insert-All :
    (P : Text × Item → Type 0) (k : Text) (item : Item) (d : Dict Item)
    → P (k, item)
    → All P d
    → All P (insert k item d)
unfolding insert
insert-All P k item [] p h = (p, tt)
insert-All P k item ((j, old) ∷ d) p (q, h) = elim (Bool-cases (text_eq j k)) [
  | inl same ↦ rw same (subst (λ (t : Text). P (t, item)) (sym ((text_eq_iff j k).0 same)) p, h)
  | inr differ ↦ rw differ (q, insert-All P k item d p h)
]

-- The item that is made once its name and its type are known.
abbrev item_made : ℕ → ItemConf → Text → Text → Item
item_made oid cfg s k = record {
  oidnum = oid + 1;
  oidstr = s;
  syntax = get_syntax k;
  regex = cfg.regex;
  cdef = cfg.cdef;
  join = text_or [] cfg.join;
  value = null;
}

make_item_lem :
    (name : Text) (oid : ℕ) (obj : Text) (cfg : ItemConf) (item : Item)
    → make_item name oid obj cfg ≡ ok item
    → IsNamed name (obj, item) × (item.oidnum ≡ oid + 1)
unfolding make_item
make_item_lem name oid obj cfg item h =
    let (s, named, h') =
      ok_of_bind (get_oidstr (name ∷ obj ∷ []))
        (λ s. or_raise key_error cfg.type >>= (λ k. ok (item_made oid cfg s k))) h in
    let (k, typed, h'') =
      ok_of_bind (or_raise key_error cfg.type) (λ k. ok (item_made oid cfg s k)) h' in
    let made = ok-injective h'' in
    (named ∙ ap (λ (i : Item). ok i.oidstr) made, sym (ap (λ (i : Item). i.oidnum) made))

-- Every item is named for its key.
pub make_items-IsNamed :
    (name : Text) (oid : ℕ) (confs : List (Text × ItemConf)) (old items : Dict Item)
    → All (IsNamed name) old
    → make_items name oid confs old ≡ ok items
    → All (IsNamed name) items
unfolding make_items make_item
make_items-IsNamed name oid [] old items h e = subst (All (IsNamed name)) (ok-injective e) h
make_items-IsNamed name oid ((obj, cfg) ∷ confs) old items h e =
    let (item, made, e') =
      ok_of_bind (make_item name oid obj cfg)
        (λ item. make_items name (oid + 1) confs (insert obj item old)) e in
    make_items-IsNamed name (oid + 1) confs (insert obj item old) items
      (insert-All (IsNamed name) obj item old (make_item_lem name oid obj cfg item made).0 h) e'

abbrev pub numbers : Dict Item → List ℕ
numbers = map (λ e. e.1.oidnum)

-- From `n` on, `k` numbers.
abbrev pub count_from : ℕ → ℕ → List ℕ
count_from n zero = []
count_from n (suc k) = n ∷ count_from (n + 1) k

still_new :
    (k : Text) (item : Item) (old : Dict Item) (confs : List (Text × ItemConf))
    → All (λ c. lookup c.0 old ≡ none) confs
    → All (λ j. k ≢ j) (map (λ (c : Text × ItemConf). c.0) confs)
    → All (λ c. lookup c.0 (insert k item old) ≡ none) confs
still_new k item old [] h d = tt
still_new k item old ((j, cfg) ∷ confs) (new, h) (differ, d) = (
  rw (lookup-insert k j item old) (ground (arith, text_eq_iff k j)),
  still_new k item old confs h d,
)

make_items-appended :
    (name : Text) (oid : ℕ) (confs : List (Text × ItemConf)) (old items : Dict Item)
    → All (λ c. lookup c.0 old ≡ none) confs
    → Distinct (map (λ (c : Text × ItemConf). c.0) confs)
    → make_items name oid confs old ≡ ok items
    → (keys items ≡ keys old ++ map (λ (c : Text × ItemConf). c.0) confs)
      × (numbers items ≡ numbers old ++ count_from (oid + 1) (length confs))
unfolding make_items
make_items-appended name oid [] old items h d e =
    let same = sym (ok-injective e) in
    (ap keys same ∙ sym (append-nil (keys old)), ap numbers same ∙ sym (append-nil (numbers old)))
make_items-appended name oid ((obj, cfg) ∷ confs) old items (new, h) (differ, d) e =
    let (item, made, e') =
      ok_of_bind (make_item name oid obj cfg)
        (λ item. make_items name (oid + 1) confs (insert obj item old)) e in
    let (ks, ns) =
      make_items-appended name (oid + 1) confs (insert obj item old) items
        (still_new obj item old confs h differ) d e' in
    let at_end = insert_new obj item old new in
    let (_, num) = make_item_lem name oid obj cfg item made in
    (
      ks ∙ rw (at_end, keys-append old obj item) (append_assoc (keys old) (obj ∷ []) _),
      ns ∙ rw at_end (simp (map-append, append_assoc, num)),
    )

nothing_held : (confs : List (Text × ItemConf)) → All (λ c. lookup {V = Item} c.0 [] ≡ none) confs
nothing_held [] = tt
nothing_held (c ∷ confs) = (lookup_nil c.0, nothing_held confs)

-- Items with distinct names are kept under these in their order, and numbered from 1.
pub make_items-numbered :
    (name : Text) (confs : List (Text × ItemConf)) (items : Dict Item)
    → Distinct (map (λ (c : Text × ItemConf). c.0) confs)
    → make_items name 0 confs [] ≡ ok items
    → (keys items ≡ map (λ (c : Text × ItemConf). c.0) confs)
      × (numbers items ≡ count_from 1 (length confs))
make_items-numbered name confs items d e =
    make_items-appended name 0 confs [] items (nothing_held confs) d e
