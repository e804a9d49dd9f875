-- ===== src/Server/Commit.antt =====
-- `commit_data` of lib/snmpy/server.py: what the agent serves afterwards.
use snmpy.Shared.{
  length, ok, ◌^◌, ◌≡◌, ◌≢◌, ◌≤◌, Option, false, refl, some, All, List, [], ap, sym, ◌∙◌, ◌∷◌,
}
use snmpy.Shared.Values.{Value, int, null, str}
use snmpy.Shared.Int.{mod_ℤ, pos}
use snmpy.Mibgen.Syntax.{ObjectType, counter64_type, integer32_type, octet_string_type}
use snmpy.Agentx.Asn.{
  Asn, Data, bits, buffer, c_int, c_string, get_value, max_str_len, set_value, signed32, words,
  Watcher,
}
use snmpy.Agentx.Asn.Setting.{get_value-c_int, set_value-buffer, set_value-words}
use snmpy.Shared.Text.{Text, text_eq, text_eq_refl, text_eq_sym}
use snmpy.Shared.Dicts.{lookup, insert, lookup-insert}
use snmpy.Module.Item.{Item}
use snmpy.Agentx.Asn.Laws.{set_value-bits}
use snmpy.Agentx.NetSnmp.{NetSnmp}
use snmpy.Agentx.Agent.{Agent, replace_value, value}
use snmpy.Agentx.Agent.Serving.{replace_value_ok}
use snmpy.Server.{commit_item, commit_items}

-- An object that takes the values of an item: of the item's class, with a buffer of full size.
abbrev pub IsObjectOf : ObjectType → Data → Type 0
IsObjectOf octet_string_type (buffer raw) = length raw ≡ max_str_len
IsObjectOf counter64_type (words _ _) = Unit
IsObjectOf integer32_type (bits _) = Unit
IsObjectOf _ _ = ⊥

-- A value that a plugin of the item's type computes and an object can hold: no value yet, a text of at
-- most 1024 bytes, or an integer.
abbrev pub IsHeld : ObjectType → Value → Type 0
IsHeld k null = Unit
IsHeld octet_string_type (str s) = length s ≤ max_str_len
IsHeld octet_string_type (int z) = ⊥
IsHeld counter64_type (int z) = Unit
IsHeld counter64_type (str s) = ⊥
IsHeld integer32_type (int z) = Unit
IsHeld integer32_type (str s) = ⊥

-- What is read of an object that was given a value: a text up to its first NUL, an integer as far as
-- the class has bits for it, and the old value where there is no new one.
abbrev pub shown : ObjectType → Value → Value → Value
shown k null old = old
shown octet_string_type (str s) old = str (c_string s)
shown counter64_type (int z) old = int (pos (mod_ℤ z (2 ^ 96)))
shown integer32_type (int z) old = int (signed32 (c_int z))
shown _ _ old = old

-- A new value is taken and shown.
pub set_value_held :
    (k : ObjectType) (v : Value) (d : Data) (w : Option Watcher)
    → v ≢ null
    → IsObjectOf k d
    → IsHeld k v
    → (a' : Asn) × (set_value v (record { body = d; watcher = w }) ≡ ok a')
      × IsObjectOf k a'.body
      × (get_value a'.body ≡ shown k v (get_value d))
set_value_held octet_string_type (str s) (buffer raw) w new o h =
    let (raw', w', set, size, content) = set_value-buffer raw s w o h in
    (record { body = buffer raw'; watcher = w' }, set, size, content)
set_value_held counter64_type (int z) (words a b) w new o h =
    let (high, low, w', set, content) = set_value-words z a b w in
    (record { body = words high low; watcher = w' }, set, tt, content)
set_value_held integer32_type (int z) (bits b) w new o h =
    let (w', set) = set_value-bits z b w in
    (record { body = bits (c_int z); watcher = w' }, set, tt, get_value-c_int z)
set_value_held k null d w new o h = absurd (new refl)
set_value_held octet_string_type (int z) d w new o h = absurd h
set_value_held counter64_type (str s) d w new o h = absurd h
set_value_held integer32_type (str s) d w new o h = absurd h
set_value_held octet_string_type (str s) (words _ _) w new o h = absurd o
set_value_held octet_string_type (str s) (bits _) w new o h = absurd o
set_value_held counter64_type (int z) (buffer _) w new o h = absurd o
set_value_held counter64_type (int z) (bits _) w new o h = absurd o
set_value_held integer32_type (int z) (buffer _) w new o h = absurd o
set_value_held integer32_type (int z) (words _ _) w new o h = absurd o

module _ (n : NetSnmp) where
  -- The item is registered, under its name, as an object of its class.
  pub record IsRegistered (a : Agent n) (item : Item) : Type 0 where
    pub body : Data
    pub watcher : Option Watcher
    pub found :
        lookup item.oidstr a.objects ≡ some (value (record { body = body; watcher = watcher }))
    pub of_class : IsObjectOf item.syntax.object_type body

  pub IsRegistered-same :
      (a b : Agent n) (item : Item)
      → IsRegistered a item
      → lookup item.oidstr b.objects ≡ lookup item.oidstr a.objects
      → IsRegistered b item
  IsRegistered-same a b item r same = record {
    body = r.body;
    watcher = r.watcher;
    found = same ∙ r.found;
    of_class = r.of_class;
  }

  -- After a commit the item is registered still, and the agent reads out its value, or what it read
  -- out before where the item has none.
  pub record Shows (a b : Agent n) (item : Item) : Type 0 where
    pub before : Asn
    pub after : Asn
    pub was : lookup item.oidstr a.objects ≡ some (value before)
    pub found : lookup item.oidstr b.objects ≡ some (value after)
    pub shows :
        get_value after.body ≡ shown item.syntax.object_type item.value (get_value before.body)

  replace_value_held :
      (a : Agent n) (item : Item) (v : Value)
      → item.value ≡ v
      → v ≢ null
      → IsRegistered a item
      → IsHeld item.syntax.object_type v
      → (b : Agent n) × (replace_value n item.oidstr v a ≡ (ok tt, b))
        × Shows a b item
        × ((j : Text) → text_eq item.oidstr j ≡ false → lookup j b.objects ≡ lookup j a.objects)
  replace_value_held a item v same new r h =
      let (obj, set, of_class, content) =
        set_value_held item.syntax.object_type v r.body r.watcher new r.of_class h in
      (
        record a { objects = insert item.oidstr (value obj) a.objects },
        replace_value_ok n a item.oidstr v (record { body = r.body; watcher = r.watcher }) obj
            r.found set,
        record {
          before = record { body = r.body; watcher = r.watcher };
          after = obj;
          was = r.found;
          found = rw (lookup-insert, text_eq_refl) refl;
          shows = content ∙ ap (λ u. shown item.syntax.object_type u (get_value r.body)) (sym same);
        },
        λ j ne. rw (lookup-insert, ne) refl,
      )

  unchanged : (a : Agent n) (item : Item) → item.value ≡ null → IsRegistered a item → Shows a a item
  unchanged a item none_yet r = record {
    before = record { body = r.body; watcher = r.watcher };
    after = record { body = r.body; watcher = r.watcher };
    was = r.found;
    found = r.found;
    shows = ap (λ u. shown item.syntax.object_type u (get_value r.body)) (sym none_yet);
  }

  commit_item_lem :
      (a : Agent n) (item : Item) (v : Value)
      → item.value ≡ v
      → IsRegistered a item
      → IsHeld item.syntax.object_type v
      → (b : Agent n) × (commit_item n item a ≡ (ok tt, b))
        × Shows a b item
        × ((j : Text) → text_eq item.oidstr j ≡ false → lookup j b.objects ≡ lookup j a.objects)
  unfolding commit_item
  commit_item_lem a item null same r h =
      (a, rw (same, commit_item) refl, unchanged a item same r, λ j ne. refl)
  commit_item_lem a item (int z) same r h =
      let (b, done, shows, others) = replace_value_held a item (int z) same (cc) r h in
      (b, rw (same, commit_item) done, shows, others)
  commit_item_lem a item (str s) same r h =
      let (b, done, shows, others) = replace_value_held a item (str s) same (cc) r h in
      (b, rw (same, commit_item) done, shows, others)

  -- No two items have one object name.
  abbrev pub HasDistinctNames : List Item → Type 0
  HasDistinctNames [] = Unit
  HasDistinctNames (item ∷ items) =
      All (λ later. text_eq item.oidstr later.oidstr ≡ false) items × HasDistinctNames items

  IsRegistered-later :
      (a b : Agent n) (item : Item) (items : List Item)
      → ((j : Text) → text_eq item.oidstr j ≡ false → lookup j b.objects ≡ lookup j a.objects)
      → All (λ later. text_eq item.oidstr later.oidstr ≡ false) items
      → All (IsRegistered a) items
      → All (IsRegistered b) items
  IsRegistered-later a b item [] same new h = tt
  IsRegistered-later a b item (later ∷ items) same (ne, new) (r, h) = (
    record {
      body = r.body;
      watcher = r.watcher;
      found = same later.oidstr ne ∙ r.found;
      of_class = r.of_class;
    },
    IsRegistered-later a b item items same new h,
  )

  Shows-later :
      (a b c : Agent n) (item : Item) (items : List Item)
      → ((j : Text) → text_eq item.oidstr j ≡ false → lookup j b.objects ≡ lookup j a.objects)
      → All (λ later. text_eq item.oidstr later.oidstr ≡ false) items
      → All (Shows b c) items
      → All (Shows a c) items
  Shows-later a b c item [] same new h = tt
  Shows-later a b c item (later ∷ items) same (ne, new) (s, h) = (
    record {
      before = s.before;
      after = s.after;
      was = sym (same later.oidstr ne) ∙ s.was;
      found = s.found;
      shows = s.shows;
    },
    Shows-later a b c item items same new h,
  )

  pub names_differ :
      (item : Item) (items : List Item)
      → All (λ later. text_eq item.oidstr later.oidstr ≡ false) items
      → All (λ later. text_eq later.oidstr item.oidstr ≡ false) items
  names_differ item [] h = tt
  names_differ item (later ∷ items) (ne, h) =
      (text_eq_sym later.oidstr item.oidstr ∙ ne, names_differ item items h)

  -- The items of a plugin have distinct names, are registered as objects of their classes, and have
  -- values that those can hold. Then committing them does not raise; the agent reads out every value,
  -- or what it read out before for an item without one; and no other object changes.
  pub commit_items_lem :
      (items : List Item) (a : Agent n)
      → HasDistinctNames items
      → All (IsRegistered a) items
      → All (λ item. IsHeld item.syntax.object_type item.value) items
      → (b : Agent n) × (commit_items n items a ≡ (ok tt, b))
        × All (Shows a b) items
        × ((j : Text)
            → All (λ item. text_eq item.oidstr j ≡ false) items
            → lookup j b.objects ≡ lookup j a.objects)
  unfolding commit_items
  commit_items_lem [] a d r h = (a, refl, tt, λ j ne. refl)
  commit_items_lem (item ∷ items) a (new, d) (r, rs) (h, hs) =
      let (b, done, shows, others) = commit_item_lem a item item.value refl r h in
      let (c, finished, all, rest) =
        commit_items_lem items b d (IsRegistered-later a b item items others new rs) hs in
      (
        c,
        rw (done, commit_items) finished,
        (
          record {
            before = shows.before;
            after = shows.after;
            was = shows.was;
            found = rest item.oidstr (names_differ item items new) ∙ shows.found;
            shows = shows.shows;
          },
          Shows-later a b c item items others new all,
        ),
        λ j ne. rest j ne.1 ∙ others j ne.0,
      )
