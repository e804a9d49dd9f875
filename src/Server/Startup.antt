-- ===== src/Server/Startup.antt =====
-- `start_agent` of lib/snmpy/server.py: what is registered for the items of a plugin.
pub mod Plugins
pub mod Sequence
mod Tests
pub mod Registered
use snmpy.Shared.{
  [], false, none, ok, refl, ◌++◌, ◌∷◌, ◌≡◌, All, List, ap, append-nil, append_assoc, arith, subst,
  sym, ◌∙◌,
}
use snmpy.Shared.Text.{Text, text_eq, text_eq_refl}
use snmpy.Shared.Values.{Value, int, null, str}
use snmpy.Shared.Dicts.{lookup, lookup-insert}
use snmpy.Shared.Int.{pos}
use snmpy.Module.Item.{Item}
use snmpy.Mibgen.Syntax.{ObjectType, counter64_type, integer32_type, octet_string_type}
use snmpy.Agentx.Asn.{Asn, buffer, get_watch, bits, words, Data}
use snmpy.Agentx.Asn.Laws.{octet_string_size, counter64_fits, integer32_size}
use snmpy.Agentx.NetSnmp.{NetSnmp}
use snmpy.Agentx.Table.{construct, class_of}
use snmpy.Agentx.Agent.{Agent, default_of, make_object, make_value, value}
use snmpy.Server.{class_named, make_item_objects}
use snmpy.Server.Commit.{
  IsHeld, IsObjectOf, IsRegistered, set_value_held, HasDistinctNames, IsRegistered-same,
  names_differ,
}
use snmpy.Agentx.Asn.Watching.{get_watch-body}
use snmpy.Agentx.Agent.Registering.{make_object_given, make_object_null, make_value_new}

class_of_object : (k : ObjectType) (d : Data) → IsObjectOf k d → class_of d ≡ class_named k
class_of_object octet_string_type (buffer raw) h = refl
class_of_object counter64_type (words a b) h = refl
class_of_object integer32_type (bits b) h = refl
class_of_object octet_string_type (words a b) h = absurd h
class_of_object octet_string_type (bits b) h = absurd h
class_of_object counter64_type (buffer raw) h = absurd h
class_of_object counter64_type (bits b) h = absurd h
class_of_object integer32_type (buffer raw) h = absurd h
class_of_object integer32_type (words a b) h = absurd h

abbrev pub names : List Item → List Text
names [] = []
names (item ∷ items) = item.oidstr ∷ names items

module _ (n : NetSnmp) where
  default_object :
      (k : ObjectType)
      → (obj : Asn) × (construct (class_named k) (default_of (class_named k)) ≡ ok obj)
        × IsObjectOf k obj.body
  default_object octet_string_type =
      let (raw, made, size) = octet_string_size [] in
      (record { body = buffer raw; watcher = none }, made, size)
  default_object counter64_type =
      let (high, low, made, lt, lt', content) = counter64_fits 0 (omega arith) in
      (record { body = words high low; watcher = none }, made, tt)
  default_object integer32_type =
      let (b, made) = integer32_size (pos 0) in (record { body = bits b; watcher = none }, made, tt)

  -- The factory of a class, called with a value that its objects hold, makes an object of that class.
  make_object_held :
      (k : ObjectType) (v : Value)
      → IsHeld k v
      → (obj : Asn) × (make_object n (class_named k) v ≡ ok obj) × IsObjectOf k obj.body
  make_object_held k null h =
      let (obj, made, fits) = default_object k in
      (obj, make_object_null n (class_named k) obj made, fits)
  make_object_held k (int z) h =
      let (obj, made, fits) = default_object k in
      let (obj', set, fits', content) = set_value_held k (int z) obj.body obj.watcher (cc) fits h in
      (obj', make_object_given n (class_named k) (int z) obj obj' made (cc) set, fits')
  make_object_held k (str s) h =
      let (obj, made, fits) = default_object k in
      let (obj', set, fits', content) = set_value_held k (str s) obj.body obj.watcher (cc) fits h in
      (obj', make_object_given n (class_named k) (str s) obj obj' made (cc) set, fits')

  -- An object for a column is of the column's class.
  pub make_object_null_class :
      (k : ObjectType)
      → (obj : Asn) × (make_object n (class_named k) null ≡ ok obj)
        × (class_of obj.body ≡ class_named k)
  make_object_null_class k =
      let (obj, made, fits) = make_object_held k null tt in
      (obj, made, class_of_object k obj.body fits)

  -- An item whose name is new is registered as an object of its class.
  pub make_value_held :
      (a : Agent n) (item : Item)
      → lookup item.oidstr a.objects ≡ none
      → IsHeld item.syntax.object_type item.value
      → (b : Agent n) × (make_value n (class_named item.syntax.object_type) item.value item.oidstr a
          ≡ (ok tt, b))
        × IsRegistered n b item
        × (b.handlers ≡ a.handlers ++ item.oidstr ∷ [])
        × ((j : Text) → text_eq item.oidstr j ≡ false → lookup j b.objects ≡ lookup j a.objects)
  make_value_held a item new h =
      let (obj, made, fits) = make_object_held item.syntax.object_type item.value h in
      let obj' = (get_watch n.create_watcher_info obj).1 in
      (
        _,
        make_value_new n a (class_named item.syntax.object_type) item.value item.oidstr obj made
            new,
        record {
          body = obj'.body;
          watcher = obj'.watcher;
          found = rw (lookup-insert, text_eq_refl) refl;
          of_class =
              subst (IsObjectOf item.syntax.object_type)
                (sym (get_watch-body n.create_watcher_info obj)) fits;
        },
        refl,
        λ j ne. rw (lookup-insert, ne) refl,
      )

  AreNew-later :
      (a b : Agent n) (item : Item) (items : List Item)
      → ((j : Text) → text_eq item.oidstr j ≡ false → lookup j b.objects ≡ lookup j a.objects)
      → All (λ later. text_eq item.oidstr later.oidstr ≡ false) items
      → All (λ i. lookup i.oidstr a.objects ≡ none) items
      → All (λ i. lookup i.oidstr b.objects ≡ none) items
  AreNew-later a b item [] same new h = tt
  AreNew-later a b item (later ∷ items) same (ne, new) (h, hs) =
      (same later.oidstr ne ∙ h, AreNew-later a b item items same new hs)

  -- The items of a plugin have distinct names that are new, and values that objects of their classes
  -- hold. Then each is registered, in order, and nothing else has changed.
  pub make_item_objects_lem :
      (items : List Item) (a : Agent n)
      → HasDistinctNames n items
      → All (λ i. lookup i.oidstr a.objects ≡ none) items
      → All (λ i. IsHeld i.syntax.object_type i.value) items
      → (b : Agent n) × (make_item_objects n items a ≡ (ok tt, b))
        × All (IsRegistered n b) items
        × (b.handlers ≡ a.handlers ++ names items)
        × ((j : Text)
            → All (λ i. text_eq i.oidstr j ≡ false) items
            → lookup j b.objects ≡ lookup j a.objects)
  unfolding make_item_objects
  make_item_objects_lem [] a d new h = (a, refl, tt, sym (append-nil a.handlers), λ j ne. refl)
  make_item_objects_lem (item ∷ items) a (differ, d) (new, news) (h, hs) =
      let (b, made, registered, handlers, same) = make_value_held a item new h in
      let (c, done, all, handlers', same') =
        make_item_objects_lem items b d (AreNew-later a b item items same differ news) hs in
      (
        c,
        rw (made, make_item_objects) done,
        (
          IsRegistered-same n b c item registered
              (same' item.oidstr (names_differ n item items differ)),
          all,
        ),
        handlers'
            ∙ ap (λ l. l ++ names items) handlers
            ∙ append_assoc a.handlers (item.oidstr ∷ []) (names items),
        λ j ne. same' j ne.1 ∙ same j ne.0,
      )
