-- ===== src/Server/Startup/Plugins.antt =====
-- `start_agent` of lib/snmpy/server.py: what is registered for all the plugins.
use snmpy.Shared.{
  All, List, Option, [], false, map, none, ok, refl, some, ℕ, ◌++◌, ◌∙◌, ◌∷◌, ◌≡◌, ap, ok-injective,
  subst, sym, All-left, All-map, All-right, All-zip,
}
use snmpy.Shared.Text.{Text, codes, text_eq, text_eq_refl, text_eq_sym}
use snmpy.Shared.Dicts.{lookup, lookup-insert, values, insert}
use snmpy.Module.Item.{Item}
use snmpy.Module.Tables.{TableModule}
use snmpy.Mibgen.Names.{get_oidstr}
use snmpy.Agentx.Asn.{Asn, Watcher, bits}
use snmpy.Agentx.NetSnmp.{NetSnmp}
use snmpy.Agentx.Table.{create, AsnClass, Table, class_of}
use snmpy.Agentx.Table.Indexed.{create-index, create-types}
use snmpy.Agentx.Agent.{Agent, table}
use snmpy.Agentx.Agent.Registering.{make_table_new}
use snmpy.Server.{
  Content, class_named, column_objects, make_table_object, table_module, value_module, make_plugin,
}
use snmpy.Server.Commit.{IsHeld, IsRegistered, HasDistinctNames, IsRegistered-same}
use snmpy.Server.Startup.{make_object_null_class, names, make_item_objects_lem}

-- Two by two, the names differ.
abbrev pub Differ : List Text → Type 0
Differ [] = Unit
Differ (x ∷ xs) = All (λ y. text_eq x y ≡ false) xs × Differ xs

abbrev pub Misses : List Text → Text → Type 0
Misses oids j = All (λ oid. text_eq oid j ≡ false) oids

-- The names under which a plugin is registered.
abbrev pub HasNames : Content → List Text → Type 0
HasNames (value_module m) oids = oids ≡ names (values m.items)
HasNames (table_module t) oids =
    (oid : Text) × (get_oidstr (t.name ∷ codes "table" ∷ []) ≡ ok oid) × (oids ≡ oid ∷ [])

-- The values of the items, as `load` leaves them, are such as their objects hold.
abbrev pub IsReady : Content → Type 0
IsReady (value_module m) = All (λ i. IsHeld i.syntax.object_type i.value) (values m.items)
IsReady (table_module t) = Unit

abbrev pub classes : List Item → List AsnClass
classes [] = []
classes (col ∷ cols) = class_named col.syntax.object_type ∷ classes cols

All-unit : (xs : List Text) → All (λ x. Unit {0}) xs
All-unit [] = tt
All-unit (x ∷ xs) = (tt, All-unit xs)

-- Names in two parts, each of which misses the other.
pub Differ-append :
    (xs ys : List Text)
    → Differ (xs ++ ys)
    → Differ xs × Differ ys × All (Misses xs) ys × All (Misses ys) xs
Differ-append [] ys d = (tt, d, All-unit ys, tt)
Differ-append (x ∷ xs) ys (h, hs) =
    let (dxs, dys, back, front) = Differ-append xs ys hs in
    let apart = All-right (λ y. text_eq x y ≡ false) xs ys h in
    (
      (All-left (λ y. text_eq x y ≡ false) xs ys h, dxs),
      dys,
      All-zip _ _ ys apart back,
      (All-map (λ y e. text_eq_sym y x ∙ e) ys apart, front),
    )

All-names :
    (P : Text → Type 0) (items : List Item) → All P (names items) → All (λ i. P i.oidstr) items
All-names P [] h = tt
All-names P (item ∷ items) (h, hs) = (h, All-names P items hs)

module _ (n : NetSnmp) where
  Differ-names : (items : List Item) → Differ (names items) → HasDistinctNames n items
  Differ-names [] h = tt
  Differ-names (item ∷ items) (h, hs) =
      (All-names (λ oid. text_eq item.oidstr oid ≡ false) items h, Differ-names items hs)

  All-IsRegistered :
      (a b : Agent n) (items : List Item)
      → All (λ i. lookup i.oidstr b.objects ≡ lookup i.oidstr a.objects) items
      → All (IsRegistered n a) items
      → All (IsRegistered n b) items
  All-IsRegistered a b [] same h = tt
  All-IsRegistered a b (item ∷ items) (same, sames) (h, hs) =
      (IsRegistered-same n a b item h same, All-IsRegistered a b items sames hs)

  -- A table of the given columns is registered under the name.
  pub record IsTable (a : Agent n) (oid : Text) (ks : List AsnClass) : Type 0 where
    pub tbl : Table n
    pub last : ℕ
    pub watcher : Option Watcher
    pub found : lookup oid a.objects ≡ some (table tbl)
    pub types : tbl.types ≡ ks
    pub index : tbl.index ≡ record { body = bits last; watcher = watcher }

  -- Each item is registered as an object of its class, or the table with its columns.
  abbrev pub IsServed : Agent n → Content → Type 0
  IsServed a (value_module m) = All (IsRegistered n a) (values m.items)
  IsServed a (table_module t) =
      (oid : Text) × (get_oidstr (t.name ∷ codes "table" ∷ []) ≡ ok oid)
      × IsTable a oid (classes (values t.cols))

  column_objects_lem :
      (cols : List Item)
      → (objs : List Asn) × (column_objects n cols ≡ ok objs)
        × (map (λ (o : Asn). class_of o.body) objs ≡ classes cols)
  unfolding column_objects
  column_objects_lem [] = ([], refl, refl)
  column_objects_lem (col ∷ cols) =
      let (obj, made, class) = make_object_null_class n col.syntax.object_type in
      let (objs, done, all) = column_objects_lem cols in
      (obj ∷ objs, rw (made, column_objects, done) refl, rw (class, all) refl)

  make_table_object_lem :
      (t : TableModule) (oid : Text) (a : Agent n)
      → get_oidstr (t.name ∷ codes "table" ∷ []) ≡ ok oid
      → lookup oid a.objects ≡ none
      → (b : Agent n) × (make_table_object n t a ≡ (ok tt, b))
        × IsTable b oid (classes (values t.cols))
        × (b.handlers ≡ a.handlers ++ oid ∷ [])
        × ((j : Text) → text_eq oid j ≡ false → lookup j b.objects ≡ lookup j a.objects)
  unfolding make_table_object
  make_table_object_lem t oid a named new =
      let (objs, made, types) = column_objects_lem (values t.cols) in
      let b : Agent n = record {
        objects = insert oid (table (create n objs)) a.objects;
        handlers = a.handlers ++ oid ∷ [];
      } in
      (
        b,
        rw (named, make_table_object, made) (make_table_new n a oid objs new),
        record {
          tbl = create n objs;
          last = 0;
          watcher = none;
          found = rw (lookup-insert, text_eq_refl) refl;
          types = create-types n objs ∙ types;
          index = create-index n objs;
        },
        refl,
        λ j ne. rw (lookup-insert, ne) refl,
      )

  pub make_plugin_lem :
      (c : Content) (oids : List Text) (a : Agent n)
      → HasNames c oids
      → Differ oids
      → All (λ oid. lookup oid a.objects ≡ none) oids
      → IsReady c
      → (b : Agent n) × (make_plugin n c a ≡ (ok tt, b))
        × IsServed b c
        × (b.handlers ≡ a.handlers ++ oids)
        × ((j : Text) → Misses oids j → lookup j b.objects ≡ lookup j a.objects)
  unfolding make_plugin
  make_plugin_lem (value_module m) oids a named d new h =
      let items = values m.items in
      let (b, done, served, handlers, same) =
        make_item_objects_lem n items a (Differ-names items (subst Differ named d))
          (All-names (λ oid. lookup oid a.objects ≡ none) items
            (subst (All (λ oid. lookup oid a.objects ≡ none)) named new))
          h in
      (
        b,
        done,
        served,
        handlers ∙ ap (λ l. a.handlers ++ l) (sym named),
        λ j misses.
            same j (
              All-names (λ oid. text_eq oid j ≡ false) items
                (subst (λ l. Misses l j) named misses)),
      )
  make_plugin_lem (table_module t) oids a (oid, named, only) d new h =
      let (b, done, served, handlers, same) =
        make_table_object_lem t oid a named
          (subst (All (λ o. lookup o a.objects ≡ none)) only new).0 in
      (
        b,
        done,
        (oid, named, served),
        handlers ∙ ap (λ l. a.handlers ++ l) (sym only),
        λ j misses. same j (subst (λ l. Misses l j) only misses).0,
      )

  -- What a plugin has registered stays when its names are not touched.
  pub IsServed-same :
      (a b : Agent n) (c : Content) (oids : List Text)
      → HasNames c oids
      → All (λ oid. lookup oid b.objects ≡ lookup oid a.objects) oids
      → IsServed a c
      → IsServed b c
  IsServed-same a b (value_module m) oids named same h =
      All-IsRegistered a b (values m.items)
        (All-names (λ oid. lookup oid b.objects ≡ lookup oid a.objects) (values m.items)
          (subst (All (λ oid. lookup oid b.objects ≡ lookup oid a.objects)) named same))
        h
  IsServed-same a b (table_module t) oids (oid, named, only) same (oid', named', tbl) =
      let at : oid' ≡ oid = ok-injective (sym named' ∙ named) in
      let kept = (subst (All (λ o. lookup o b.objects ≡ lookup o a.objects)) only same).0 in
      (
        oid',
        named',
        record {
          tbl = tbl.tbl;
          last = tbl.last;
          watcher = tbl.watcher;
          found = subst (λ o. lookup o b.objects ≡ lookup o a.objects) (sym at) kept ∙ tbl.found;
          types = tbl.types;
          index = tbl.index;
        },
      )
