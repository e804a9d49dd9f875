-- ===== src/Server/Startup/Sequence.antt =====
-- `start_agent` of lib/snmpy/server.py: what is registered for all the plugins, in their order.
use snmpy.Shared.{
  All, All-left, All-map, All-right, All-zip, List, [], ap, append-nil, append_assoc, false, none,
  ok, refl, subst, sym, ◌++◌, ◌∙◌, ◌∷◌, ◌≡◌,
}
use snmpy.Shared.Text.{Text, text_eq, text_eq_refl, text_eq_sym}
use snmpy.Shared.Values.{int, str}
use snmpy.Shared.Dicts.{insert, lookup, lookup-insert}
use snmpy.Shared.Int.{pos}
use snmpy.Agentx.Asn.{c_int}
use snmpy.Agentx.NetSnmp.{NetSnmp}
use snmpy.Agentx.Table.{AsnClass, octet_string_class}
use snmpy.Agentx.Table.Laws.{FitsRow}
use snmpy.Agentx.Table.Indexed.{append_indexed}
use snmpy.Agentx.Agent.{Agent, append_row, table}
use snmpy.Agentx.Agent.Registering.{append_row_ok}
use snmpy.Server.{Plugin, make_plugins, on_objects, start_thread}
use snmpy.Server.Startup.Plugins.{
  Differ, Differ-append, HasNames, IsReady, IsServed, IsServed-same, IsTable, Misses,
  make_plugin_lem,
}

-- The names of the plugins, one after the other.
abbrev pub HaveNames : List Plugin → List Text → Type 0
HaveNames [] oids = oids ≡ []
HaveNames (p ∷ ps) oids =
    (xs : List Text) × (ys : List Text) × HasNames p.content xs
    × HaveNames ps ys
    × (oids ≡ xs ++ ys)

module _ (n : NetSnmp) where
  -- The row of a plugin in the table of plugins.
  append_plugin :
      (a : Agent n) (oid : Text) (p : Plugin)
      → IsTable n a oid (octet_string_class ∷ [])
      → (b : Agent n) × (append_row n oid (int (pos p.index) ∷ str p.name ∷ []) a ≡ (ok tt, b))
        × IsTable n b oid (octet_string_class ∷ [])
        × (b.handlers ≡ a.handlers)
        × ((j : Text) → text_eq oid j ≡ false → lookup j b.objects ≡ lookup j a.objects)
  append_plugin a oid p h =
      let (t', w', added, types, index) =
        append_indexed n h.tbl h.last h.watcher (pos p.index) (str p.name ∷ []) h.index
          (subst (λ ks. FitsRow ks (str p.name ∷ [])) (sym h.types) (tt, tt)) in
      let b : Agent n = record a { objects = insert oid (table t') a.objects } in
      (
        b,
        append_row_ok n a oid (int (pos p.index) ∷ str p.name ∷ []) h.tbl t' h.found added,
        record {
          tbl = t';
          last = c_int (pos p.index);
          watcher = w';
          found = rw (lookup-insert, text_eq_refl) refl;
          types = types ∙ h.types;
          index = index;
        },
        refl,
        λ j ne. rw (lookup-insert, ne) refl,
      )

  IsTable-same :
      (a b : Agent n) (oid : Text) (ks : List AsnClass)
      → IsTable n a oid ks
      → lookup oid b.objects ≡ lookup oid a.objects
      → IsTable n b oid ks
  IsTable-same a b oid ks t same = record {
    tbl = t.tbl;
    last = t.last;
    watcher = t.watcher;
    found = same ∙ t.found;
    types = t.types;
    index = t.index;
  }

  pub make_plugins_lem :
      (ps : List Plugin) (oid : Text) (oids : List Text) (a : Agent n) (begun : List Plugin)
      → HaveNames ps oids
      → Differ (oid ∷ oids)
      → All (λ o. lookup o a.objects ≡ none) oids
      → All (λ p. IsReady p.content) ps
      → IsTable n a oid (octet_string_class ∷ [])
      → (b : Agent n) × (make_plugins n oid ps (record { agent = a; fetching = begun })
          ≡ (ok tt, record { agent = b; fetching = begun ++ ps }))
        × All (λ p. IsServed n b p.content) ps
        × IsTable n b oid (octet_string_class ∷ [])
        × (b.handlers ≡ a.handlers ++ oids)
        × ((j : Text) → Misses (oid ∷ oids) j → lookup j b.objects ≡ lookup j a.objects)
  unfolding make_plugins on_objects start_thread
  make_plugins_lem [] oid oids a begun named d new h tbl = (
    a,
    ap (λ l. (ok tt, record { agent = a; fetching = l })) (sym (append-nil begun)),
    tt,
    tbl,
    sym (append-nil a.handlers) ∙ ap (λ l. a.handlers ++ l) (sym named),
    λ j m. refl,
  )
  make_plugins_lem (p ∷ ps) oid oids a begun (xs, ys, mine, others, both) d new (h, hs) tbl =
      let (dxs, dys, back, front) = Differ-append xs ys (subst Differ both d.1) in
      let apart = subst (All (λ y. text_eq oid y ≡ false)) both d.0 in
      let apart_xs = All-left (λ y. text_eq oid y ≡ false) xs ys apart in
      let apart_ys = All-right (λ y. text_eq oid y ≡ false) xs ys apart in
      let free = subst (All (λ o. lookup o a.objects ≡ none)) both new in
      let (b1, added, tbl1, handlers1, same1) = append_plugin a oid p tbl in
      let (b2, made, served, handlers2, same2) =
        make_plugin_lem n p.content xs b1 mine dxs
          (All-map (λ j e. same1 j e.0 ∙ e.1) xs
            (All-zip _ _ xs apart_xs (All-left (λ o. lookup o a.objects ≡ none) xs ys free)))
          h in
      let (c, done, all, tbl3, handlers3, same3) =
        make_plugins_lem ps oid ys b2 (begun ++ p ∷ []) others (apart_ys, dys)
          (All-map (λ j e. same2 j e.0 ∙ same1 j e.1.0 ∙ e.1.1) ys
            (All-zip _ _ ys back
              (All-zip _ _ ys apart_ys (All-right (λ o. lookup o a.objects ≡ none) xs ys free))))
          hs
          (IsTable-same b1 b2 oid (octet_string_class ∷ []) tbl1
            (same2 oid (All-map (λ j e. text_eq_sym j oid ∙ e) xs apart_xs))) in
      (
        c,
        rw (added, make_plugins, made)
            (done
              ∙ ap (λ l. (ok tt, record { agent = c; fetching = l }))
                  (append_assoc begun (p ∷ []) ps)),
        (
          IsServed-same n b2 c p.content xs mine
              (All-map (λ j e. same3 j e) xs (All-zip _ _ xs apart_xs front)) served,
          all,
        ),
        tbl3,
        handlers3
            ∙ ap (λ l. l ++ ys) (handlers2 ∙ ap (λ l. l ++ xs) handlers1)
            ∙ append_assoc a.handlers xs ys
            ∙ ap (λ l. a.handlers ++ l) (sym both),
        λ j (ne, misses).
            let m = subst (λ l. Misses l j) both misses in
            same3 j (ne, All-right (λ o. text_eq o j ≡ false) xs ys m)
            ∙ same2 j (All-left (λ o. text_eq o j ≡ false) xs ys m)
            ∙ same1 j ne,
      )
