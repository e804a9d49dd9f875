-- ===== src/Server/Startup/Registered.antt =====
-- The whole of `start_agent` of lib/snmpy/server.py.
use snmpy.Shared.{
  All-map, Distinct, List, [], ok, ◌∷◌, ◌≡◌, All, ap, arith, length, none, refl, ◌++◌, ◌∙◌, ◌≤◌,
  All-zip, false,
}
use snmpy.Shared.Text.{Text, codes, text_eq_iff, text_eq_refl, text_eq}
use snmpy.Mibgen.Names.{get_oidstr, plugins_key, version_key}
use snmpy.Agentx.Agent.{table, Agent, make_table, make_value, start}
use snmpy.Server.Startup.Plugins.{Differ, IsReady, IsServed, IsTable}
use snmpy.Shared.Values.{str}
use snmpy.Shared.Dicts.{lookup, insert, lookup-insert}
use snmpy.Module.Item.{Item}
use snmpy.Mibgen.Syntax.{octet_string_syntax, octet_string_type}
use snmpy.Agentx.Asn.{Asn, max_str_len}
use snmpy.Agentx.NetSnmp.{NetSnmp}
use snmpy.Agentx.Table.{class_of, octet_string_class, create}
use snmpy.Server.{Plugin, info_names, make_info, start_agent, on_objects}
use snmpy.Server.Startup.{make_object_null_class, names, make_value_held}
use snmpy.Server.Startup.Sequence.{HaveNames, make_plugins_lem}
use snmpy.Agentx.Table.Indexed.{create-index, create-types}
use snmpy.Agentx.Agent.Registering.{handlers-start, lookup-start, make_table_new}

-- The names of the two objects about the agent.
abbrev pub version_oid : Text
version_oid = codes "SNMPY-MIB::snmpyInfoVersion"

abbrev pub plugins_oid : Text
plugins_oid = codes "SNMPY-MIB::snmpyInfoPluginsTable"

version_named : get_oidstr (version_key ∷ []) ≡ ok version_oid
unfolding get_oidstr
version_named = refl

plugins_named : get_oidstr (plugins_key ∷ codes "table" ∷ []) ≡ ok plugins_oid
unfolding get_oidstr
plugins_named = refl

Differ-Distinct : (xs : List Text) → Distinct xs → Differ xs
Differ-Distinct [] h = tt
Differ-Distinct (x ∷ xs) (h, hs) =
    (All-map (λ y ne. ground (arith, text_eq_iff x y)) xs h, Differ-Distinct xs hs)

-- The version as an item, under its name.
abbrev version_item : Text → Item
version_item version = record {
  oidnum = 0;
  oidstr = version_oid;
  syntax = octet_string_syntax;
  regex = none;
  cdef = none;
  join = [];
  value = str version;
}

module _ (n : NetSnmp) where
  info_names_lem :
      (col : Asn) × (info_names n ≡ ok (version_oid, plugins_oid, col ∷ []))
      × (class_of col.body ≡ octet_string_class)
  unfolding info_names
  info_names_lem =
      let (col, made, class) = make_object_null_class n octet_string_type in
      (col, rw (version_named, plugins_named, made) refl, class)

  -- The agent with its own two objects, before the plugins.
  make_own :
      (version : Text) (col : Asn) (oids : List Text)
      → length version ≤ max_str_len
      → class_of col.body ≡ octet_string_class
      → Differ (version_oid ∷ plugins_oid ∷ oids)
      → (a b : Agent n) × (make_value n octet_string_class (str version) version_oid (start n)
          ≡ (ok tt, a))
        × (make_table n plugins_oid (col ∷ []) a ≡ (ok tt, b))
        × IsTable n b plugins_oid (octet_string_class ∷ [])
        × (b.handlers ≡ version_oid ∷ plugins_oid ∷ [])
        × All (λ o. lookup o b.objects ≡ none) oids
  make_own version col oids h class d =
      let (a, made, served, handlers, same) =
        make_value_held n (start n) (version_item version) (lookup-start n version_oid) h in
      let b : Agent n = record {
        objects = insert plugins_oid (table (create n (col ∷ []))) a.objects;
        handlers = a.handlers ++ plugins_oid ∷ [];
      } in
      (
        a,
        b,
        made,
        make_table_new n a plugins_oid (col ∷ [])
            (same plugins_oid d.0.0 ∙ lookup-start n plugins_oid),
        record {
          tbl = create n (col ∷ []);
          last = 0;
          watcher = none;
          found = rw (lookup-insert, text_eq_refl plugins_oid) refl;
          types = create-types n (col ∷ []) ∙ ap (λ k. k ∷ []) class;
          index = create-index n (col ∷ []);
        },
        ap (λ l. l ++ plugins_oid ∷ [])
            (handlers ∙ ap (λ l. l ++ version_oid ∷ []) (handlers-start n)),
        All-map
            (λ j (e : (text_eq version_oid j ≡ false) × (text_eq plugins_oid j ≡ false)).
              (rw (lookup-insert plugins_oid j, e.1) refl) ∙ same j e.0 ∙ lookup-start n j)
            oids (All-zip _ _ oids d.0.1 d.1.0),
      )

  -- At a start with plugins whose object names can be made and are all different from each other and
  -- from those of the agent's own two objects, `start_agent` does not raise: net-snmp is given these
  -- names once each, in the order of the configuration; every item of a plugin is then an object of its
  -- class, and every table one with the columns' classes, and a fetch thread was started for each plugin
  -- in this order. So the plugins' commits find their objects.
  pub start_agent-IsServed :
      (version : Text) (ps : List Plugin) (oids : List Text)
      → length version ≤ max_str_len
      → HaveNames ps oids
      → Distinct (version_oid ∷ plugins_oid ∷ oids)
      → All (λ p. IsReady p.content) ps
      → (b : Agent n) × (start_agent n version ps (record { agent = start n; fetching = [] })
          ≡ (ok tt, record { agent = b; fetching = ps }))
        × All (λ p. IsServed n b p.content) ps
        × (b.handlers ≡ version_oid ∷ plugins_oid ∷ oids)
  unfolding start_agent make_info on_objects
  start_agent-IsServed version ps oids small named distinct ready =
      let differ = Differ-Distinct (version_oid ∷ plugins_oid ∷ oids) distinct in
      let (col, names, class) = info_names_lem in
      let (a, b, made, tabled, tbl, handlers, free) =
        make_own version col oids small class differ in
      let (c, done, all, tbl', handlers', same) =
        make_plugins_lem n ps plugins_oid oids b [] named differ.1 free ready tbl in
      (
        c,
        rw (names, start_agent, make_info, made, tabled) done,
        all,
        handlers' ∙ ap (λ l. l ++ oids) handlers,
      )
