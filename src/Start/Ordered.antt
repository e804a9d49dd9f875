-- ===== src/Start/Ordered.antt =====
-- The plugins that the program `snmpy` makes, and their order.
use snmpy.Shared.{
  All, All-map, Bool-cases, Distinct, List, Result, [], ap, append-nil, append_assoc, arith, false,
  inl, inr, none, ok, refl, subst, sym, true, ◌++◌, ◌∙◌, ◌∷◌, ◌≡◌, ◌≢◌,
}
use snmpy.Shared.Text.{Text, text_eq, text_eq_iff}
use snmpy.Shared.Dicts.{Dict, insert, insert_new, keys, lookup, lookup-insert, lookup_nil}
use snmpy.Shared.Sorting.{
  IsAscending, lookup-sorted_items, sorted_items, sorted_items-IsAscending, text_lt, text_lt_irrefl,
}
use snmpy.Start.{Conf, PluginConf, create_all, create_plugin, global, initialize, plugins_of}

Distinct-IsAscending : (ks : List Text) → IsAscending ks → Distinct ks
Distinct-IsAscending [] h = tt
Distinct-IsAscending (k ∷ ks) (before, h) = (
  All-map
      (λ j lt same. absurd (
        let e : text_lt k k ≡ true = subst (λ t. text_lt k t ≡ true) (sym same) lt in
        let f = text_lt_irrefl k in cc))
      ks before,
  Distinct-IsAscending ks h,
)

plugins_of-All :
    (P : Text → Type 0) (conf : Conf) → All P (keys conf) → All P (keys (plugins_of conf))
unfolding plugins_of
plugins_of-All P [] h = tt
plugins_of-All P ((k, e) ∷ conf) (p, h) = elim (Bool-cases (text_eq k global)) [
  | inl left ↦ rw left (plugins_of-All P conf h)
  | inr kept ↦ rw kept (p, plugins_of-All P conf h)
]

plugins_of-IsAscending :
    (conf : Conf) → IsAscending (keys conf) → IsAscending (keys (plugins_of conf))
unfolding plugins_of
plugins_of-IsAscending [] h = tt
plugins_of-IsAscending ((k, e) ∷ conf) (before, h) = elim (Bool-cases (text_eq k global)) [
  | inl left ↦ rw left (plugins_of-IsAscending conf h)
  | inr kept ↦ rw kept (plugins_of-All _ conf before, plugins_of-IsAscending conf h)
]

lookup-plugins_of :
    (name : Text) (conf : Conf)
    → text_eq name global ≡ false
    → lookup name (plugins_of conf) ≡ lookup name conf
unfolding plugins_of lookup
lookup-plugins_of name [] h = refl
lookup-plugins_of name ((k, e) ∷ conf) h = ground (
  arith,
  text_eq_iff k global,
  text_eq_iff k name,
  text_eq_iff name global,
  lookup-plugins_of name conf h,
)

module _ {M : Type 0} (create : Text → Text → PluginConf → Result M) where
  -- Each plugin can be made, and these are they.
  abbrev pub AreMade : Conf → Dict M → Type 0
  AreMade [] [] = Unit
  AreMade ((k, e) ∷ conf) ((j, m) ∷ plugins) =
      (j ≡ k) × (create_plugin create k e ≡ ok m) × AreMade conf plugins
  AreMade _ _ = ⊥

  keys-AreMade : (conf : Conf) (plugins : Dict M) → AreMade conf plugins → keys plugins ≡ keys conf
  keys-AreMade [] [] h = refl
  keys-AreMade ((k, e) ∷ conf) ((j, m) ∷ plugins) (same, made, h) =
      rw (same, keys-AreMade conf plugins h) refl
  keys-AreMade [] (p ∷ plugins) h = absurd h
  keys-AreMade (c ∷ conf) [] h = absurd h

  still_new :
      (k : Text) (m : M) (ks : List Text) (before : Dict M)
      → All (λ j. k ≢ j) ks
      → All (λ j. lookup j before ≡ none) ks
      → All (λ j. lookup j (insert k m before) ≡ none) ks
  still_new k m [] before differ new = tt
  still_new k m (j ∷ ks) before (ne, differ) (none', new) = (
    lookup-insert k j m before ∙ ground (arith, text_eq_iff k j),
    still_new k m ks before differ new,
  )

  create_all_lem :
      (conf : Conf) (plugins before : Dict M)
      → AreMade conf plugins
      → Distinct (keys conf)
      → All (λ k. lookup k before ≡ none) (keys conf)
      → create_all create conf before ≡ ok (before ++ plugins)
  unfolding create_all
  create_all_lem [] [] before h distinct new = ap ok (sym (append-nil before))
  create_all_lem ((k, e) ∷ conf) ((j, m) ∷ plugins) before (same, made, h) (differ, distinct)
        (mine, new) =
      rw (made) (
        create_all_lem conf plugins (insert k m before) h distinct
          (still_new k m (keys conf) before differ new)
        ∙ ap (λ d. ok (d ++ plugins)) (insert_new k m before mine)
        ∙ ap ok (append_assoc before ((k, m) ∷ []) plugins)
        ∙ ap (λ i. ok (before ++ (i, m) ∷ plugins)) (sym same))
  create_all_lem [] (p ∷ plugins) before h distinct new = absurd h
  create_all_lem (c ∷ conf) [] before h distinct new = absurd h

  none_before : (ks : List Text) → All (λ k. lookup {V = M} k [] ≡ none) ks
  none_before [] = tt
  none_before (k ∷ ks) = (lookup_nil k, none_before ks)

  -- Where each of the plugins in the configuration can be made, `initialize` does not raise, and gives
  -- one plugin for each, in the ascending order of their names, whatever the order in which their
  -- files were read; the plugins are those of the configuration but for the global settings.
  pub initialize_lem :
      (conf : Conf) (plugins : Dict M)
      → Distinct (keys conf)
      → AreMade (plugins_of (sorted_items conf)) plugins
      → (initialize create conf ≡ ok plugins)
        × IsAscending (keys plugins)
        × ((name : Text)
            → text_eq name global ≡ false
            → lookup name (plugins_of (sorted_items conf)) ≡ lookup name conf)
  unfolding initialize
  initialize_lem conf plugins distinct made =
      let order =
        plugins_of-IsAscending (sorted_items conf) (sorted_items-IsAscending conf distinct) in
      let ks = keys (plugins_of (sorted_items conf)) in
      (
        create_all_lem (plugins_of (sorted_items conf)) plugins [] made
            (Distinct-IsAscending ks order) (none_before ks),
        subst IsAscending (sym (keys-AreMade (plugins_of (sorted_items conf)) plugins made)) order,
        λ name plugin.
            lookup-plugins_of name (sorted_items conf) plugin
            ∙ lookup-sorted_items name conf distinct,
      )
