-- ===== src/Module/Item/Each.antt =====
-- Loops that set the values of all items of a ValueModule (lib/snmpy/module/__init__.py).
use snmpy.Shared.{
  All, Distinct, List, Proc, Result, [], ap, arith, false, ok, ok-injective, ok_of_bind, refl, some,
  ◌++◌, ◌>>=◌, ◌>>◌, ◌∷◌, ◌≡◌, ◌≢◌, append_assoc, continue, sym, ◌∙◌,
}
use snmpy.Shared.Text.{Text, text_eq, text_eq_iff, text_eq_refl}
use snmpy.Shared.Dicts.{Dict, insert, keys, lookup}
use snmpy.Shared.Values.{Value}
use snmpy.Module.Item.{Item}

abbrev pub with_value : Value → Item → Item
with_value v item = record item { value = v }

-- One step for each name.
abbrev pub each : (Text → Proc (Dict Item)) → List Text → Proc (Dict Item)
each step [] items = (ok tt, items)
each step (k ∷ ks) items = (step k >> each step ks) items

-- The items, each with the value that is told for it.
abbrev pub updated : (Text → Item → Result Value) → Dict Item → Result (Dict Item)
updated f [] = ok []
updated f ((k, item) ∷ items) = do
  v ← f k item
  rest ← updated f items
  ok ((k, with_value v item) ∷ rest)

-- A name that none of the keys is.
abbrev Misses : Text → Dict Item → Type 0
Misses k front = All (λ j. j ≢ k) (keys front)

lookup-middle :
    (front back : Dict Item) (k : Text) (item : Item)
    → Misses k front
    → lookup k (front ++ (k, item) ∷ back) ≡ some item
unfolding lookup
lookup-middle [] back k item h = rw (text_eq_refl k) refl
lookup-middle ((j, i) ∷ front) back k item (ne, h) =
    let differ : text_eq j k ≡ false = ground (arith, text_eq_iff j k) in
    rw differ (lookup-middle front back k item h)

insert-middle :
    (front back : Dict Item) (k : Text) (old item : Item)
    → Misses k front
    → insert k item (front ++ (k, old) ∷ back) ≡ front ++ (k, item) ∷ back
unfolding insert
insert-middle [] back k old item h = rw (text_eq_refl k) refl
insert-middle ((j, i) ∷ front) back k old item (ne, h) =
    let differ : text_eq j k ≡ false = ground (arith, text_eq_iff j k) in
    rw differ (ap (λ l. (j, i) ∷ l) (insert-middle front back k old item h))

Misses-append :
    (k j : Text) (item : Item) (front : Dict Item)
    → Misses k front
    → j ≢ k
    → Misses k (front ++ (j, item) ∷ [])
Misses-append k j item [] h ne = (ne, tt)
Misses-append k j item ((i, old) ∷ front) (d, h) ne = (d, Misses-append k j item front h ne)

module _ (step : Text → Proc (Dict Item)) (f : Text → Item → Result Value)
    (sets : (k : Text) (item : Item) (v : Value) (items : Dict Item)
      → lookup k items ≡ some item
      → f k item ≡ ok v
      → step k items ≡ (ok tt, insert k (with_value v item) items)) where
  one_step :
      (front back : Dict Item) (k : Text) (item : Item) (v : Value)
      → Misses k front
      → f k item ≡ ok v
      → step k (front ++ (k, item) ∷ back) ≡ (ok tt, (front ++ (k, with_value v item) ∷ []) ++ back)
  one_step front back k item v miss told =
      sets k item v (front ++ (k, item) ∷ back) (lookup-middle front back k item miss) told
      ∙ ap (λ l. (ok tt, l))
          (insert-middle front back k item (with_value v item) miss
            ∙ sym (append_assoc front ((k, with_value v item) ∷ []) back))

  later_miss :
      (front : Dict Item) (k : Text) (item : Item) (ks : List Text)
      → All (λ j. Misses j front) ks
      → All (λ j. k ≢ j) ks
      → All (λ j. Misses j (front ++ (k, item) ∷ [])) ks
  later_miss front k item [] h differ = tt
  later_miss front k item (j ∷ ks) (m, h) (ne, differ) =
      (Misses-append j k item front m ne, later_miss front k item ks h differ)

  each-from :
      (front back back' : Dict Item)
      → All (λ k. Misses k front) (keys back)
      → Distinct (keys back)
      → updated f back ≡ ok back'
      → each step (keys back) (front ++ back) ≡ (ok tt, front ++ back')
  each-from front [] back' h d e = ap (λ l. (ok tt, front ++ l)) (ok-injective e)
  each-from front ((k, item) ∷ back) back' (miss, h) (differ, d) e =
      let (v, told, e') =
        ok_of_bind (f k item) (λ v. updated f back >>= (λ rest. ok ((k, with_value v item) ∷ rest)))
          e in
      let (rest, others, e'') =
        ok_of_bind (updated f back) (λ rest. ok ((k, with_value v item) ∷ rest)) e' in
      let new = with_value v item in
      ap (λ r. continue r (each step (keys back))) (one_step front back k item v miss told)
      ∙ each-from (front ++ (k, new) ∷ []) back rest (later_miss front k new (keys back) h differ) d
          others
      ∙ ap (λ l. (ok tt, l))
          (append_assoc front ((k, new) ∷ []) rest ∙ ap (λ r. front ++ r) (ok-injective e''))

  nothing_missed : (ks : List Text) → All (λ k. Misses k []) ks
  nothing_missed [] = tt
  nothing_missed (k ∷ ks) = (tt, nothing_missed ks)

  -- If a step sets the item of its name to what `f` tells, the loop sets all of them, where `f` tells a
  -- value for each.
  pub each-updated :
      (items items' : Dict Item)
      → Distinct (keys items)
      → updated f items ≡ ok items'
      → each step (keys items) items ≡ (ok tt, items')
  each-updated items items' d e = each-from [] items items' (nothing_missed (keys items)) d e
