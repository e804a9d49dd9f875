-- ===== src/Server/Abort.antt =====
-- A commit that fails half-way (lib/snmpy/server.py).
use snmpy.Shared.{
  All, List, Result, [], ap, false, length, ok, raise, value_error, ◌++◌, ◌<◌, ◌∷◌, ◌≡◌, continue,
  refl, subst, ◌∙◌,
}
use snmpy.Shared.Text.{Text, text_eq}
use snmpy.Shared.Values.{str}
use snmpy.Shared.Dicts.{lookup}
use snmpy.Module.Item.{Item}
use snmpy.Mibgen.Syntax.{octet_string_type}
use snmpy.Agentx.Asn.{max_str_len, Data, bits, buffer, words}
use snmpy.Agentx.NetSnmp.{NetSnmp}
use snmpy.Agentx.Agent.{Agent}
use snmpy.Server.{commit_items, commit_item}
use snmpy.Server.Commit.{
  HasDistinctNames, IsHeld, IsRegistered, Shows, IsObjectOf, commit_items_lem, IsRegistered-same,
}
use snmpy.Agentx.Agent.Serving.{replace_value_raise}
use snmpy.Agentx.Asn.Setting.{set_value-buffer_long}

buffer_of :
    (d : Data)
    → IsObjectOf octet_string_type d
    → (raw : Text) × (d ≡ buffer raw) × (length raw ≡ max_str_len)
buffer_of (buffer raw) h = (raw, refl, h)
buffer_of (words _ _) h = absurd h
buffer_of (bits _) h = absurd h

All-new :
    (item : Item) (before after : List Item)
    → All (λ i. All (λ j. text_eq i.oidstr j.oidstr ≡ false) (item ∷ after)) before
    → All (λ i. text_eq i.oidstr item.oidstr ≡ false) before
All-new item [] after h = tt
All-new item (i ∷ before) after (h, hs) = (h.0, All-new item before after hs)

All-later :
    (item : Item) (before after : List Item)
    → All (λ i. All (λ j. text_eq i.oidstr j.oidstr ≡ false) (item ∷ after)) before
    → All (λ i. All (λ j. text_eq i.oidstr j.oidstr ≡ false) after) before
All-later item [] after h = tt
All-later item (i ∷ before) after (h, hs) = (h.1, All-later item before after hs)

module _ (n : NetSnmp) where
  continue-append :
      (p : Result (Unit {0}) × Agent n) (xs ys : List Item) (b : Agent n)
      → ((c : Agent n)
          → commit_items n xs c ≡ (ok tt, b)
          → commit_items n (xs ++ ys) c ≡ commit_items n ys b)
      → continue p (commit_items n xs) ≡ (ok tt, b)
      → continue p (commit_items n (xs ++ ys)) ≡ commit_items n ys b
  continue-append (ok u, c) xs ys b h e = h c e
  continue-append (raise x, c) xs ys b h e = cc

  commit_item_long :
      (a : Agent n) (item : Item) (s : Text)
      → IsRegistered n a item
      → item.syntax.object_type ≡ octet_string_type
      → item.value ≡ str s
      → max_str_len < length s
      → commit_item n item a ≡ (raise value_error, a)
  unfolding commit_item
  commit_item_long a item s r k v long =
      let (raw, body, size) = buffer_of r.body (subst (λ t. IsObjectOf t r.body) k r.of_class) in
      rw (v, commit_item)
        (replace_value_raise n a item.oidstr (str s) (record { body = r.body; watcher = r.watcher })
          value_error r.found (rw (body) (set_value-buffer_long raw s r.watcher size long)))

  commit_items-append :
      (xs ys : List Item) (a b : Agent n)
      → commit_items n xs a ≡ (ok tt, b)
      → commit_items n (xs ++ ys) a ≡ commit_items n ys b
  unfolding commit_items
  commit_items-append [] ys a b e =
      ap (λ (p : Result (Unit {0}) × Agent n). commit_items n ys p.1) e
  commit_items-append (x ∷ xs) ys a b e =
      continue-append (commit_item n x a) xs ys b (λ c h. commit_items-append xs ys c b h) e

  -- What the first items do not name is as it was.
  unchanged_items :
      (before after : List Item) (item : Item) (a b : Agent n)
      → All (λ i. All (λ j. text_eq i.oidstr j.oidstr ≡ false) (item ∷ after)) before
      → ((j : Text)
          → All (λ i. text_eq i.oidstr j ≡ false) before
          → lookup j b.objects ≡ lookup j a.objects)
      → All (λ j. lookup j.oidstr b.objects ≡ lookup j.oidstr a.objects) (item ∷ after)
  unchanged_items before [] item a b ne others =
      (others item.oidstr (All-new item before [] ne), tt)
  unchanged_items before (j ∷ after) item a b ne others = (
    others item.oidstr (All-new item before (j ∷ after) ne),
    unchanged_items before after j a b (All-later item before (j ∷ after) ne) others,
  )

  -- The values before a text of more than 1024 bytes are committed; the commit then raises, and
  -- neither this item nor any behind it is changed.
  pub commit_items_long :
      (before after : List Item) (item : Item) (s : Text) (a : Agent n)
      → HasDistinctNames n before
      → All (IsRegistered n a) before
      → All (λ i. IsHeld i.syntax.object_type i.value) before
      → All (λ i. All (λ j. text_eq i.oidstr j.oidstr ≡ false) (item ∷ after)) before
      → IsRegistered n a item
      → item.syntax.object_type ≡ octet_string_type
      → item.value ≡ str s
      → max_str_len < length s
      → (b : Agent n) × (commit_items n (before ++ item ∷ after) a ≡ (raise value_error, b))
        × All (Shows n a b) before
        × All (λ j. lookup j.oidstr b.objects ≡ lookup j.oidstr a.objects) (item ∷ after)
  unfolding commit_items
  commit_items_long before after item s a d r h ne ri k v long =
      let (b, done, shows, others) = commit_items_lem n before a d r h in
      let same = unchanged_items before after item a b ne others in
      let ri' = IsRegistered-same n a b item ri same.0 in
      (
        b,
        commit_items-append before (item ∷ after) a b done
            ∙ (rw (commit_item_long b item s ri' k v long, commit_items) refl),
        shows,
        same,
      )
