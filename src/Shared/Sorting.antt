-- ===== src/Shared/Sorting.antt =====
-- Python's `sorted` on texts and on the items of a `dict`, whose keys are distinct.
use mathlib.Core.Path.{◌≡◌, refl, ap, ◌∙◌}
use mathlib.Core.Bool.{Bool, true, false}
use mathlib.Core.Option.{some}
use mathlib.Core.Logic.{◌≢◌, inl, inr}
use mathlib.Core.List.{List, [], ◌∷◌}
use native.Mathlib.Omega.{arith}
use snmpy.Shared.Lists.{All, All-map, Distinct}
use snmpy.Shared.Tests.{Bool-cases, if◌then◌else◌, ltb, ◌==◌}
use snmpy.Shared.Text.{Text, text_eq, text_eq_iff}
use snmpy.Shared.Dicts.{Dict, keys, lookup}

-- Lexicographic order on byte strings.
unfoldable pub text_lt : Text → Text → Bool
text_lt s [] = false
text_lt [] (b ∷ t) = true
text_lt (a ∷ s) (b ∷ t) = if a == b then text_lt s t else ltb a b

pub text_lt_trans : (s t u : Text) → text_lt s t ≡ true → text_lt t u ≡ true → text_lt s u ≡ true
unfolding text_lt
text_lt_trans s [] u h k = ground arith
text_lt_trans s (b ∷ t) [] h k = ground arith
text_lt_trans [] (b ∷ t) (c ∷ u) h k = refl
text_lt_trans (a ∷ s) (b ∷ t) (c ∷ u) h k = ground (arith, text_lt_trans s t u)

-- Of two texts neither of which is before the other, both are the same.
pub text_lt_total : (s t : Text) → text_lt s t ≡ false → text_lt t s ≡ false → s ≡ t
unfolding text_lt
text_lt_total [] [] h k = refl
text_lt_total [] (b ∷ t) h k = ground arith
text_lt_total (a ∷ s) [] h k = ground arith
text_lt_total (a ∷ s) (b ∷ t) h k = ground (arith, text_lt_total s t)

pub text_lt_irrefl : (s : Text) → text_lt s s ≡ false
unfolding text_lt
text_lt_irrefl [] = refl
text_lt_irrefl (a ∷ s) = ground (arith, text_lt_irrefl s)

-- Names of which each one is before those that follow it.
abbrev pub IsAscending : List Text → Type 0
IsAscending [] = Unit
IsAscending (k ∷ ks) = All (λ j. text_lt k j ≡ true) ks × IsAscending ks

module _ {V : Type 0} where
  -- sorted(d.items())
  unfoldable pub place : Text → V → Dict V → Dict V
  place k v [] = (k, v) ∷ []
  place k v ((j, w) ∷ d) =
      let rest = place k v d in if text_lt k j then (k, v) ∷ (j, w) ∷ d else (j, w) ∷ rest

  unfoldable pub sorted_items : Dict V → Dict V
  unfolding place
  sorted_items [] = []
  sorted_items ((k, v) ∷ d) = place k v (sorted_items d)

  place_all :
      (P : Text → Type 0) (k : Text) (v : V) (d : Dict V)
      → P k
      → All P (keys d)
      → All P (keys (place k v d))
  unfolding place
  place_all P k v [] p h = (p, tt)
  place_all P k v ((j, w) ∷ d) p (q, h) = elim (Bool-cases (text_lt k j)) [
    | inl before ↦ rw before (p, (q, h))
    | inr behind ↦ rw behind (q, place_all P k v d p h)
  ]

  sorted_items_all :
      (P : Text → Type 0) (d : Dict V) → All P (keys d) → All P (keys (sorted_items d))
  unfolding sorted_items
  sorted_items_all P [] h = tt
  sorted_items_all P ((k, v) ∷ d) (p, h) =
      place_all P k v (sorted_items d) p (sorted_items_all P d h)

  -- A name placed among others in order is in order with them.
  place-IsAscending :
      (k : Text) (v : V) (d : Dict V)
      → All (λ j. k ≢ j) (keys d)
      → IsAscending (keys d)
      → IsAscending (keys (place k v d))
  unfolding place
  place-IsAscending k v [] new h = (tt, tt)
  place-IsAscending k v ((j, w) ∷ d) (ne, new) (above, h) = elim (Bool-cases (text_lt k j)) [
    | inl before ↦
        rw before
          ((before, All-map (λ i lt. text_lt_trans k j i before lt) (keys d) above), (above, h))
    | inr behind ↦
        let after : text_lt j k ≡ true = ground (arith, text_lt_total k j) in
        rw behind
          (place_all (λ i. text_lt j i ≡ true) k v d after above, place-IsAscending k v d new h)
  ]

  pub sorted_items-IsAscending :
      (d : Dict V) → Distinct (keys d) → IsAscending (keys (sorted_items d))
  unfolding sorted_items
  sorted_items-IsAscending [] h = tt
  sorted_items-IsAscending ((k, v) ∷ d) (new, h) =
      place-IsAscending k v (sorted_items d) (sorted_items_all (λ j. k ≢ j) d new)
        (sorted_items-IsAscending d h)

  lookup-place :
      (l k : Text) (v : V) (d : Dict V)
      → All (λ j. k ≢ j) (keys d)
      → lookup l (place k v d) ≡ (if text_eq k l then some v else lookup l d)
  unfolding place lookup
  lookup-place l k v [] h = refl
  lookup-place l k v ((j, w) ∷ d) (ne, h) =
      ground (arith, text_eq_iff k l, text_eq_iff j l, lookup-place l k v d h)

  -- Sorting keeps what is stored under every name.
  pub lookup-sorted_items :
      (l : Text) (d : Dict V) → Distinct (keys d) → lookup l (sorted_items d) ≡ lookup l d
  unfolding sorted_items lookup
  lookup-sorted_items l [] h = refl
  lookup-sorted_items l ((k, v) ∷ d) (new, h) =
      lookup-place l k v (sorted_items d) (sorted_items_all (λ j. k ≢ j) d new)
      ∙ ap (λ o. if text_eq k l then some v else o) (lookup-sorted_items l d h)
