-- ===== src/Shared/Dicts.antt =====
-- Python's `dict` and `OrderedDict` with text keys: an assignment to a new key goes to the end, one to
-- an old key keeps its place.
use mathlib.Core.Path.{◌≡◌, refl, ap, subst, sym, ◌∙◌}
use mathlib.Core.Bool.{Bool, true, false}
use mathlib.Core.Option.{Option, none, some}
use mathlib.Core.Logic.{◌≢◌, inl, inr}
use mathlib.Core.List.{List, [], ◌∷◌, ◌++◌}
use native.Mathlib.Omega.{arith}
use snmpy.Shared.Lists.{All, Distinct, Distinct-append_one}
use snmpy.Shared.Tests.{Bool-cases, Option-cases, is_some, if◌then◌else◌}
use snmpy.Shared.Text.{Text, text_eq, text_eq_iff, text_eq_refl}

abbrev pub Dict {ℓ} : Type ℓ → Type ℓ
Dict V = List (Text × V)

module _ {ℓ} {V : Type ℓ} where
  -- d.get(k)
  unfoldable pub lookup : Text → Dict V → Option V
  lookup k [] = none
  lookup k ((j, v) ∷ d) = if text_eq j k then some v else lookup k d

  -- d[k] = v
  unfoldable pub insert : Text → V → Dict V → Dict V
  insert k v [] = (k, v) ∷ []
  insert k v ((j, w) ∷ d) = if text_eq j k then (j, v) ∷ d else (j, w) ∷ insert k v d

  abbrev pub keys : Dict V → List Text
  keys [] = []
  keys ((k, _) ∷ d) = k ∷ keys d

  abbrev pub values : Dict V → List V
  values [] = []
  values ((_, v) ∷ d) = v ∷ values d

  -- k in d
  abbrev pub has_key : Text → Dict V → Bool
  has_key k d = is_some (lookup k d)

  pub lookup_nil : (k : Text) → lookup k [] ≡ none
  unfolding lookup
  lookup_nil k = refl

  pub lookup_cons :
      (k j : Text) (v : V) (d : Dict V)
      → lookup k ((j, v) ∷ d) ≡ (if text_eq j k then some v else lookup k d)
  unfolding lookup
  lookup_cons k j v d = refl

  pub lookup-insert :
      (k j : Text) (v : V) (d : Dict V)
      → lookup j (insert k v d) ≡ (if text_eq k j then some v else lookup j d)
  unfolding lookup insert
  lookup-insert k j v [] = refl
  lookup-insert k j v ((i, w) ∷ d) =
      ground (arith, text_eq_iff k j, text_eq_iff i k, text_eq_iff i j, lookup-insert k j v d)

  pub insert_new :
      (k : Text) (v : V) (d : Dict V) → lookup k d ≡ none → insert k v d ≡ d ++ (k, v) ∷ []
  unfolding lookup insert
  insert_new k v [] h = refl
  insert_new k v ((i, w) ∷ d) h = ground (arith, insert_new k v d)

  pub keys-insert_old :
      (k : Text) (v w : V) (d : Dict V) → lookup k d ≡ some w → keys (insert k v d) ≡ keys d
  unfolding lookup insert
  keys-insert_old k v w [] h = cc
  keys-insert_old k v w ((i, u) ∷ d) h = ground (arith, keys-insert_old k v w d)

  pub keys-append : (d : Dict V) (k : Text) (v : V) → keys (d ++ (k, v) ∷ []) ≡ keys d ++ k ∷ []
  keys-append [] k v = refl
  keys-append ((i, w) ∷ d) k v = ap (λ l. i ∷ l) (keys-append d k v)

  -- A key that is not found is none of the keys.
  pub keys_of_none : (k : Text) (d : Dict V) → lookup k d ≡ none → All (λ j. j ≢ k) (keys d)
  unfolding lookup
  keys_of_none k [] h = tt
  keys_of_none k ((i, v) ∷ d) h = (ground (arith, text_eq_iff i k), keys_of_none k d (ground arith))

  -- An assignment keeps the keys distinct.
  pub insert-Distinct :
      (k : Text) (v : V) (d : Dict V) → Distinct (keys d) → Distinct (keys (insert k v d))
  insert-Distinct k v d h = elim (Option-cases (lookup k d)) [
    | inl none' ↦
        subst (λ e. Distinct (keys e)) (sym (insert_new k v d none'))
          (subst Distinct (sym (keys-append d k v))
            (Distinct-append_one (keys d) k h (keys_of_none k d none')))
    | inr (w, found) ↦ subst Distinct (sym (keys-insert_old k v w d found)) h
  ]

  -- d.update(more)
  unfoldable pub update_with : Dict V → Dict V → Dict V
  update_with [] d = d
  update_with ((k, v) ∷ more) d = update_with more (insert k v d)

  -- A key that is not in what is added keeps its value.
  pub lookup-update_with :
      (k : Text) (more d : Dict V)
      → lookup k more ≡ none
      → lookup k (update_with more d) ≡ lookup k d
  unfolding update_with lookup
  lookup-update_with k [] d h = refl
  lookup-update_with k ((j, v) ∷ more) d h = elim (Bool-cases (text_eq j k)) [
    | inl same ↦ absurd (ground arith)
    | inr other ↦
        lookup-update_with k more (insert j v d) (ground arith)
        ∙ (lookup-insert j k v d ∙ ap (λ b. if b then some v else lookup k d) other)
  ]

in_keys : Text → List Text → Bool
in_keys k [] = false
in_keys k (j ∷ ks) = if text_eq j k then true else in_keys k ks

module _ {ℓ} {V : Type ℓ} where
  has_key-cons :
      (j : Text) (v : V) (d : Dict V) (ks : List Text)
      → All (λ k. has_key k d ≡ true) ks
      → All (λ k. has_key k ((j, v) ∷ d) ≡ true) ks
  has_key-cons j v d [] h = tt
  has_key-cons j v d (k ∷ ks) (h, hs) =
      (rw (lookup_cons k j v d) (ground arith), has_key-cons j v d ks hs)

  pub has_own_keys : (d : Dict V) → All (λ k. has_key k d ≡ true) (keys d)
  has_own_keys [] = tt
  has_own_keys ((j, v) ∷ d) =
      (rw (lookup_cons j j v d, text_eq_refl j) refl, has_key-cons j v d (keys d) (has_own_keys d))

  has_key-in_keys : (k : Text) (d : Dict V) → has_key k d ≡ in_keys k (keys d)
  unfolding lookup in_keys
  has_key-in_keys k [] = refl
  has_key-in_keys k ((j, v) ∷ d) = ground (arith, has_key-in_keys k d)

  -- Which keys are found depends on the keys alone.
  pub has_key-keys : (k : Text) (d e : Dict V) → keys d ≡ keys e → has_key k d ≡ has_key k e
  has_key-keys k d e h = has_key-in_keys k d ∙ ap (in_keys k) h ∙ sym (has_key-in_keys k e)
