-- ===== src/Mibgen/Names/Joined.antt =====
-- Object names of keys that are joined (lib/snmpy/mibgen.py).
use snmpy.Shared.{
  Bool-cases, List, [], ap, append_assoc, inl, inr, ok, ok-injective, ok_of_bind, refl, subst, sym,
  ℕ, ◌++◌, ◌==◌, ◌>>=◌, ◌∙◌, ◌∷◌, ◌≡◌,
}
use snmpy.Shared.Text.{Text, onto_head, split, codes, join}
use snmpy.Mibgen.Names.{camel_case, capitalize, capitalize_all, get_oidstr, key_prefix, mib_module}

onto_head-append :
    (c : ℕ) (l r : List Text)
    → (p : Text) × (ps : List Text) × (l ≡ p ∷ ps)
    → onto_head c (l ++ r) ≡ onto_head c l ++ r
onto_head-append c l r (p, ps, e) = rw e refl

split_parts : (s : Text) → (p : Text) × (ps : List Text) × (split b'_' s ≡ p ∷ ps)
unfolding split
split_parts [] = ([], [], refl)
split_parts (c ∷ s) = elim (Bool-cases (c == b'_')) [
  | inl bar ↦ ([], split b'_' s, rw (bar, split) refl)
  | inr other ↦ let (p, ps, e) = split_parts s in (c ∷ p, ps, rw (other, e) refl)
]

split-append : (s t : Text) → split b'_' (s ++ b'_' ∷ t) ≡ split b'_' s ++ split b'_' t
unfolding split
split-append [] t = refl
split-append (c ∷ s) t = elim (Bool-cases (c == b'_')) [
  | inl bar ↦ rw (bar, split) (ap (λ l. [] ∷ l) (split-append s t))
  | inr other ↦
      rw (other, split-append s t)
        (onto_head-append c (split b'_' s) (split b'_' t) (split_parts s))
]

capitalize_all-append :
    (l r : List Text) (big : Text)
    → capitalize_all (l ++ r) ≡ ok big
    → (s t : Text) × (capitalize_all l ≡ ok s) × (capitalize_all r ≡ ok t) × (big ≡ s ++ t)
unfolding capitalize_all
capitalize_all-append [] r big h = ([], big, refl, h, refl)
capitalize_all-append (p ∷ l) r big h =
    let (s, made, h') =
      ok_of_bind (capitalize p) (λ t. capitalize_all (l ++ r) >>= (λ ts. ok (t ++ ts))) h in
    let (ts, rest, h'') = ok_of_bind (capitalize_all (l ++ r)) (λ ts. ok (s ++ ts)) h' in
    let (a, b, hl, hr, e) = capitalize_all-append l r ts rest in
    (
      s ++ a,
      b,
      rw (made, hl) refl,
      hr,
      sym (ok-injective h'') ∙ ap (λ t. s ++ t) e ∙ sym (append_assoc s a b),
    )

-- The camel case of two keys joined is made of that of each.
pub camel_case-joined :
    (s t big : Text)
    → camel_case (s ++ b'_' ∷ t) ≡ ok big
    → (a b : Text) × (camel_case s ≡ ok a) × (camel_case t ≡ ok b) × (big ≡ a ++ b)
unfolding camel_case
camel_case-joined s t big h =
    capitalize_all-append (split b'_' s) (split b'_' t) big
      (subst (λ l. capitalize_all l ≡ ok big) (split-append s t) h)

-- The parts that a name registered for two keys is made of.
pub get_oidstr_parts :
    (s t oidstr : Text)
    → get_oidstr (s ∷ t ∷ []) ≡ ok oidstr
    → (a b : Text) × (camel_case s ≡ ok a)
      × (camel_case t ≡ ok b)
      × (oidstr ≡ mib_module ++ codes "::" ++ key_prefix ++ (a ++ b))
unfolding get_oidstr camel_case join
get_oidstr_parts s t oidstr h =
    let key = (s ++ (b'_' ∷ [])) ++ t in
    let (big, made, e) =
      ok_of_bind (capitalize_all (split b'_' key))
        (λ t. ok (mib_module ++ codes "::" ++ key_prefix ++ t)) h in
    let (a, b, ha, hb, joined) =
      camel_case-joined s t big
        (subst (λ k. camel_case k ≡ ok big) (append_assoc s (b'_' ∷ []) t) made) in
    (
      a,
      b,
      ha,
      hb,
      sym (ok-injective e) ∙ ap (λ t. mib_module ++ codes "::" ++ key_prefix ++ t) joined,
    )
