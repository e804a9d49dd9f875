-- ===== src/Mibgen/Names/Injective.antt =====
-- When two configuration names give one MIB object name (lib/snmpy/mibgen.py).
use snmpy.Shared.{
  All, List, [], arith, if◌then◌else◌, map, ok, refl, true, ℕ, ◌++◌, ◌+◌, ◌||◌, ◌∷◌, ◌≡◌,
  Bool-cases, ap, inl, inr, ok-injective, ok_of_bind, subst, sym, ◌==◌, ◌∙◌,
}
use snmpy.Shared.Text.{Text, is_digit, is_lower, is_upper, lower, split, upper, onto_head}
use snmpy.Mibgen.Names.{capitalize, capitalize_all, camel_case}

-- A name in the form that the documentation uses: words of lower case letters and digits that start
-- with a letter, joined by single underscores.
abbrev pub IsTail : ℕ → Type 0
IsTail c = (is_lower c || is_digit c) ≡ true

abbrev pub IsWord : Text → Type 0
IsWord [] = ⊥
IsWord (c ∷ s) = (is_lower c ≡ true) × All IsTail s

-- The words behind an underscore each.
abbrev spell : List Text → Text
spell [] = []
spell (w ∷ ws) = b'_' ∷ (w ++ spell ws)

-- The way back: a capital starts a word.
uncamel : Text → Text
uncamel [] = []
uncamel (c ∷ s) = if is_upper c then b'_' ∷ (c + 32) ∷ uncamel s else c ∷ uncamel s

uncamel-map-lower :
    (s rest : Text) → All IsTail s → uncamel (map lower s ++ rest) ≡ s ++ uncamel rest
unfolding uncamel lower
uncamel-map-lower [] rest h = refl
uncamel-map-lower (c ∷ s) rest (h, hs) = ground (arith, uncamel-map-lower s rest hs)

uncamel-upper :
    (c : ℕ) (rest : Text) → is_lower c ≡ true → uncamel (upper c ∷ rest) ≡ b'_' ∷ c ∷ uncamel rest
unfolding uncamel upper
uncamel-upper c rest h = ground arith

uncamel-capitalize_all :
    (ws : List Text) (t : Text) → All IsWord ws → capitalize_all ws ≡ ok t → uncamel t ≡ spell ws
unfolding uncamel capitalize_all capitalize
uncamel-capitalize_all [] t h e = subst (λ u. uncamel u ≡ []) (ok-injective e) refl
uncamel-capitalize_all ([] ∷ ws) t h e = absurd h.0
uncamel-capitalize_all ((c ∷ s) ∷ ws) t ((hc, hs), h) e =
    let (u, rest, done) = ok_of_bind (capitalize_all ws) _ e in
    subst (λ v. uncamel v ≡ spell ((c ∷ s) ∷ ws)) (ok-injective done)
      (uncamel-upper c (map lower s ++ u) hc
        ∙ ap (λ r. b'_' ∷ c ∷ r)
            (uncamel-map-lower s u hs ∙ ap (λ r. s ++ r) (uncamel-capitalize_all ws u h rest)))

spell-onto_head :
    (x : ℕ) (ps : List Text) (s : Text)
    → spell ps ≡ b'_' ∷ s
    → spell (onto_head x ps) ≡ b'_' ∷ x ∷ s
spell-onto_head x [] s h = cc
spell-onto_head x (p ∷ ps) s h = ap (λ u. b'_' ∷ x ∷ u) (ground arith)

-- The parts of a key spell it.
spell-split : (s : Text) → spell (split b'_' s) ≡ b'_' ∷ s
unfolding split
spell-split [] = refl
spell-split (c ∷ s) = elim (Bool-cases (c == b'_')) [
  | inl sep ↦ rw (sep, split) (ground (arith, spell-split s))
  | inr other ↦ rw (other, split) (spell-onto_head c (split b'_' s) s (spell-split s))
]

-- A key of the documented form.
abbrev pub IsName : Text → Type 0
IsName key = All IsWord (split b'_' key)

uncamel-camel_case : (key t : Text) → IsName key → camel_case key ≡ ok t → uncamel t ≡ b'_' ∷ key
unfolding camel_case
uncamel-camel_case key t h e = uncamel-capitalize_all (split b'_' key) t h e ∙ spell-split key

capitalize_all_ok : (ws : List Text) → All IsWord ws → (t : Text) × (capitalize_all ws ≡ ok t)
unfolding capitalize_all capitalize
capitalize_all_ok [] h = ([], refl)
capitalize_all_ok ([] ∷ ws) h = absurd h.0
capitalize_all_ok ((c ∷ s) ∷ ws) (_, h) =
    let (t, e) = capitalize_all_ok ws h in ((upper c ∷ map lower s) ++ t, rw e refl)

-- Keys whose words are lower case letters and digits, each starting with a letter, have an object
-- name, and different keys have different ones.
pub camel_case-injective :
    (k j : Text)
    → IsName k
    → IsName j
    → camel_case k ≡ camel_case j
    → ((t : Text) × (camel_case k ≡ ok t)) × (k ≡ j)
unfolding camel_case
camel_case-injective k j hk hj e =
    let (t, made) = capitalize_all_ok (split b'_' k) hk in
    let both : b'_' ∷ k ≡ b'_' ∷ j =
      sym (uncamel-camel_case k t hk made) ∙ uncamel-camel_case j t hj (sym e ∙ made) in
    ((t, made), cc)
