-- ===== src/Mibgen/Syntax/Prefixes.antt =====
-- The types that `get_syntax` of lib/snmpy/mibgen.py tells apart, by the prefixes of their names.
use snmpy.Shared.{
  Bool, List, [], append-nil, append_assoc, arith, false, map, refl, sym, ◌++◌, ◌||◌, ◌∷◌, ◌≡◌,
  Bool-cases, ap, if◌then◌else◌, inl, inr, true, ◌==◌, ◌∙◌, ◌⊎◌,
}
use snmpy.Shared.Text.{Text, starts_with, codes}
use snmpy.Mibgen.Syntax.{
  Pattern, alt, lit, on_each, opt, rests, seq, strip_prefix, any_rest, counter64_syntax, get_syntax,
  integer32_pattern, integer32_syntax, matches, octet_string_syntax, counter64_pattern,
}

abbrev pub any_prefix : Text → List Text → Bool
any_prefix s [] = false
any_prefix s (p ∷ ps) = starts_with s p || any_prefix s ps

-- Every text that a pattern stands for.
words : Pattern → List Text
words (lit p) = p ∷ []
words (seq a b) = on_each (λ p. map (λ q. p ++ q) (words b)) (words a)
words (alt a b) = words a ++ words b
words (opt a) = words a ++ [] ∷ []

on_each-append :
    (f : Text → List Text) (xs ys : List Text) → on_each f (xs ++ ys) ≡ on_each f xs ++ on_each f ys
on_each-append f [] ys = refl
on_each-append f (x ∷ xs) ys = rw (on_each-append f xs ys, append_assoc)

strip_prefix-append :
    (p q s : Text) → strip_prefix s (p ++ q) ≡ on_each (λ r. strip_prefix r q) (strip_prefix s p)
strip_prefix-append [] q s = sym (append-nil _)
strip_prefix-append (c ∷ p) q [] = refl
strip_prefix-append (c ∷ p) q (d ∷ s) = ground (arith, strip_prefix-append p q s)

strip_prefix-cases :
    (p s : Text) → (strip_prefix s p ≡ []) ⊎ ((r : Text) × (strip_prefix s p ≡ r ∷ []))
strip_prefix-cases [] s = inr (s, refl)
strip_prefix-cases (c ∷ p) [] = inl refl
strip_prefix-cases (c ∷ p) (d ∷ s) = elim (Bool-cases (d == c)) [
  | inl same ↦ rw same (strip_prefix-cases p s)
  | inr other ↦ rw other (inl refl)
]

module _ (p s : Text) where
  words_behind :
      (r : Text) (vs : List Text)
      → strip_prefix s p ≡ r ∷ []
      → on_each (strip_prefix s) (map (λ q. p ++ q) vs) ≡ on_each (strip_prefix r) vs
  words_behind r [] e = refl
  words_behind r (v ∷ vs) e =
      rw (strip_prefix-append p v s, e, words_behind r vs e)
        (ap (λ l. l ++ on_each (strip_prefix r) vs) (append-nil _))

  no_words_behind :
      (vs : List Text)
      → strip_prefix s p ≡ []
      → on_each (strip_prefix s) (map (λ q. p ++ q) vs) ≡ []
  no_words_behind [] e = refl
  no_words_behind (v ∷ vs) e = rw (strip_prefix-append p v s, e, no_words_behind vs e)

  rests_behind :
      (f : Text → List Text) (vs : List Text)
      → ((r : Text) → f r ≡ on_each (strip_prefix r) vs)
      → on_each f (strip_prefix s p) ≡ on_each (strip_prefix s) (map (λ q. p ++ q) vs)
  rests_behind f vs h = elim (strip_prefix-cases p s) [
    | inl nothing ↦ rw (nothing, no_words_behind vs nothing)
    | inr (r, found) ↦ rw (found, words_behind r vs found) (append-nil _ ∙ h r)
  ]

on_each_behind :
    (f : Text → List Text) (s : Text) (ws vs : List Text)
    → ((r : Text) → f r ≡ on_each (strip_prefix r) vs)
    → on_each f (on_each (strip_prefix s) ws)
      ≡ on_each (strip_prefix s) (on_each (λ p. map (λ q. p ++ q) vs) ws)
on_each_behind f s [] vs h = refl
on_each_behind f s (w ∷ ws) vs h = rw (
  on_each-append f (strip_prefix s w),
  on_each-append (strip_prefix s),
  rests_behind w s f vs h,
  on_each_behind f s ws vs h,
)

-- The rests of a pattern are those of its words.
rests-words : (p : Pattern) (s : Text) → rests p s ≡ on_each (strip_prefix s) (words p)
unfolding rests words
rests-words (lit p) s = sym (append-nil _)
rests-words (seq a b) s =
    rw (rests-words a s) (on_each_behind (rests b) s (words a) (words b) (rests-words b))
rests-words (alt a b) s = rw (rests-words a s, rests-words b s, on_each-append)
rests-words (opt a) s = rw (rests-words a s, on_each-append)

starts_with-strip_prefix : (s p : Text) → any_rest (strip_prefix s p) ≡ starts_with s p
unfolding starts_with
starts_with-strip_prefix s [] = refl
starts_with-strip_prefix [] (c ∷ p) = refl
starts_with-strip_prefix (d ∷ s) (c ∷ p) = ground (arith, starts_with-strip_prefix s p)

any_rest-append : (xs ys : List Text) → any_rest (xs ++ ys) ≡ (any_rest xs || any_rest ys)
any_rest-append [] ys = refl
any_rest-append (x ∷ xs) ys = refl

any_rest-on_each :
    (s : Text) (ws : List Text) → any_rest (on_each (strip_prefix s) ws) ≡ any_prefix s ws
any_rest-on_each s [] = refl
any_rest-on_each s (w ∷ ws) =
    rw (any_rest-append, starts_with-strip_prefix s w, any_rest-on_each s ws)

-- A pattern is found at the start of a text exactly when one of its words is.
matches-words : (p : Pattern) (s : Text) → matches p s ≡ any_prefix s (words p)
unfolding matches
matches-words p s = rw (rests-words p s) (any_rest-on_each s (words p))

abbrev pub counter64_names : List Text
counter64_names =
    codes "long" ∷ codes "integer64" ∷ codes "int64" ∷ codes "counter64" ∷ codes "count64" ∷ []

abbrev pub integer32_names : List Text
integer32_names = codes "int" ∷ codes "count" ∷ []

starts_with-append : (s p q : Text) → starts_with s (p ++ q) ≡ true → starts_with s p ≡ true
unfolding starts_with
starts_with-append s [] q h = ground arith
starts_with-append [] (c ∷ p) q h = h
starts_with-append (d ∷ s) (c ∷ p) q h = ground (arith, starts_with-append s p q)

integer32_prefixes :
    (s : Text) → any_prefix s (words integer32_pattern) ≡ any_prefix s integer32_names
unfolding words
integer32_prefixes s = ground (
  arith,
  starts_with-append s (codes "int") (codes "eger32"),
  starts_with-append s (codes "int") (codes "eger"),
  starts_with-append s (codes "int") (codes "32"),
  starts_with-append s (codes "count") (codes "32"),
)

-- A type name is a Counter64 if it begins with one of `long`, `integer64`, `int64`, `counter64` and
-- `count64`; otherwise an Integer32 if it begins with `int` or `count`; otherwise a string. What
-- stands behind the prefix is not looked at.
pub get_syntax_lem :
    (key : Text)
    → get_syntax key ≡ (
        if any_prefix key counter64_names
        then counter64_syntax
        else if any_prefix key integer32_names
        then integer32_syntax
        else octet_string_syntax)
unfolding get_syntax words
get_syntax_lem key = rw (
  matches-words counter64_pattern key,
  matches-words integer32_pattern key,
  integer32_prefixes key,
)
