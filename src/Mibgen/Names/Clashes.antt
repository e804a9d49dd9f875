-- ===== src/Mibgen/Names/Clashes.antt =====
-- Configuration names that share one MIB object name (lib/snmpy/mibgen.py).
use snmpy.Shared.{
  All-append, [], append-nil, arith, map-append, refl, true, ℕ, ◌++◌, ◌∷◌, ◌≡◌, ◌≢◌, append_assoc,
  ap, ok, sym, ◌>>=◌, ◌∙◌,
}
use snmpy.Shared.Text.{Lacks, Text, is_digit, lower, split, upper, join, codes}
use snmpy.Mibgen.Names.{camel_case, capitalize, capitalize_all, get_oidstr, key_prefix, mib_module}

split_of_Lacks : (s : Text) → Lacks b'_' s → split b'_' s ≡ s ∷ []
unfolding split
split_of_Lacks [] h = refl
split_of_Lacks (c ∷ s) (h, hs) = ground (arith, split_of_Lacks s hs)

split-append_underscore :
    (a s : Text) → Lacks b'_' a → split b'_' (a ++ b'_' ∷ s) ≡ a ∷ split b'_' s
unfolding split
split-append_underscore [] s h = ground arith
split-append_underscore (c ∷ a) s (h, hs) = ground (arith, split-append_underscore a s hs)

digit_has_no_case : (c : ℕ) → is_digit c ≡ true → upper c ≡ lower c
unfolding upper lower
digit_has_no_case c h = ground arith

-- An underscore between a word and a digit does not show: the two names have one object name.
pub camel_case_clash :
    (a d : Text) (b c : ℕ)
    → Lacks b'_' (b ∷ a)
    → Lacks b'_' (c ∷ d)
    → is_digit c ≡ true
    → camel_case ((b ∷ a) ++ b'_' ∷ c ∷ d) ≡ camel_case ((b ∷ a) ++ c ∷ d)
unfolding camel_case capitalize_all capitalize
camel_case_clash a d b c ha hd digit =
    rw
      (
        split-append_underscore (b ∷ a) (c ∷ d) ha,
        split_of_Lacks (c ∷ d) hd,
        split_of_Lacks ((b ∷ a) ++ c ∷ d) (All-append (λ x. x ≢ b'_') (b ∷ a) (c ∷ d) ha hd),
        digit_has_no_case c digit,
      )
      (simp (append-nil, map-append))

-- For every three keys: the first two joined, with the third, have the object name that the first has
-- with the last two joined. So item `c` of plugin `a_b` and item `b_c` of plugin `a` have one name.
pub get_oidstr_regrouped :
    (a b c : Text) → get_oidstr ((a ++ b'_' ∷ b) ∷ c ∷ []) ≡ get_oidstr (a ∷ (b ++ b'_' ∷ c) ∷ [])
unfolding get_oidstr join
get_oidstr_regrouped a b c =
    ap (λ key. camel_case key >>= (λ t. ok (mib_module ++ codes "::" ++ key_prefix ++ t)))
      (append_assoc (a ++ b'_' ∷ b) (b'_' ∷ []) c
        ∙ append_assoc a (b'_' ∷ b) (b'_' ∷ c)
        ∙ sym (append_assoc a (b'_' ∷ []) (b ++ b'_' ∷ c)))
