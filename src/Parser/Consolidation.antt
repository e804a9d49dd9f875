-- ===== src/Parser/Consolidation.antt =====
-- What the consolidation functions of lib/snmpy/parser.py return for numbers.
use snmpy.Shared.{
  All, Bool-cases, List, [], arith, inl, inr, map, refl, ◌+◌, ◌∷◌, ◌≡◌, ◌≤◌, ◌⊎◌, ap, length, ok,
  sym, ℕ, ◌*◌, ◌<◌, ◌∙◌, length-map, ok-injective, ok_of_bind, suc,
}
use snmpy.Shared.Values.{int, Value, str}
use snmpy.Shared.Int.{ltb_ℤ, neg_part, pos_part, ℤ, div_ℤ, negsuc, pos, ◌+ℤ◌}
use snmpy.Parser.{
  min_from, value_lt, cdef_avg, cdef_len, cdef_max, cdef_min, cdef_sum, consolidate, max_from,
  max_of, min_of, native_all, sum_from,
}
use snmpy.Shared.Text.{Text}
use snmpy.Mibgen.Syntax.{int_type, NativeType, to_native}

infix 50 ◌≤ℤ◌
abbrev pub ◌≤ℤ◌ : ℤ → ℤ → Type 0
a ≤ℤ b = pos_part a + neg_part b ≤ pos_part b + neg_part a

abbrev pub In : ℤ → List ℤ → Type 0
In a [] = ⊥
In a (z ∷ zs) = (a ≡ z) ⊎ In a zs

abbrev pub IsMin : ℤ → List ℤ → Type 0
IsMin m zs = In m zs × All (λ z. m ≤ℤ z) zs

abbrev pub IsMax : ℤ → List ℤ → Type 0
IsMax m zs = In m zs × All (λ z. z ≤ℤ m) zs

All-trans_le : (m k : ℤ) (zs : List ℤ) → m ≤ℤ k → All (λ z. k ≤ℤ z) zs → All (λ z. m ≤ℤ z) zs
All-trans_le m k [] h hs = tt
All-trans_le m k (z ∷ zs) h (le, hs) = (omega arith, All-trans_le m k zs h hs)

min_from_lem :
    (m : ℤ) (zs : List ℤ)
    → (r : ℤ) × (min_from (int m) (map int zs) ≡ int r)
      × (r ≤ℤ m)
      × All (λ z. r ≤ℤ z) zs
      × ((r ≡ m) ⊎ In r zs)
unfolding min_from value_lt
min_from_lem m [] = (m, refl, omega arith, tt, inl refl)
min_from_lem m (z ∷ zs) = elim (Bool-cases (ltb_ℤ z m)) [
  | inl less ↦
      let (r, e, le, all, from) = min_from_lem z zs in
      (r, rw (less, min_from) e, ground arith, (le, all), inr from)
  | inr not_less ↦
      let (r, e, le, all, from) = min_from_lem m zs in
      (
        r,
        rw (not_less, min_from) e,
        le,
        (ground arith, all),
        elim from [ inl same ↦ inl same | inr later ↦ inr (inr later) ],
      )
]

max_from_lem :
    (m : ℤ) (zs : List ℤ)
    → (r : ℤ) × (max_from (int m) (map int zs) ≡ int r)
      × (m ≤ℤ r)
      × All (λ z. z ≤ℤ r) zs
      × ((r ≡ m) ⊎ In r zs)
unfolding max_from value_lt
max_from_lem m [] = (m, refl, omega arith, tt, inl refl)
max_from_lem m (z ∷ zs) = elim (Bool-cases (ltb_ℤ m z)) [
  | inl less ↦
      let (r, e, le, all, from) = max_from_lem z zs in
      (r, rw (less, max_from) e, ground arith, (le, all), inr from)
  | inr not_less ↦
      let (r, e, le, all, from) = max_from_lem m zs in
      (
        r,
        rw (not_less, max_from) e,
        le,
        (ground arith, all),
        elim from [ inl same ↦ inl same | inr later ↦ inr (inr later) ],
      )
]

-- The sum of the numbers.
pub sum : List ℤ → ℤ
unfolding ◌+ℤ◌
sum [] = pos 0
sum (z ∷ zs) = z +ℤ sum zs

+ℤ_assoc : (a b c : ℤ) → a +ℤ b +ℤ c ≡ a +ℤ (b +ℤ c)
unfolding ◌+ℤ◌
+ℤ_assoc a b c = ground arith

+ℤ-zero : (a : ℤ) → a +ℤ pos 0 ≡ a
unfolding ◌+ℤ◌
+ℤ-zero a = ground arith

zero-+ℤ : (a : ℤ) → pos 0 +ℤ a ≡ a
unfolding ◌+ℤ◌
zero-+ℤ a = ground arith

sum_from-eq-sum : (acc : ℤ) (zs : List ℤ) → sum_from acc (map int zs) ≡ ok (acc +ℤ sum zs)
unfolding sum_from sum
sum_from-eq-sum acc [] = ap ok (sym (+ℤ-zero acc))
sum_from-eq-sum acc (z ∷ zs) = sum_from-eq-sum (acc +ℤ z) zs ∙ ap ok (+ℤ_assoc acc z (sum zs))

-- `q` is the quotient of `s` by `d`, rounded down.
abbrev pub IsFloor : ℤ → ℕ → ℤ → Type 0
IsFloor (pos s) d (pos q) = (q * d ≤ s) × (s < q * d + d)
IsFloor (negsuc s) d (negsuc q) = (q * d ≤ s) × (s < q * d + d)
IsFloor _ _ _ = ⊥

div_ℤ-IsFloor : (s : ℤ) (d : ℕ) → 0 < d → IsFloor s d (div_ℤ s d)
div_ℤ-IsFloor (pos s) d h = (grind arith, grind arith)
div_ℤ-IsFloor (negsuc s) d h = (grind arith, grind arith)

length-native_all :
    (k : NativeType) (l : List Text) (vs : List Value)
    → native_all k l ≡ ok vs
    → length l ≡ length vs
unfolding native_all
length-native_all k [] vs e = ap length (ok-injective e)
length-native_all k (s ∷ ss) vs e =
    let (v, _, e') = ok_of_bind (to_native k (str s)) _ e in
    let (ws, rest, made) = ok_of_bind (native_all k ss) _ e' in
    ap suc (length-native_all k ss ws rest) ∙ ap length (ok-injective made)

-- For matches that all convert to integers, of which there is at least one: `min` and `max` return
-- the least and the greatest of them, `sum` their sum, `len` their number, and `avg` their mean,
-- rounded down.
pub consolidate_numbers :
    (s : Text) (ss : List Text) (z : ℤ) (zs : List ℤ)
    → native_all int_type (s ∷ ss) ≡ ok (map int (z ∷ zs))
    → ((m : ℤ) × (consolidate cdef_min (s ∷ ss) int_type ≡ ok (int m)) × IsMin m (z ∷ zs))
      × ((m : ℤ) × (consolidate cdef_max (s ∷ ss) int_type ≡ ok (int m)) × IsMax m (z ∷ zs))
      × (consolidate cdef_sum (s ∷ ss) int_type ≡ ok (int (sum (z ∷ zs))))
      × (consolidate cdef_len (s ∷ ss) int_type ≡ ok (int (pos (length (z ∷ zs)))))
      × ((q : ℤ) × (consolidate cdef_avg (s ∷ ss) int_type ≡ ok (int q))
          × IsFloor (sum (z ∷ zs)) (length (z ∷ zs)) q)
unfolding consolidate min_of max_of
consolidate_numbers s ss z zs e =
    let (least, e_min, le_min, all_min, from_min) = min_from_lem z zs in
    let (greatest, e_max, le_max, all_max, from_max) = max_from_lem z zs in
    let total = sum_from-eq-sum (pos 0) (z ∷ zs) ∙ ap ok (zero-+ℤ (sum (z ∷ zs))) in
    let n : length (s ∷ ss) ≡ length (z ∷ zs) =
      length-native_all int_type (s ∷ ss) (map int (z ∷ zs)) e ∙ length-map int (z ∷ zs) in
    (
      (least, rw (e, consolidate, min_of) (ap ok e_min), (from_min, (le_min, all_min))),
      (greatest, rw (e, consolidate, max_of) (ap ok e_max), (from_max, (le_max, all_max))),
      rw (e, total, consolidate) refl,
      ap (λ k. ok (int (pos k))) n,
      (
        div_ℤ (sum (z ∷ zs)) (length (z ∷ zs)),
        rw (e, total, consolidate) (ap (λ k. ok (int (div_ℤ (sum (z ∷ zs)) k))) n),
        div_ℤ-IsFloor (sum (z ∷ zs)) (length (z ∷ zs)) (omega arith),
      ),
    )
