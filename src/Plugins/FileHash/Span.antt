-- ===== src/Plugins/FileHash/Span.antt =====
-- The bytes that `md5sum` of lib/snmpy/module/file_value.py hashes.
use snmpy.Shared.{
  [], ap, arith, drop, length, min, ok, refl, suc, take, zero, ℕ, ◌++◌, ◌+◌, ◌-◌, ◌∙◌, ◌∷◌, ◌≡◌,
  ◌≤◌, Bool-cases, append_assoc, inl, inr, leb, length-drop, length-take, sym, ◌*◌, ◌<◌, append-nil,
  Result-cases, raise, ◌>>=◌,
}
use snmpy.Shared.Text.{Text}
use snmpy.Shared.Int.{pos, ℤ}
use snmpy.Shared.Numbers.{digits, print_int}
use snmpy.Plugins.FileHash.{HashConf, hash_parts, md5sum, reached, seek, slice_to, span_of}

take_same : (j k : ℕ) (xs : Text) → min j (length xs) ≡ min k (length xs) → take j xs ≡ take k xs
take_same zero zero xs h = refl
take_same zero (suc k) [] h = refl
take_same zero (suc k) (x ∷ xs) h = absurd (omega arith)
take_same (suc j) zero [] h = refl
take_same (suc j) zero (x ∷ xs) h = absurd (omega arith)
take_same (suc j) (suc k) [] h = refl
take_same (suc j) (suc k) (x ∷ xs) h = ap (λ l. x ∷ l) (take_same j k xs (omega arith))

take_none : (k : ℕ) → take {A = ℕ} k [] ≡ []
take_none zero = refl
take_none (suc k) = refl

take_more : (k m n : ℕ) (xs : Text) → n ≡ k + m → take k xs ++ take m (drop k xs) ≡ take n xs
take_more zero m n xs e = ap (λ l. take l xs) (omega arith)
take_more (suc k) m zero xs e = absurd (omega arith)
take_more (suc k) m (suc n) [] e = take_none m
take_more (suc k) m (suc n) (x ∷ xs) e = ap (λ l. x ∷ l) (take_more k m n xs (omega arith))

take-take : (j k n : ℕ) (xs : Text) → n ≡ min j k → take j (take k xs) ≡ take n xs
take-take zero k zero xs e = refl
take-take zero k (suc n) xs e = absurd (omega arith)
take-take (suc j) zero zero xs e = refl
take-take (suc j) zero (suc n) xs e = absurd (omega arith)
take-take (suc j) (suc k) zero xs e = absurd (omega arith)
take-take (suc j) (suc k) (suc n) [] e = refl
take-take (suc j) (suc k) (suc n) (x ∷ xs) e = ap (λ l. x ∷ l) (take-take j k n xs (omega arith))

slice-take :
    (end num k : ℕ) (rest : Text)
    → num ≤ end
    → slice_to (pos end) num (take k rest) ≡ take (min (end - num) k) rest
unfolding slice_to
slice-take end num k rest h =
    let e : slice_to (pos end) num (take k rest) ≡ take (end - num) (take k rest) = ground arith in
    e ∙ take-take (end - num) k (min (end - num) k) rest refl

-- The state after one part of `b` bytes that reach the end.
last_part :
    (b m num : ℕ) (hashed xs : Text)
    → b ≡ m
    → ◌≡◌ {A = ℕ × Text}
        (num + length (take b xs), hashed ++ take b xs)
        (num + min m (length xs), hashed ++ take m xs)
last_part b m num hashed xs e =
    ap (λ k. (num + length (take k xs), hashed ++ take k xs)) e
    ∙ ap (λ k. (num + k, hashed ++ take m xs)) (length-take m xs)

nothing_left :
    (m num : ℕ) (hashed : Text)
    → ◌≡◌ {A = ℕ × Text} (num, hashed) (num + min m 0, hashed ++ take m [])
nothing_left m num hashed =
    let same : num ≡ num + min m 0 = omega arith in
    ap (λ k. (k, hashed)) same
    ∙ ap (λ l. (num + min m 0, l))
        (sym (append-nil hashed) ∙ ap (λ l. hashed ++ l) (sym (take_none m)))

-- The parts joined.
more_parts :
    (b k m m' num : ℕ) (hashed xs : Text)
    → b ≡ min m k
    → min b (length xs) < m
    → m' ≡ m - min b (length xs)
    → ◌≡◌ {A = ℕ × Text}
        (
          num + length (take b xs) + min m' (length (drop k xs)),
          hashed ++ take b xs ++ take m' (drop k xs),
        )
        (num + min m (length xs), hashed ++ take m xs)
more_parts b k m m' num hashed xs part short left =
    let size : num + length (take b xs) + min m' (length (drop k xs)) ≡ num + min m (length xs) =
      omega (arith, length-take b xs, length-drop k xs) in
    ap (λ n. (n, hashed ++ take b xs ++ take m' (drop k xs))) size
    ∙ ap (λ l. (num + min m (length xs), l))
        (append_assoc hashed (take b xs) (take m' (drop k xs))
          ∙ ap (λ l. hashed ++ l)
              (ap (λ l. l ++ take m' (drop k xs)) (take_same b k xs (omega arith))
                ∙ take_more k m' (k + m') xs refl
                ∙ take_same (k + m') m xs (omega arith)))

module _ (block : ℕ) (some_bytes : 0 < block) where
  -- The loop hashes what there is of `end - num` bytes.
  hash_parts_lem :
      (fuel end : ℕ) (rest : Text) (num : ℕ) (hashed : Text)
      → num ≤ end
      → length rest ≤ fuel
      → hash_parts block fuel (pos end) rest (num, hashed)
        ≡ (num + min (end - num) (length rest), hashed ++ take (end - num) rest)
  unfolding hash_parts reached
  hash_parts_lem zero end [] num hashed h enough = nothing_left (end - num) num hashed
  hash_parts_lem zero end (c ∷ rest) num hashed h enough = absurd (omega arith)
  hash_parts_lem (suc fuel) end [] num hashed h enough = nothing_left (end - num) num hashed
  hash_parts_lem (suc fuel) end (c ∷ rest) num hashed h enough =
      let k = 1024 * block in
      let b = min (end - num) k in
      let xs = c ∷ rest in
      let blob = slice-take end num k xs h in
      let size = length-take b xs in
      elim (Bool-cases (leb end (num + length (take b xs)))) [
        | inl at_end ↦
            rw (blob, at_end, hash_parts) (last_part b (end - num) num hashed xs (ground arith))
        | inr goes_on ↦
            rw (blob, goes_on, hash_parts)
              (hash_parts_lem fuel end (drop k xs) (num + length (take b xs)) (hashed ++ take b xs)
                  (ground arith) (omega (arith, length-drop k xs))
                ∙ more_parts b k (end - num) (end - (num + length (take b xs))) num hashed xs refl
                    (ground arith) (ground arith))
      ]

  -- Where the span starts at `beg` and has `end` bytes: what is hashed is the `end` bytes of the file
  -- from `beg` on, or what there is of them, and the span that is shown is `beg` with their number,
  -- however many bytes a block has.
  pub md5sum_lem :
      (md5 : Text → Text) (conf : HashConf) (size : ℕ) (content : Text) (beg end : ℕ)
      → span_of conf size ≡ ok (pos beg, pos end)
      → md5sum block md5 conf size content
        ≡ ok (
          digits beg ++ b':' ∷ digits (min end (length content - beg)),
          md5 (take end (drop beg content)),
        )
  unfolding md5sum seek print_int
  md5sum_lem md5 conf size content beg end e =
      let rest = drop beg content in
      let number : 0 + min (end - 0) (length rest) ≡ min end (length content - beg) =
        omega (arith, length-drop beg content) in
      let hashed : hash_parts block (length rest) (pos end) rest (0, [])
          ≡ (min end (length content - beg), take end rest) =
        hash_parts_lem (length rest) end rest 0 [] (omega arith) (omega arith)
        ∙ ap (λ k. (k, take (end - 0) rest)) number
        ∙ ap (λ k. (min end (length content - beg), take k rest)) (omega arith) in
      rw (e, md5sum, seek, hashed, print_int) refl

-- Where there is a sum, the span could be read.
pub md5sum-span_of :
    (block : ℕ) (md5 : Text → Text) (conf : HashConf) (size : ℕ) (content : Text) (p : Text × Text)
    → md5sum block md5 conf size content ≡ ok p
    → (span : ℤ × ℤ) × (span_of conf size ≡ ok span)
unfolding md5sum
md5sum-span_of block md5 conf size content p h = elim (Result-cases (span_of conf size)) [
  | inl (span, e) ↦ (span, e)
  | inr (x, e) ↦
      let failed : raise x ≡ ok p =
        ap
          (λ r. r >>= (λ span. seek span.0 content >>= (λ rest.
            let (num, hashed) = hash_parts block (length rest) span.1 rest (0, []) in
            ok (print_int span.0 ++ b':' ∷ digits num, md5 hashed))))
          (sym e)
        ∙ h in
      absurd (cc)
]
