-- ===== src/Plugins/LogProcessor/Chunks.antt =====
-- A log that grows (lib/snmpy/module/log_processor.py): each line is parsed once, wherever it is cut.
use snmpy.Shared.{
  List, Proc, Result, [], ap, arith, drop, if◌then◌else◌, length, none, ok, refl, some, take, ℕ,
  ◌++◌, ◌+◌, ◌<◌, ◌==◌, ◌∷◌, ◌≡◌, ==_iff, All-append, Bool-cases, append-nil, append_assoc, false,
  inl, inr, length-append, subst, suc, sym, zero, ◌∙◌, raise, ◌≢◌,
}
use snmpy.Shared.Text.{Lacks, Text, find}
use snmpy.Plugins.LogProcessor.{read_lines, after_line}

find-lacking : (s : Text) → Lacks b'\n' s → find b'\n' s ≡ none
unfolding find
find-lacking [] h = refl
find-lacking (x ∷ s) (ne, h) = ground (arith, find-lacking s h)

find-line : (s t : Text) → Lacks b'\n' s → find b'\n' (s ++ b'\n' ∷ t) ≡ some (length s)
unfolding find
find-line [] t h = refl
find-line (x ∷ s) t (ne, h) = ground (arith, find-line s t h)

take-front : {A : Type 0} (s t : List A) → take (length s) (s ++ t) ≡ s
take-front [] [] = refl
take-front [] (_ ∷ _) = refl
take-front (x ∷ s) t = ap (λ l. x ∷ l) (take-front s t)

pub drop-front : {A : Type 0} (s t : List A) → drop (length s) (s ++ t) ≡ t
drop-front [] [] = refl
drop-front [] (_ ∷ _) = refl
drop-front (x ∷ s) t = drop-front s t

drop-line : {A : Type 0} (s t : List A) (x : A) → drop (length s + 1) (s ++ x ∷ t) ≡ t
drop-line {A = A} s t x =
    let same : length s + 1 ≡ suc (length s) = omega arith in
    ap (λ k. drop k (s ++ x ∷ t)) same ∙ go s
  where
    go : (l : List A) → drop (suc (length l)) (l ++ x ∷ t) ≡ t
    go [] = drop-front [] t
    go (y ∷ l) = go l

module _ {S : Type 0} (each : Text → Proc S) where
  -- A line at a time, byte by byte: `acc` is what there is of the current line.
  unfoldable pub scan : Text → Text → S → Result (Unit {0}) × Text × S
  scan acc [] s = (ok tt, acc, s)
  scan acc (c ∷ t) s =
      let next = after_line each (each acc s) t (scan [] t (each acc s).1) in
      let longer = scan (acc ++ c ∷ []) t s in if c == b'\n' then next else longer

  read_line :
      (f : ℕ) (acc t : Text) (s : S)
      → Lacks b'\n' acc
      → read_lines each f t (each acc s).1 ≡ scan [] t (each acc s).1
      → read_lines each (suc f) (acc ++ b'\n' ∷ t) s ≡ scan acc (b'\n' ∷ t) s
  unfolding read_lines scan
  read_line f acc t s h ih =
      rw (find-line acc t h, read_lines, take-front acc (b'\n' ∷ t), drop-line acc t b'\n', ih) refl

  longer_line :
      (c : ℕ) (acc t : Text) (s : S)
      → (c == b'\n') ≡ false
      → scan acc (c ∷ t) s ≡ scan (acc ++ c ∷ []) t s
  unfolding scan
  longer_line c acc t s ne = rw (ne, scan) refl

  -- Enough rounds read all the lines.
  pub read_lines-scan :
      (t acc : Text) (f : ℕ) (s : S)
      → Lacks b'\n' acc
      → length acc + length t < f
      → read_lines each f (acc ++ t) s ≡ scan acc t s
  unfolding read_lines scan
  read_lines-scan t acc zero s h enough = absurd (omega arith)
  read_lines-scan [] acc (suc f) s h enough =
      ap (λ l. read_lines each (suc f) l s) (append-nil acc)
      ∙ (rw (find-lacking acc h, read_lines) refl)
  read_lines-scan (c ∷ t) acc (suc f) s h enough = elim (Bool-cases (c == b'\n')) [
    | inl end ↦
        subst (λ x. read_lines each (suc f) (acc ++ x ∷ t) s ≡ scan acc (x ∷ t) s)
          (sym ((==_iff c b'\n').0 end))
          (read_line f acc t s h (read_lines-scan t [] f (each acc s).1 tt (omega arith)))
    | inr ne ↦
        ap (λ l. read_lines each (suc f) l s) (sym (append_assoc acc (c ∷ []) t))
        ∙ read_lines-scan t (acc ++ c ∷ []) (suc f) s
            (All-append (λ y. y ≢ b'\n') acc (c ∷ []) h (ground arith, tt))
            (rw (length-append acc (c ∷ [])) (omega arith))
        ∙ sym (longer_line c acc t s ne)
  ]

  -- The rest of a text is scanned after its beginning.
  unfoldable pub then_scan : Result (Unit {0}) × Text × S → Text → Result (Unit {0}) × Text × S
  then_scan (ok _, rest, s) t = scan rest t s
  then_scan (raise e, rest, s) t = (raise e, rest ++ t, s)

  then_scan-after_line :
      (p : Result (Unit {0}) × S) (t u : Text)
      → (scan [] (t ++ u) p.1 ≡ then_scan (scan [] t p.1) u)
      → after_line each p (t ++ u) (scan [] (t ++ u) p.1)
        ≡ then_scan (after_line each p t (scan [] t p.1)) u
  unfolding after_line then_scan
  then_scan-after_line (ok x, s) t u ih = ih
  then_scan-after_line (raise e, s) t u ih = refl

  pub scan-append : (t acc u : Text) (s : S) → scan acc (t ++ u) s ≡ then_scan (scan acc t s) u
  unfolding scan then_scan
  scan-append [] acc u s = refl
  scan-append (c ∷ t) acc u s = elim (Bool-cases (c == b'\n')) [
    | inl end ↦
        rw (end, scan) (then_scan-after_line (each acc s) t u (scan-append t [] u (each acc s).1))
    | inr ne ↦ rw (ne, scan) (scan-append t (acc ++ c ∷ []) u s)
  ]

  -- What a scan leaves: the end of the text, with no complete line in it.
  abbrev pub Leaves : Text → Result (Unit {0}) × Text × S → Type 0
  Leaves text (ok _, rest, s) = (q : Text) × (text ≡ q ++ rest) × Lacks b'\n' rest
  Leaves text (raise e, rest, s) = Unit

  pub Leaves-prefix :
      (p text : Text) (out : Result (Unit {0}) × Text × S)
      → Leaves text out
      → Leaves (p ++ text) out
  Leaves-prefix p text (ok x, rest, s) (q, e, h) =
      (p ++ q, ap (λ l. p ++ l) e ∙ sym (append_assoc p q rest), h)
  Leaves-prefix p text (raise x, rest, s) h = tt

  Leaves-after_line :
      (p : Result (Unit {0}) × S) (t : Text)
      → Leaves t (scan [] t p.1)
      → Leaves t (after_line each p t (scan [] t p.1))
  unfolding after_line
  Leaves-after_line (ok x, s) t h = h
  Leaves-after_line (raise x, s) t h = tt

  pub scan-Leaves : (t acc : Text) (s : S) → Lacks b'\n' acc → Leaves (acc ++ t) (scan acc t s)
  unfolding scan
  scan-Leaves [] acc s h = ([], append-nil acc, h)
  scan-Leaves (c ∷ t) acc s h = elim (Bool-cases (c == b'\n')) [
    | inl end ↦
        rw (end, scan)
          (subst (λ l. Leaves l (after_line each (each acc s) t (scan [] t (each acc s).1)))
            (append_assoc acc (c ∷ []) t)
            (Leaves-prefix (acc ++ c ∷ []) t
              (after_line each (each acc s) t (scan [] t (each acc s).1))
              (Leaves-after_line (each acc s) t (scan-Leaves t [] (each acc s).1 tt))))
    | inr ne ↦
        rw (ne, scan)
          (subst (λ l. Leaves l (scan (acc ++ c ∷ []) t s)) (append_assoc acc (c ∷ []) t)
            (scan-Leaves t (acc ++ c ∷ []) s
              (All-append (λ y. y ≢ b'\n') acc (c ∷ []) h (ground arith, tt))))
  ]

  pub scan_nothing :
      (acc c : Text) (s : S) → length acc + length c ≡ 0 → scan acc c s ≡ (ok tt, [], s)
  unfolding scan
  scan_nothing [] [] s e = refl
  scan_nothing (x ∷ acc) c s e = absurd (omega arith)
  scan_nothing [] (x ∷ c) s e = absurd (omega arith)
