-- ===== src/Plugins/LogProcessor/Growing.antt =====
-- The rounds of lib/snmpy/module/log_processor.py on a log that is only appended to.
use snmpy.Shared.{
  List, Proc, Result, [], ap, arith, length, length-append, ok, some, suc, true, ℕ, ◌++◌, ◌∷◌, ◌≡◌,
  Bool-cases, continue, false, inl, inr, raise, ◌==◌, ◌∙◌, ◌≤◌, append_assoc, sym, append-nil, refl,
  subst, ◌-◌, ==_iff,
}
use snmpy.Shared.Text.{Lacks, Text}
use snmpy.Plugins.LogProcessor.{
  Sight, Tail, is_stale, read_new, round, rounds, seek_back, read_lines,
}
use snmpy.Plugins.LogProcessor.Chunks.{
  drop-front, read_lines-scan, scan, Leaves, scan_nothing, then_scan, Leaves-prefix, scan-Leaves,
  scan-append,
}

-- The file that the thread has open, still under its name.
abbrev pub same_file : ℕ → Text → Sight
same_file ino content = record {
  named = some ino;
  opens = true;
  inode = ino;
  nlink = 1;
  content = content;
}

-- What the rounds see where each of `chunks` is appended before one of them.
abbrev pub appended : ℕ → Text → List Text → List Sight
appended ino content [] = []
appended ino content (c ∷ chunks) =
    same_file ino (content ++ c) ∷ appended ino (content ++ c) chunks

abbrev pub concat : List Text → Text
concat [] = []
concat (c ∷ chunks) = c ++ concat chunks

module _ {S : Type 0} (each : Text → Proc S) where
  read_new-scan :
      (q acc c : Text) (s : S)
      → Lacks b'\n' acc
      → read_new each (q ++ acc ++ c) (record { spot = length q; parsed = s })
        ≡ seek_back each (length (q ++ acc ++ c)) (scan each acc c s)
  unfolding read_new
  read_new-scan q acc c s h =
      let content = q ++ (acc ++ c) in
      ap (λ (l : Text). read_new each l (record { spot = length q; parsed = s }))
        (append_assoc q acc c)
      ∙ ap (λ l. seek_back each (length content) (read_lines each (suc (length l)) l s))
          (drop-front q (acc ++ c))
      ∙ ap (seek_back each (length content)) (
          read_lines-scan each c acc (suc (length (acc ++ c))) s h
            (rw (length-append acc c) (omega arith)))
      ∙ ap (λ (l : Text). seek_back each (length l) (scan each acc c s))
          (sym (append_assoc q acc c))

  not_stale :
      (ino spot : ℕ) (content : Text)
      → spot ≤ length content
      → is_stale each (same_file ino content) ino spot ≡ false
  unfolding is_stale
  not_stale ino spot content h = ground arith

  -- A round on a file that was appended to.
  round-scan :
      (ino : ℕ) (q acc c : Text) (s : S)
      → Lacks b'\n' acc
      → round each (same_file ino (q ++ acc ++ c)) (record { spot = length q; parsed = s })
        ≡ seek_back each (length (q ++ acc ++ c)) (scan each acc c s)
  unfolding round seek_back
  round-scan ino q acc c s h =
      let size = length-append (q ++ acc) c in
      let front = length-append q acc in
      let fresh = not_stale ino (length q) (q ++ acc ++ c) (omega arith) in
      elim (Bool-cases (length q == length (q ++ acc ++ c))) [
        | inl same ↦
            let at_end = (==_iff (length q) (length (q ++ acc ++ c))).0 same in
            rw (fresh, same, round, scan_nothing each acc c s (omega arith))
              (let same' : length q ≡ length (q ++ acc ++ c) - 0 = omega arith in
                ap (λ k. (ok tt, record { spot = k; parsed = s })) same')
        | inr new ↦ rw (fresh, new, round) (read_new-scan q acc c s h)
      ]

  -- How the rounds end and what is parsed, as a scan says.
  Agrees : Result (Unit {0}) × Tail S → Result (Unit {0}) × Text × S → Type 0
  Agrees out spec = (out.0 ≡ spec.0) × (out.1.parsed ≡ spec.2)

  -- The rounds after one, and the scan of what is appended after it.
  rest-Agrees :
      (ino : ℕ) (chunks : List Text) (content : Text) (out : Result (Unit {0}) × Text × S)
      → Leaves each content out
      → ((q rest : Text) (s : S)
          → Lacks b'\n' rest
          → Agrees
              (rounds each
                (appended ino (q ++ rest) chunks)
                (record { spot = length q; parsed = s }))
              (scan each rest (concat chunks) s))
      → Agrees
          (continue
            (seek_back each (length content) out)
            (rounds each (appended ino content chunks)))
          (then_scan each out (concat chunks))
  unfolding Agrees seek_back then_scan
  rest-Agrees ino chunks content (ok x, rest, s) (q, e, h) ih =
      let size : length content - length rest ≡ length q =
        (let parts = length-append q rest in let whole = ap length e in omega arith) in
      subst
        (λ (p : ℕ × Text).
          Agrees (rounds each (appended ino p.1 chunks) (record { spot = p.0; parsed = s }))
            (scan each rest (concat chunks) s))
        (ap (λ k. (k, q ++ rest)) (sym size) ∙ ap (λ l. (length content - length rest, l)) (sym e))
        (ih q rest s h)
  rest-Agrees ino chunks content (raise x, rest, s) h ih = (refl, refl)

  go :
      (ino : ℕ) (chunks : List Text) (q acc : Text) (s : S)
      → Lacks b'\n' acc
      → Agrees
          (rounds each (appended ino (q ++ acc) chunks) (record { spot = length q; parsed = s }))
          (scan each acc (concat chunks) s)
  unfolding rounds Agrees scan
  go ino [] q acc s h = (refl, refl)
  go ino (c ∷ chunks) q acc s h =
      rw (round-scan ino q acc c s h, scan-append each c acc (concat chunks) s)
        (rest-Agrees ino chunks (q ++ acc ++ c) (scan each acc c s)
          (subst (λ l. Leaves each l (scan each acc c s)) (sym (append_assoc q acc c))
            (Leaves-prefix each q (acc ++ c) (scan each acc c s) (scan-Leaves each c acc s h)))
          (λ q' rest s' h'. go ino chunks q' rest s' h'))

  -- The thread parses the lines of the bytes that are appended, in their order, each once it is
  -- complete and once only, however the bytes are divided over the rounds; what it parses them into is
  -- what one scan of all the bytes gives, up to a line that raises.
  pub rounds-appended :
      (ino : ℕ) (chunks : List Text) (content : Text) (s : S)
      → ((rounds each
            (appended ino content chunks)
            (record { spot = length content; parsed = s })).0
          ≡ (scan each [] (concat chunks) s).0)
        × ((rounds each
              (appended ino content chunks)
              (record { spot = length content; parsed = s })).1.parsed
            ≡ (scan each [] (concat chunks) s).2)
  unfolding Agrees
  rounds-appended ino chunks content s =
      subst
        (λ l.
          Agrees
            (rounds each (appended ino l chunks) (record { spot = length content; parsed = s }))
            (scan each [] (concat chunks) s))
        (append-nil content) (go ino chunks content [] s tt)
