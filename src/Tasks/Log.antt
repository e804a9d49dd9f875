-- ===== src/Tasks/Log.antt =====
-- What lib/snmpy/__init__.py writes to the log for a failure, and how `log_fatal` ends. The text of an
-- exception and of its traceback, and the logger's own attributes, are parameters.
use snmpy.Shared.{
  Exc, List, Option, [], ap, drop, map, none, refl, some, type_error, ℕ, ◌++◌, ◌∷◌, ◌≡◌, Bool-cases,
  arith, inl, inr, subst, sym, ◌==◌, ◌∙◌,
}
use snmpy.Shared.Text.{Text, codes, split, join, onto_head}
use snmpy.Shared.Dicts.{Dict, lookup}

-- LOG.error(...) and LOG.debug(...)
pub data Line : Type 0 where
  error_line : Text → Line
  debug_line : Text → Line

headline : Text → Option Text → Line
headline e none = error_line e
headline e (some []) = error_line e
headline e (some (c ∷ msg)) = error_line (c ∷ msg ++ codes ": " ++ e)

-- log_error(e, msg), with traceback.format_exc()
pub log_error : Text → Option Text → Text → List Line
unfolding headline
log_error e msg trace = headline e msg ∷ map (λ l. debug_line (codes "  " ++ l)) (split b'\n' trace)

-- What log_fatal is given: an exception with its traceback, or anything else.
pub data FatalItem : Type 0 where
  exception : Text → Text → FatalItem
  message : Text → FatalItem

-- How log_fatal ends.
pub data End : Type 0 where
  returned : End
  exits : ℕ → End
  raises : Exc → End

-- if exit is not None: os._exit(exit)
unfoldable pub leave : Option ℕ → End
leave none = returned
leave (some n) = exits n

-- What is called: a method of the logger, or the text 'error'.
call_logger : Option (Text → List Line) → Text → Option ℕ → End × List Line
unfolding leave
call_logger none item exit = (raises type_error, [])
call_logger (some f) item exit = (leave exit, f item)

-- log_fatal(item, prio, exit), with vars(LOG)
unfoldable pub fatal : Dict (Text → List Line) → FatalItem → Text → Option ℕ → End × List Line
unfolding leave call_logger log_error
fatal vars (exception e trace) prio exit = (leave exit, log_error e none trace)
fatal vars (message m) prio exit = call_logger (lookup prio vars) m exit

-- The text of a line of the traceback.
pub traced : List Line → List Text
traced [] = []
traced (error_line s ∷ ls) = traced ls
traced (debug_line s ∷ ls) = drop 2 s ∷ traced ls

traced-map : (ls : List Text) → traced (map (λ l. debug_line (codes "  " ++ l)) ls) ≡ ls
unfolding traced
traced-map [] = refl
traced-map (l ∷ ls) = ap (λ t. l ∷ t) (traced-map ls)

split_parts : (s : Text) → (p : Text) × (ps : List Text) × (split b'\n' s ≡ p ∷ ps)
unfolding split
split_parts [] = ([], [], refl)
split_parts (c ∷ s) = elim (Bool-cases (c == b'\n')) [
  | inl break ↦ ([], split b'\n' s, rw (break, split) refl)
  | inr other ↦ let (p, ps, e) = split_parts s in (c ∷ p, ps, rw (other, e) refl)
]

join-onto_head :
    (c : ℕ) (p : Text) (ps : List Text)
    → join (b'\n' ∷ []) (onto_head c (p ∷ ps)) ≡ c ∷ join (b'\n' ∷ []) (p ∷ ps)
unfolding join
join-onto_head c p [] = refl
join-onto_head c p (q ∷ ps) = refl

join-break :
    (p : Text) (ps : List Text)
    → join (b'\n' ∷ []) ([] ∷ p ∷ ps) ≡ b'\n' ∷ join (b'\n' ∷ []) (p ∷ ps)
unfolding join
join-break p ps = refl

join-split : (s : Text) → join (b'\n' ∷ []) (split b'\n' s) ≡ s
unfolding join split
join-split [] = refl
join-split (c ∷ s) =
    let (p, ps, e) = split_parts s in
    let rest : join (b'\n' ∷ []) (p ∷ ps) ≡ s =
      subst (λ l. join (b'\n' ∷ []) l ≡ s) e (join-split s) in
    elim (Bool-cases (c == b'\n')) [
      | inl same ↦
          let is_break : c ≡ b'\n' = ground arith in
          rw (same, e) (join-break p ps ∙ ap (λ t. b'\n' ∷ t) rest ∙ ap (λ d. d ∷ s) (sym is_break))
      | inr other ↦ rw (other, e) (join-onto_head c p ps ∙ ap (λ t. c ∷ t) rest)
    ]

traced-headline :
    (e : Text) (msg : Option Text) (ls : List Line) → traced (headline e msg ∷ ls) ≡ traced ls
unfolding traced headline
traced-headline e none ls = refl
traced-headline e (some []) ls = refl
traced-headline e (some (c ∷ msg)) ls = refl

-- The lines that log_error writes after the first are those of the traceback: joined by line breaks,
-- they are the traceback.
pub log_error-whole :
    (e : Text) (msg : Option Text) (trace : Text)
    → join (b'\n' ∷ []) (traced (log_error e msg trace)) ≡ trace
unfolding log_error
log_error-whole e msg trace =
    ap (join (b'\n' ∷ [])) (traced-headline e msg _ ∙ traced-map (split b'\n' trace))
    ∙ join-split trace
