-- ===== src/Server/Exits.antt =====
-- When a plugin's thread ends the process (lib/snmpy/server.py, lib/snmpy/__init__.py).
use snmpy.Shared.{
  Exc, List, Result, raise, true, ◌↔◌, ◌≡◌, Bool, Bool-cases, Result-cases, ap, false, inl, inr, ok,
  refl, sym, ◌∙◌, ◌≢◌, [], arith, io_error, key_error, length, ltb, type_error, ◌<◌, ◌∷◌, ◌⊎◌,
}
use snmpy.Tasks.{exited, work_func, log_fatal}
use snmpy.Agentx.NetSnmp.{NetSnmp}
use snmpy.Server.{
  Content, Plugin, Server, commit_data, commit_retained, start_fetch, Period, after_pause,
  fetch_loop, fetch_once, is_once_text, missing, given_number, given_other, pause, given_text,
}
use snmpy.Shared.Text.{Text, codes, one_of, text_eq, text_eq_iff}
use snmpy.Shared.Int.{negsuc, pos}

-- A period that the pause after a round fails with.
abbrev pub IsBadPeriod : Period → Type 0
IsBadPeriod missing = Unit
IsBadPeriod (given_text t) = (t ≢ codes "boot") × (t ≢ codes "once") × (t ≢ codes "0")
IsBadPeriod (given_number (pos m)) = ⊥
IsBadPeriod (given_number (negsuc m)) = Unit
IsBadPeriod given_other = Unit

pause_text :
    (t : Text)
    → ((pause (given_text t) ≡ ok false) × ¬ IsBadPeriod (given_text t))
      ⊎ ((pause (given_text t) ≡ raise type_error) × IsBadPeriod (given_text t))
unfolding pause is_once_text one_of
pause_text t =
    let boot = text_eq_iff (codes "boot") t in
    let once = text_eq_iff (codes "once") t in
    let zero_ = text_eq_iff (codes "0") t in
    elim (Bool-cases (text_eq (codes "boot") t)) [
      | inl y ↦ inl (rw y refl, λ b. b.0 (sym (boot.0 y)))
      | inr a ↦ elim (Bool-cases (text_eq (codes "once") t)) [
        | inl y ↦ inl (rw (a, y) refl, λ b. b.1 (sym (once.0 y)))
        | inr b ↦ elim (Bool-cases (text_eq (codes "0") t)) [
          | inl y ↦ inl (rw (a, b, y) refl, λ b. b.2 (sym (zero_.0 y)))
          | inr c ↦ inr (
            rw (a, b, c) refl,
            (λ e. absurd (ground arith), λ e. absurd (ground arith), λ e. absurd (ground arith)),
          )
        ]
      ]
    ]

pause_cases :
    (p : Period)
    → ((b : Bool) × (pause p ≡ ok b) × ¬ IsBadPeriod p)
      ⊎ ((x : Exc) × (pause p ≡ raise x) × IsBadPeriod p)
unfolding pause
pause_cases missing = inr (key_error, refl, tt)
pause_cases (given_text t) = elim (pause_text t) [
  | inl (e, good) ↦ inl (false, e, good)
  | inr (e, bad) ↦ inr (type_error, e, bad)
]
pause_cases (given_number (pos m)) = inl (ltb 0 m, refl, λ b. b)
pause_cases (given_number (negsuc m)) = inr (io_error, refl, tt)
pause_cases given_other = inr (type_error, refl, tt)

module _ (n : NetSnmp) where
  no_loop : (period : Period) (st : Content × Server n) → (fetch_loop n period [] st).0 ≡ ok tt
  unfolding fetch_loop
  no_loop period st = refl

  retained :
      (save : Bool) (c : Content) (s : Server n)
      → save ≡ true
      → commit_retained n save c s ≡ commit_data n c s
  unfolding commit_retained
  retained save c s h = ap (λ b. commit_retained n b c s) h

  not_retained :
      (save : Bool) (c : Content) (s : Server n)
      → save ≡ false
      → (commit_retained n save c s).0 ≡ ok tt
  unfolding commit_retained
  not_retained save c s h = ap (λ b. (commit_retained n b c s).0) h

  goes_on :
      (p : Plugin) (updates : List (Content → Result (Unit {0}) × Content)) (s : Server n)
      → (commit_retained n p.save p.content s).0 ≡ ok tt
      → (start_fetch n p updates s).0
        ≡ (fetch_loop n p.period updates (p.content, (commit_retained n p.save p.content s).1)).0
  unfolding start_fetch
  goes_on p updates s e = rw (e, start_fetch) refl

  loop_raises :
      (period : Period) (update : Content → Result (Unit {0}) × Content)
      (updates : List (Content → Result (Unit {0}) × Content)) (st : Content × Server n) (x : Exc)
      → pause period ≡ raise x
      → (fetch_loop n period (update ∷ updates) st).0 ≡ raise x
  unfolding fetch_loop after_pause
  loop_raises period update updates st x h = rw (h, fetch_loop, after_pause) refl

  loop_ok :
      (period : Period) (b : Bool) (updates : List (Content → Result (Unit {0}) × Content))
      (st : Content × Server n)
      → pause period ≡ ok b
      → (fetch_loop n period updates st).0 ≡ ok tt
  unfolding fetch_loop after_pause
  loop_ok period b [] st h = refl
  loop_ok period false (u ∷ us) st h = rw (h, fetch_loop, after_pause) refl
  loop_ok period true (u ∷ us) st h =
      rw (h, fetch_loop, after_pause) (loop_ok period true us (fetch_once n u st) h)

  fails :
      (p : Plugin) (updates : List (Content → Result (Unit {0}) × Content)) (s : Server n) (x : Exc)
      → (commit_retained n p.save p.content s).0 ≡ raise x
      → (start_fetch n p updates s).0 ≡ raise x
  unfolding start_fetch
  fails p updates s x e = rw (e, start_fetch) refl

  exits_raise : (x : Exc) → work_func {A = Unit {0}} (raise x) ≡ exited 1
  unfolding work_func log_fatal
  exits_raise x = refl

  not_exited : work_func {A = Unit {0}} (ok tt) ≢ exited 1
  unfolding work_func
  not_exited h = cc

  exits_loop :
      (p : Plugin) (updates : List (Content → Result (Unit {0}) × Content)) (s : Server n)
      → (commit_retained n p.save p.content s).0 ≡ ok tt
      → (work_func (start_fetch n p updates s).0 ≡ exited 1)
        ↔ ((0 < length updates) × IsBadPeriod p.period)
  exits_loop p [] s e = (
    λ h. absurd (not_exited (ap work_func (sym (goes_on p [] s e ∙ no_loop p.period _)) ∙ h)),
    λ (some_, bad). absurd (omega arith),
  )
  exits_loop p (u ∷ us) s e = elim (pause_cases p.period) [
    | inl (b, fine, good) ↦ (
      λ h. absurd (
          not_exited
            (ap work_func (sym (goes_on p (u ∷ us) s e ∙ loop_ok p.period b _ _ fine)) ∙ h)),
      λ (some_, bad). absurd (good bad),
    )
    | inr (x, raised, bad) ↦ (
      λ h. (omega arith, bad),
      λ h.
          ap work_func (goes_on p (u ∷ us) s e ∙ loop_raises p.period u us _ x raised)
          ∙ exits_raise x,
    )
  ]

  -- A plugin's thread ends the process exactly if the plugin retains its state and committing that
  -- raises, or if an update is made and the period is missing, a text other than `boot`, `once` and `0`, a
  -- negative number, or no number; no failure of an update does, nor of a commit after it.
  pub start_fetch-exits :
      (p : Plugin) (updates : List (Content → Result (Unit {0}) × Content)) (s : Server n)
      → (work_func (start_fetch n p updates s).0 ≡ exited 1) ↔ (
          ((p.save ≡ true) × (e : Exc) × ((commit_data n p.content s).0 ≡ raise e))
          ⊎ ((0 < length updates) × IsBadPeriod p.period))
  start_fetch-exits p updates s = elim (Bool-cases p.save) [
    | inl saved ↦
        let same = ap (λ r. r.0) (retained p.save p.content s saved) in
        elim (Result-cases (commit_data n p.content s).0) [
          | inl (u, e) ↦
              let (to, from) = exits_loop p updates s (same ∙ e) in
              (
                λ h. inr (to h),
                λ h. elim h [ inl (saves, x, raised) ↦ absurd (cc) | inr bad ↦ from bad ],
              )
          | inr (x, e) ↦ (
            λ h. inl (saved, x, e),
            λ h. ap work_func (fails p updates s x (same ∙ e)) ∙ exits_raise x,
          )
        ]
    | inr unsaved ↦
        let (to, from) = exits_loop p updates s (not_retained p.save p.content s unsaved) in
        (λ h. inr (to h), λ h. elim h [ inl (saves, x, raised) ↦ absurd (cc) | inr bad ↦ from bad ])
  ]
