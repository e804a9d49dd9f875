-- ===== src/Server/Threads/Progress.antt =====
-- The lock of lib/snmpy/server.py stops no thread for good.
use snmpy.Shared.{
  List, Option, Option-cases, [], arith, false, inl, inr, length, none, refl, some, subst, suc,
  true, zero, ℕ, ◌+◌, ◌<◌, ◌∷◌, ◌≡◌, ◌≤◌, ◌⊎◌, ==_iff, Bool-cases, ap, ◌==◌, ◌≢◌,
}
use snmpy.Server.Loop.{Round}
use snmpy.Server.Threads.{
  Act, Fetches, Reach, Step, Threads, change_table, change_value, free_lock, go, lock_after,
  program, take_lock, update, use_nothing, use_tables, here, next,
}
use snmpy.Server.Threads.Safety.{IsOrderly, Reach-IsOrderly, checks, owns, program-IsOrderly}

-- The acts that every thread below `n` has still to do, together.
pub left : ℕ → Threads → ℕ
left zero s = 0
left (suc n) s = length (s.rest n) + left n s

-- A thread that keeps to the lock can go on, if the lock is free or its own.
can_go :
    (i : ℕ) (a : Act) (acts : List Act) (lock : Option ℕ)
    → checks (a ∷ acts) (owns i lock) ≡ some false
    → (lock ≡ none) ⊎ (lock ≡ some i)
    → (lock' : Option ℕ) × (lock_after i a lock ≡ some lock')
unfolding checks
can_go i take_lock acts none h free = (some i, refl)
can_go i take_lock acts (some j) h free = absurd (ground arith)
can_go i free_lock acts lock h free = (none, refl)
can_go i use_tables acts lock h free = (lock, refl)
can_go i use_nothing acts lock h free = (lock, refl)
can_go i change_table acts lock h free = (lock, refl)
can_go i change_value acts lock h free = (lock, refl)

-- An owner of the lock is not at its end.
owner_acts :
    (i : ℕ) (acts : List Act)
    → checks acts true ≡ some false
    → (a : Act) × (rest : List Act) × (acts ≡ a ∷ rest)
unfolding checks
owner_acts i [] h = cc
owner_acts i (a ∷ rest) h = (a, rest, refl)

module _ {n : ℕ} {s : Threads} where
  goes_by :
      (i : ℕ) (a : Act) (acts : List Act)
      → IsOrderly n s
      → i < n
      → s.rest i ≡ a ∷ acts
      → (s.lock ≡ none) ⊎ (s.lock ≡ some i)
      → (t : Threads) × Step n s t
  goes_by i a acts h lt e free =
      let (lock, moved) =
        can_go i a acts s.lock
          (subst (λ l. checks l (owns i s.lock) ≡ some false) e (h.orderly i lt)) free in
      (record { lock = lock; rest = update s.rest i acts }, go i a acts lock lt e moved)

  IsOrderly-goes_on :
      IsOrderly n s
      → (i : ℕ) (a : Act) (acts : List Act) → i < n
      → s.rest i ≡ a ∷ acts
      → (t : Threads) × Step n s t
  IsOrderly-goes_on h i a acts lt e = elim (Option-cases s.lock) [
    | inl free ↦ goes_by i a acts h lt e (inl free)
    | inr (k, owned) ↦
        let below = h.owner k owned in
        let held : checks (s.rest k) true ≡ some false =
          subst (λ b. checks (s.rest k) b ≡ some false) (ground arith) (h.orderly k below) in
        let (b, rest, at) = owner_acts k (s.rest k) held in goes_by k b rest h below at (inr owned)
  ]

left-update_above :
    (n i : ℕ) (rest : ℕ → List Act) (acts : List Act) (l l' : Option ℕ)
    → n ≤ i
    → left n (record { lock = l'; rest = update rest i acts })
      ≡ left n (record { lock = l; rest = rest })
unfolding left
left-update_above zero i rest acts l l' h = refl
left-update_above (suc n) i rest acts l l' h =
    let same : update rest i acts n ≡ rest n = ground arith in
    let below = left-update_above n i rest acts l l' (omega arith) in omega (arith, ap length same)

left-update :
    (n i : ℕ) (rest : ℕ → List Act) (a : Act) (acts : List Act) (l l' : Option ℕ)
    → i < n
    → rest i ≡ a ∷ acts
    → left n (record { lock = l; rest = rest })
      ≡ left n (record { lock = l'; rest = update rest i acts }) + 1
unfolding left
left-update zero i rest a acts l l' h e = absurd (omega arith)
left-update (suc n) i rest a acts l l' h e = elim (Bool-cases (i == n)) [
  | inl same ↦
      let at : i ≡ n = (==_iff i n).0 same in
      let size = ap length (subst (λ k. rest k ≡ a ∷ acts) at e) in
      let now : update rest i acts n ≡ acts = ground arith in
      let below = left-update_above n i rest acts l l' (omega arith) in omega (arith, ap length now)
  | inr other ↦
      let lt : i < n = ground arith in
      let now : update rest i acts n ≡ rest n = ground arith in
      let below = left-update n i rest a acts l l' lt e in omega (arith, ap length now)
]

-- Every step is one act less to do, so no run of the threads has more steps than there are acts.
pub Step-left : {n : ℕ} {s t : Threads} → Step n s t → left n s ≡ left n t + 1
Step-left {n} {s} (go i a acts lock lt e moved) = left-update n i s.rest a acts s.lock lock lt e

pub run_length : {n : ℕ} {s t : Threads} → Reach n s t → ℕ
run_length here = 0
run_length (next r st) = run_length r + 1

run_length-left : {n : ℕ} {s t : Threads} (r : Reach n s t) → run_length r + left n t ≡ left n s
unfolding run_length
run_length-left here = omega arith
run_length-left (next r st) = omega (arith, run_length-left r, Step-left st)

List-cases : (acts : List Act) → (acts ≡ []) ⊎ ((a : Act) × (rest : List Act) × (acts ≡ a ∷ rest))
List-cases [] = inl refl
List-cases (a ∷ rest) = inr (a, rest, refl)

-- Where something is left, a thread has something to do.
left_of_suc :
    (n : ℕ) (s : Threads)
    → left n s ≢ 0
    → (i : ℕ) × (a : Act) × (acts : List Act) × (i < n) × (s.rest i ≡ a ∷ acts)
unfolding left
left_of_suc zero s h = absurd (h refl)
left_of_suc (suc n) s h = elim (List-cases (s.rest n)) [
  | inl none_left ↦
      let (i, a, acts, lt, e) = left_of_suc n s (λ z. h (omega (arith, ap length none_left))) in
      (i, a, acts, omega arith, e)
  | inr (a, acts, e) ↦ (n, a, acts, omega arith, e)
]

-- However the threads of the agent are interleaved, they come to an end and do not block each other: a
-- run has a step for each act that it did of those that the threads have to do, so none is longer than
-- that; and until all are done, some thread can go on.
pub threads_end :
    {n : ℕ} {s : Threads} (rounds : List Round) (fetches : ℕ → List Act)
    → ((j : ℕ) → Fetches (fetches j))
    → (r : Reach n (program rounds fetches) s)
    → (run_length r + left n s ≡ left n (program rounds fetches))
      × ((left n s ≡ 0) ⊎ ((t : Threads) × Step n s t))
threads_end {n} {s} rounds fetches h r = (run_length-left r, goes)
  where
    goes : (left n s ≡ 0) ⊎ ((t : Threads) × Step n s t)
    goes = elim (Bool-cases (left n s == 0)) [
      | inl all_done ↦ inl ((==_iff (left n s) 0).0 all_done)
      | inr more ↦
          let (i, a, acts, lt, e) = left_of_suc n s (ground arith) in
          inr (
            IsOrderly-goes_on (Reach-IsOrderly r (program-IsOrderly rounds fetches h n)) i a acts lt
              e)
    ]
