-- ===== src/Server/Threads/Safety.antt =====
-- What the lock of lib/snmpy/server.py keeps apart, and that it stops no thread for good.
use snmpy.Shared.{
  Bool, List, Option, [], false, if◌then◌else◌, inl, inr, none, some, true, ℕ, ◌<◌, ◌==◌, ◌∷◌, ◌≡◌,
  arith, subst, ◌≢◌, ◌⊎◌, ==_iff, Bool-cases, Option-cases, ap, map, refl, replicate, suc, zero,
  ◌++◌, ◌∙◌,
}
use snmpy.Server.Threads.{
  Act, Step, Threads, change_table, change_value, use_nothing, use_tables, free_lock, take_lock, go,
  lock_after, Commits, Fetches, Reach, act_of, commit, done, here, next, of_table, of_values,
  program,
}
use snmpy.Agentx.Process.{
  Event, check_outstanding_requests, run_alarms, snmp_read, snmp_timeout, store_if_needed,
}
use snmpy.Server.{Content}
use snmpy.Server.Loop.{Round, start_snmpd, start_snmpd-steps, step, steps}

-- Whether a thread that holds the lock, or not, holds it after an act; `none` where the act is not
-- allowed.
pub check : Act → Bool → Option Bool
check take_lock false = some true
check take_lock true = none
check free_lock true = some false
check free_lock false = none
check use_tables held = if held then some true else none
check change_table held = if held then some true else none
check use_nothing held = some held
check change_value held = some held

unfoldable pub checks : List Act → Bool → Option Bool
unfolding check
checks [] held = some held
checks (a ∷ acts) held = elim (check a held) [ none ↦ none | some held' ↦ checks acts held' ]

abbrev pub owns : ℕ → Option ℕ → Bool
owns i none = false
owns i (some j) = i == j

-- Each thread keeps to the lock from where it is to its end; the lock's owner is one of them.
pub record IsOrderly (n : ℕ) (s : Threads) : Type 0 where
  pub orderly : (i : ℕ) → i < n → checks (s.rest i) (owns i s.lock) ≡ some false
  pub owner : (k : ℕ) → s.lock ≡ some k → k < n

-- A thread that goes on keeps to the lock, and no other owns it more or less than before.
record GoesOn (i : ℕ) (acts : List Act) (lock lock' : Option ℕ) : Type 0 where
  mine : checks acts (owns i lock') ≡ some false
  others : (j : ℕ) → j ≢ i → owns j lock' ≡ owns j lock
  owner : (k : ℕ) → lock' ≡ some k → (k ≡ i) ⊎ (lock ≡ some k)

goes_on :
    (i : ℕ) (a : Act) (acts : List Act) (lock lock' : Option ℕ)
    → checks (a ∷ acts) (owns i lock) ≡ some false
    → lock_after i a lock ≡ some lock'
    → GoesOn i acts lock lock'
unfolding checks
goes_on i take_lock acts none lock' h e = record {
  mine = ground arith;
  others = λ j ne. ground arith;
  owner = λ k own. inl (ground arith);
}
goes_on i take_lock acts (some j) lock' h e = cc
goes_on i free_lock acts none lock' h e = cc
goes_on i free_lock acts (some j) lock' h e = record {
  mine = ground arith;
  others = λ k ne. ground arith;
  owner = λ k own. cc;
}
goes_on i use_tables acts lock lock' h e = record {
  mine = ground arith;
  others = λ k ne. ground arith;
  owner = λ k own. inr (cc);
}
goes_on i change_table acts lock lock' h e = record {
  mine = ground arith;
  others = λ k ne. ground arith;
  owner = λ k own. inr (cc);
}
goes_on i use_nothing acts lock lock' h e = record {
  mine = ground arith;
  others = λ k ne. ground arith;
  owner = λ k own. inr (cc);
}
goes_on i change_value acts lock lock' h e = record {
  mine = ground arith;
  others = λ k ne. ground arith;
  owner = λ k own. inr (cc);
}

Step-IsOrderly : {n : ℕ} {s t : Threads} → Step n s t → IsOrderly n s → IsOrderly n t
Step-IsOrderly {n} {s} (go i a acts lock lt e moved) h =
    let after =
      goes_on i a acts s.lock lock
        (subst (λ l. checks l (owns i s.lock) ≡ some false) e (h.orderly i lt)) moved in
    record {
      orderly = λ j below. elim (Bool-cases (i == j)) [
        | inl same ↦
            rw same
              (subst (λ k. checks acts (owns k lock) ≡ some false) ((==_iff i j).0 same) after.mine)
        | inr other ↦ rw (other, after.others j (ground arith)) (h.orderly j below)
      ];
      owner =
          λ k own. elim (after.owner k own) [ inl mine ↦ omega arith | inr old ↦ h.owner k old ];
    }

pub Reach-IsOrderly : {n : ℕ} {s t : Threads} → Reach n s t → IsOrderly n s → IsOrderly n t
Reach-IsOrderly here h = h
Reach-IsOrderly (next r st) h = Step-IsOrderly st (Reach-IsOrderly r h)

-- An act that needs the lock: net-snmp uses tables, or a table is changed.
abbrev pub needs_lock : Act → Bool
needs_lock use_tables = true
needs_lock change_table = true
needs_lock _ = false

owner_of_next :
    (i : ℕ) (a : Act) (acts : List Act) (lock : Option ℕ)
    → needs_lock a ≡ true
    → checks (a ∷ acts) (owns i lock) ≡ some false
    → lock ≡ some i
unfolding checks
owner_of_next i use_tables acts none g h = cc
owner_of_next i use_tables acts (some j) g h = ground arith
owner_of_next i change_table acts none g h = cc
owner_of_next i change_table acts (some j) g h = ground arith
owner_of_next i take_lock acts lock g h = cc
owner_of_next i free_lock acts lock g h = cc
owner_of_next i use_nothing acts lock g h = cc
owner_of_next i change_value acts lock g h = cc

checks-append :
    (front bs : List Act) (held mid : Bool)
    → checks front held ≡ some mid
    → checks (front ++ bs) held ≡ checks bs mid
unfolding checks
checks-append [] bs held mid h = ground arith
checks-append (a ∷ front) bs held mid h = elim (Option-cases (check a held)) [
  | inl stuck ↦ absurd (ground arith)
  | inr (held', e) ↦ rw (e, checks) (checks-append front bs held' mid (ground arith))
]

checks_values : (k : ℕ) → checks (replicate k change_value) false ≡ some false
unfolding checks
checks_values zero = refl
checks_values (suc k) = checks_values k

checks_tables : (k : ℕ) → checks (replicate k change_table) true ≡ some true
unfolding checks
checks_tables zero = refl
checks_tables (suc k) = checks_tables k

Commits-checks : {c : Content} {acts : List Act} → Commits c acts → checks acts false ≡ some false
unfolding checks
Commits-checks (of_values m k h) = checks_values k
Commits-checks (of_table t k h) =
    checks-append (replicate k change_table) (free_lock ∷ []) true true (checks_tables k)

Fetches-checks : {acts : List Act} → Fetches acts → checks acts false ≡ some false
unfolding checks
Fetches-checks done = refl
Fetches-checks (commit {acts} {rest} c first others e) =
    ap (λ l. checks l false) e
    ∙ checks-append acts rest false false (Commits-checks first)
    ∙ Fetches-checks others

-- The main loop keeps to the lock, as `start_snmpd-steps` says.
checks-act_of : (es : List Event) (held : Bool) → checks (map act_of es) held ≡ steps es held
unfolding checks steps step act_of
checks-act_of [] held = refl
checks-act_of (Event.acquire ∷ es) false = checks-act_of es true
checks-act_of (Event.acquire ∷ es) true = refl
checks-act_of (Event.release ∷ es) false = refl
checks-act_of (Event.release ∷ es) true = checks-act_of es false
checks-act_of (snmp_timeout ∷ es) held = checks-act_of es held
checks-act_of (snmp_read ∷ es) false = refl
checks-act_of (snmp_read ∷ es) true = checks-act_of es true
checks-act_of (store_if_needed ∷ es) false = refl
checks-act_of (store_if_needed ∷ es) true = checks-act_of es true
checks-act_of (run_alarms ∷ es) false = refl
checks-act_of (run_alarms ∷ es) true = checks-act_of es true
checks-act_of (check_outstanding_requests ∷ es) false = refl
checks-act_of (check_outstanding_requests ∷ es) true = checks-act_of es true

module _ (rounds : List Round) (fetches : ℕ → List Act) (h : (j : ℕ) → Fetches (fetches j)) where
  program-checks : (i : ℕ) → checks ((program rounds fetches).rest i) false ≡ some false
  unfolding program
  program-checks zero = checks-act_of (start_snmpd rounds) false ∙ start_snmpd-steps rounds
  program-checks (suc j) = Fetches-checks (h j)

  pub program-IsOrderly : (n : ℕ) → IsOrderly n (program rounds fetches)
  unfolding program
  program-IsOrderly n = record { orderly = λ i below. program-checks i; owner = λ k own. cc }

-- However the threads of the agent are interleaved: while a thread stands before a change of a table,
-- or the main loop before a call in which net-snmp uses tables, no other thread stands before such an
-- act. So no table is used while it is half refilled, and no two refill tables together.
pub tables-exclusive :
    {n : ℕ} {s : Threads} (rounds : List Round) (fetches : ℕ → List Act)
    → ((j : ℕ) → Fetches (fetches j))
    → Reach n (program rounds fetches) s
    → (i j : ℕ) (a b : Act) (front bs : List Act) → i < n
    → j < n
    → s.rest i ≡ a ∷ front
    → s.rest j ≡ b ∷ bs
    → needs_lock a ≡ true
    → needs_lock b ≡ true
    → i ≡ j
tables-exclusive {n} {s} rounds fetches h r i j a b front bs hi hj at_i at_j na nb =
    let inv = Reach-IsOrderly r (program-IsOrderly rounds fetches h n) in
    let own_i =
      owner_of_next i a front s.lock na
        (subst (λ l. checks l (owns i s.lock) ≡ some false) at_i (inv.orderly i hi)) in
    let own_j =
      owner_of_next j b bs s.lock nb
        (subst (λ l. checks l (owns j s.lock) ≡ some false) at_j (inv.orderly j hj)) in
    cc
