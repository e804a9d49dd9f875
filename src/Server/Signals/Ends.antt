-- ===== src/Server/Signals/Ends.antt =====
-- That the loops of lib/snmpy/server.py end once a signal has come.
use snmpy.Shared.{
  Bool, List, [], some, suc, true, zero, ℕ, ◌+◌, ◌∷◌, ◌≡◌, arith, false, inl, inr, not, refl, ◌⊎◌,
  Bool-cases, length, subst, ◌&&◌, ◌≤◌, Result, ok, raise,
}
use snmpy.Server.Loop.{Round, start_snmpd}
use snmpy.Server.Signals.{Seen, after_round, also, end_agent, main_loop, fetch_while, while_pause}
use snmpy.Agentx.NetSnmp.{NetSnmp}
use snmpy.Server.{Content, Period, Server, fetch_loop, fetch_once, after_pause, pause}

-- The rounds `i`, ..., `i + k` as the main loop finds them.
round_at : (ℕ → Seen) → ℕ → Bool → Round
round_at seen i done = record { done = done; children = (seen i).child; count = (seen i).selected }

pub rounds_seen : ℕ → (ℕ → Seen) → ℕ → Bool → List Round
unfolding round_at
rounds_seen zero seen i done = round_at seen i done ∷ []
rounds_seen (suc k) seen i done =
    round_at seen i done ∷ rounds_seen k seen (i + 1) (after_round (seen i) done)

length-rounds_seen :
    (k i : ℕ) (seen : ℕ → Seen) (done : Bool) → length (rounds_seen k seen i done) ≡ k + 1
unfolding rounds_seen
length-rounds_seen zero i seen done = refl
length-rounds_seen (suc k) i seen done =
    let rest = length-rounds_seen k (i + 1) seen (after_round (seen i) done) in omega arith

-- What ends the loop behind round `i`: a signal in it, or no child process after it.
abbrev pub IsLast : (ℕ → Seen) → ℕ → Type 0
IsLast seen i = ((seen i).signal ≡ true) ⊎ ((seen (i + 1)).child ≡ false)

stops :
    (fuel i : ℕ) (seen : ℕ → Seen) (done : Bool)
    → IsLast seen i
    → main_loop (suc fuel) seen (i + 1) (after_round (seen i) done) ≡ some []
unfolding main_loop after_round end_agent
stops fuel i seen done h = elim h [
  | inl signal ↦ rw (signal, not) refl
  | inr alone ↦ rw (alone) (ground arith)
]

ends_behind :
    (k fuel i : ℕ) (seen : ℕ → Seen) (done : Bool)
    → IsLast seen (i + k)
    → k + 1 ≤ fuel
    → main_loop (suc fuel) seen i done ≡ some (start_snmpd (rounds_seen k seen i done))
unfolding main_loop rounds_seen round_at start_snmpd also
ends_behind k zero i seen done h enough = absurd (omega arith)
ends_behind zero (suc fuel) i seen done h enough =
    let here : IsLast seen i = subst (IsLast seen) (omega arith) h in
    rw (stops fuel i seen done here) (elim (Bool-cases (not done && (seen i).child)) [
      | inl goes ↦ rw goes refl
      | inr ended ↦ rw ended refl
    ])
ends_behind (suc k) (suc fuel) i seen done h enough =
    let later : IsLast seen (i + 1 + k) = subst (IsLast seen) (omega arith) h in
    rw (ends_behind k fuel (i + 1) seen (after_round (seen i) done) later (omega arith))
      (elim (Bool-cases (not done && (seen i).child)) [
        | inl goes ↦ rw goes refl
        | inr ended ↦ rw ended refl
      ])

-- However the rounds go on otherwise: if a signal comes in round `k` of the main loop, or no child
-- process is left behind it, the loop ends, and makes no calls but those of the rounds 0 to `k`, as far
-- as it goes on in them. `k` + 2 rounds are fuel enough.
pub main_loop_ends :
    (k fuel : ℕ) (seen : ℕ → Seen)
    → IsLast seen k
    → k + 2 ≤ fuel
    → (main_loop fuel seen 0 false ≡ some (start_snmpd (rounds_seen k seen 0 false)))
      × (length (rounds_seen k seen 0 false) ≡ k + 1)
main_loop_ends k zero seen last enough = absurd (omega arith)
main_loop_ends k (suc fuel) seen last enough =
    let start : IsLast seen (0 + k) = subst (IsLast seen) (omega arith) last in
    (ends_behind k fuel 0 seen false start (omega arith), length-rounds_seen k 0 seen false)

-- The updates of the rounds `i`, ..., `i + k - 1`.
pub updates_seen :
    ℕ
    → (ℕ → Content → Result (Unit {0}) × Content)
    → ℕ
    → List (Content → Result (Unit {0}) × Content)
updates_seen zero update i = []
updates_seen (suc k) update i = update i ∷ updates_seen k update (i + 1)

module _ (done : ℕ → Bool) where
  -- The thread does not find `self.done` before the rounds `i`, ..., and does before round `i + k`.
  abbrev pub IsDoneAt : ℕ → ℕ → Type 0
  IsDoneAt zero i = done i ≡ true
  IsDoneAt (suc k) i = (done i ≡ false) × IsDoneAt k (i + 1)

module _ (n : NetSnmp) (done : ℕ → Bool) (update : ℕ → Content → Result (Unit {0}) × Content) where
  paused :
      (r : Result Bool) (st : Content × Server n) (rest : Result (Unit {0}) × Content × Server n)
      → while_pause n r st (some rest) ≡ some (after_pause n r st rest)
  unfolding while_pause after_pause
  paused (raise e) st rest = refl
  paused (ok false) st rest = refl
  paused (ok true) st rest = refl

  -- If a plugin's thread finds `self.done` first before round `i + k`, its loop ends, and leaves
  -- what it leaves after the `k` updates of the rounds before (one, if it runs once or its pause
  -- fails, and then it fails so): none of them
  -- is cut short, and none follows. `k` + 1 rounds are fuel enough.
  pub fetch_while_ends :
      (k fuel i : ℕ) (period : Period) (st : Content × Server n)
      → IsDoneAt done k i
      → k + 1 ≤ fuel
      → fetch_while n fuel period done update i st
        ≡ some (fetch_loop n period (updates_seen k update i) st)
  unfolding fetch_while updates_seen fetch_loop
  fetch_while_ends k zero i period st h enough = absurd (omega arith)
  fetch_while_ends zero (suc fuel) i period st h enough = rw h refl
  fetch_while_ends (suc k) (suc fuel) i period st (goes, h) enough =
      rw (goes, fetch_while_ends k fuel (i + 1) period (fetch_once n (update i) st) h (omega arith))
        (paused (pause period) (fetch_once n (update i) st)
          (fetch_loop n period (updates_seen k update (i + 1)) (fetch_once n (update i) st)))
