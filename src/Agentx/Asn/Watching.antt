-- ===== src/Agentx/Asn/Watching.antt =====
-- The watcher through which net-snmp reads an object stays in step with it (lib/snmpy/agentx.py).
use snmpy.Shared.{
  ℕ, ◌≡◌, refl, Option, none, some, ok, arith, inl, inr, subst, Option-cases, ok_of_bind,
  ok-injective, take,
}
use snmpy.Shared.Values.{Value, int, null, str}
use snmpy.Agentx.Asn.{
  Asn, Data, buffer, words, bits, Watcher, data_size, max_size_of, get_watch, set_value, assign,
  assign_buffer, counter64, integer32, max_str_len, octet_string, refresh, zeros,
}

-- The watcher, once there is one, tells net-snmp the size of what the object holds now, and the
-- object's bound.
abbrev pub IsWatched : Data → Option Watcher → Type 0
IsWatched d none = Unit
IsWatched d (some w) = (w.data_size ≡ data_size d) × (w.max_size ≡ max_size_of d)

abbrev pub IsSynced : Asn → Type 0
IsSynced a = IsWatched a.body a.watcher

-- A value is set within its class, so the size of a number does not change.
assign_keeps :
    (d d' : Data) (v : Value) (o : Option Watcher)
    → assign d v ≡ ok d'
    → IsWatched d o
    → IsWatched d' (refresh d' o)
unfolding assign refresh data_size
assign_keeps (buffer raw) (buffer raw') v none e h = tt
assign_keeps (buffer raw) (buffer raw') v (some w) e h = (refl, h.1)
assign_keeps (words a b) (words a' b') v none e h = tt
assign_keeps (words a b) (words a' b') v (some w) e h = h
assign_keeps (bits a) (bits a') v none e h = tt
assign_keeps (bits a) (bits a') v (some w) e h = (refl, h.1)
assign_keeps _ _ v o e h = ground arith

-- Whatever is set, a value that the object takes leaves its watcher in step, also where its size
-- changes.
pub set_value-IsSynced : (v : Value) (a a' : Asn) → set_value v a ≡ ok a' → IsSynced a → IsSynced a'
unfolding set_value
set_value-IsSynced v a a' e h =
    let (d, assigned, made) = ok_of_bind (assign a.body v) _ e in
    let e' = ok-injective made in subst IsSynced e' (assign_keeps a.body d v a.watcher assigned h)

-- A new object has no watcher yet.
pub octet_string-IsSynced : (v : Value) (a : Asn) → octet_string v ≡ ok a → IsSynced a
unfolding octet_string
octet_string-IsSynced (str s) a e =
    let (raw, _, made) = ok_of_bind (assign_buffer zeros (take max_str_len s)) _ e in
    subst IsSynced (ok-injective made) tt
octet_string-IsSynced null a e = cc
octet_string-IsSynced (int z) a e = cc

pub counter64-IsSynced : (v : Value) (a : Asn) → counter64 v ≡ ok a → IsSynced a
unfolding counter64
counter64-IsSynced (int z) a e = subst IsSynced (ok-injective e) tt
counter64-IsSynced null a e = cc
counter64-IsSynced (str s) a e = cc

pub integer32-IsSynced : (v : Value) (a : Asn) → integer32 v ≡ ok a → IsSynced a
unfolding integer32
integer32-IsSynced (int z) a e = subst IsSynced (ok-injective e) tt
integer32-IsSynced null a e = cc
integer32-IsSynced (str s) a e = cc

module _ (create_watcher_info : ℕ → ℕ → ℕ → Watcher)
    (created_size : (size type flags : ℕ)
      → (create_watcher_info size type flags).data_size ≡ size) where
  -- get_watch makes a watcher that is in step, or returns the one that there is, and changes nothing
  -- else of the object.
  pub get_watch-IsSynced :
      (a : Asn)
      → IsSynced a
      → IsSynced (get_watch create_watcher_info a).1
        × ((get_watch create_watcher_info a).1.watcher ≡ some (get_watch create_watcher_info a).0)
        × ((get_watch create_watcher_info a).1.body ≡ a.body)
  unfolding get_watch
  get_watch-IsSynced a h = elim (Option-cases a.watcher) [
    | inl new ↦ rw new ((created_size _ _ _, refl), refl, refl)
    | inr (w, old) ↦ rw old (rw old at h, refl, refl)
  ]

-- The watcher does not change the object.
pub get_watch-body :
    (create_watcher_info : ℕ → ℕ → ℕ → Watcher) (a : Asn)
    → (get_watch create_watcher_info a).1.body ≡ a.body
unfolding get_watch
get_watch-body info a = elim (Option-cases a.watcher) [
  | inl none_yet ↦ rw (none_yet, get_watch) refl
  | inr (w, there) ↦ rw (there, get_watch) refl
]
