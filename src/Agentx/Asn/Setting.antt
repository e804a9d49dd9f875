-- ===== src/Agentx/Asn/Setting.antt =====
-- `set_value` on an object of each class, with the object that it leaves (lib/snmpy/agentx.py).
use snmpy.Shared.{
  Option, ap, arith, length, ok, raise, refl, value_error, ℕ, ◌<◌, ◌^◌, ◌∙◌, ◌≡◌, ◌≤◌,
}
use snmpy.Shared.Text.{Text}
use snmpy.Shared.Values.{int, str}
use snmpy.Shared.Int.{mod_ℤ, pos, ℤ}
use snmpy.Agentx.Asn.{
  Watcher, assign, bits, buffer, c_int, c_string, get_value, max_str_len, refresh, set_value,
  signed32, words,
}
use snmpy.Agentx.Asn.Laws.{assign_buffer_fits, assign_buffer_long, words_mod}

pub set_value-buffer :
    (raw s : Text) (w : Option Watcher)
    → length raw ≡ max_str_len
    → length s ≤ max_str_len
    → (raw' : Text) × (w' : Option Watcher) × (set_value
          (str s)
          (record { body = buffer raw; watcher = w })
        ≡ ok (record { body = buffer raw'; watcher = w' }))
      × (length raw' ≡ max_str_len)
      × (get_value (buffer raw') ≡ str (c_string s))
unfolding set_value assign get_value
set_value-buffer raw s w size fits =
    let (raw', made, same, content) = assign_buffer_fits raw s (omega arith) in
    (raw', refresh (buffer raw') w, rw (made, set_value, assign) refl, same ∙ size, ap str content)

pub set_value-buffer_long :
    (raw s : Text) (w : Option Watcher)
    → length raw ≡ max_str_len
    → max_str_len < length s
    → set_value (str s) (record { body = buffer raw; watcher = w }) ≡ raise value_error
unfolding set_value assign
set_value-buffer_long raw s w size long =
    rw (assign_buffer_long raw s (omega arith), set_value, assign) refl

pub set_value-words :
    (z : ℤ) (a b : ℕ) (w : Option Watcher)
    → (high : ℕ) × (low : ℕ) × (w' : Option Watcher) × (set_value
          (int z)
          (record { body = words a b; watcher = w })
        ≡ ok (record { body = words high low; watcher = w' }))
      × (get_value (words high low) ≡ int (pos (mod_ℤ z (2 ^ 96))))
unfolding set_value assign get_value
set_value-words z a b w = (_, _, _, refl, ap (λ n. int (pos n)) (words_mod z))

pub get_value-c_int : (z : ℤ) → get_value (bits (c_int z)) ≡ int (signed32 (c_int z))
unfolding get_value
get_value-c_int z = refl
