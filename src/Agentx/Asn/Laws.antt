-- ===== src/Agentx/Asn/Laws.antt =====
-- What an object of a value class holds after it is made or set (lib/snmpy/agentx.py).
use snmpy.Shared.{
  ℕ, zero, suc, ◌+◌, ◌*◌, ◌^◌, ◌≤◌, ◌<◌, ◌≡◌, refl, ap, [], ◌∷◌, ◌++◌, Option, none, ltb, leb,
  length, take, drop, if◌then◌else◌, Result, ok, raise, value_error, arith, length-append,
  length-take, length-drop, length-replicate, ◌↔◌, inl, inr, Bool-cases, ◌∙◌,
}
use snmpy.Shared.Int.{ℤ, pos, negsuc, mod_ℤ}
use snmpy.Shared.Text.{Text}
use snmpy.Shared.Values.{Value, int, str}
use snmpy.Agentx.Asn.{
  Asn, Watcher, buffer, words, bits, c_string, assign_buffer, zeros, c_ulong, c_int, signed32,
  split_int, octet_string, counter64, integer32, get_value, assign, set_value, max_str_len,
}

-- What `.value` reads back of an assigned text does not depend on the bytes behind the NUL.
c_string-append_zero : (s rest : Text) → c_string (s ++ zero ∷ rest) ≡ c_string s
unfolding c_string
c_string-append_zero [] rest = refl
c_string-append_zero (zero ∷ s) rest = refl
c_string-append_zero (suc c ∷ s) rest = ap (λ t. suc c ∷ t) (c_string-append_zero s rest)

length-zeros : length zeros ≡ max_str_len
unfolding zeros
length-zeros = length-replicate {A = ℕ} 1024 0

-- A buffer takes a text that fits, keeps its size, and reads back the text up to its first NUL.
pub assign_buffer_fits :
    (raw s : Text)
    → length s ≤ length raw
    → (raw' : Text) × (assign_buffer raw s ≡ ok raw')
      × (length raw' ≡ length raw)
      × (c_string raw' ≡ c_string s)
unfolding assign_buffer
assign_buffer_fits raw s h = elim (Bool-cases (ltb (length s) (length raw))) [
  | inl less ↦ (
    s ++ zero ∷ drop (length s + 1) raw,
    ground arith,
    ground
        (arith, length-append s (zero ∷ drop (length s + 1) raw), length-drop (length s + 1) raw),
    c_string-append_zero s (drop (length s + 1) raw),
  )
  | inr full ↦ (s, ground arith, ground arith, refl)
]

pub assign_buffer_long :
    (raw s : Text) → length raw < length s → assign_buffer raw s ≡ raise value_error
unfolding assign_buffer
assign_buffer_long raw s h = ground arith

-- What `get_value` returns on the object that a constructor or `set_value` leaves.
abbrev pub read : Result Asn → Result Value
read (ok a) = ok (get_value a.body)
read (raise e) = raise e

-- The constructor takes every text and holds its first 1024 bytes, up to the first NUL among them.
pub read-octet_string :
    (s : Text) → read (octet_string (str s)) ≡ ok (str (c_string (take max_str_len s)))
unfolding octet_string get_value
read-octet_string s =
    let (raw, made, size, content) =
      assign_buffer_fits zeros (take 1024 s) (omega (arith, length-zeros, length-take 1024 s)) in
    rw made (ap (λ t. ok (str t)) content)

-- A new OctetString has a buffer of full size.
pub octet_string_size :
    (s : Text)
    → (raw : Text) × (octet_string (str s) ≡ ok (record { body = buffer raw; watcher = none }))
      × (length raw ≡ max_str_len)
unfolding octet_string
octet_string_size s =
    let (raw, made, size, content) =
      assign_buffer_fits zeros (take 1024 s) (omega (arith, length-zeros, length-take 1024 s)) in
    (raw, rw made refl, size ∙ length-zeros)

-- A value of its type is taken by each constructor.
pub octet_string_ok : (s : Text) → (a : Asn) × (octet_string (str s) ≡ ok a)
unfolding octet_string
octet_string_ok s =
    let (raw, made, size, content) =
      assign_buffer_fits zeros (take 1024 s) (omega (arith, length-zeros, length-take 1024 s)) in
    (record { body = buffer raw; watcher = none }, rw made refl)

pub counter64_ok : (z : ℤ) → (a : Asn) × (counter64 (int z) ≡ ok a)
unfolding counter64
counter64_ok z = (_, refl)

pub integer32_ok : (z : ℤ) → (a : Asn) × (integer32 (int z) ≡ ok a)
unfolding integer32
integer32_ok z = (_, refl)

pub integer32_size :
    (z : ℤ) → (b : ℕ) × (integer32 (int z) ≡ ok (record { body = bits b; watcher = none }))
unfolding integer32
integer32_size z = (c_int z, refl)

pub set_value-bits :
    (z : ℤ) (b : ℕ) (w : Option Watcher)
    → (w' : Option Watcher) × (set_value (int z) (record { body = bits b; watcher = w })
        ≡ ok (record { body = bits (c_int z); watcher = w' }))
unfolding set_value assign
set_value-bits z b w = (_, refl)

pub get_value-bits : (b : ℕ) → b < 2 ^ 31 → get_value (bits b) ≡ int (pos b)
unfolding get_value
get_value-bits b h = ap int (ground arith)

-- Setting an OctetString whose buffer has its 1024 bytes: a text of at most 1024 bytes is read back
-- up to its first NUL, whatever the buffer held before; a longer one, which the constructor would
-- cut, is refused with a ValueError.
pub read-set_value_octet_string :
    (raw s : Text) (w : Option Watcher)
    → length raw ≡ max_str_len
    → read (set_value (str s) (record { body = buffer raw; watcher = w }))
      ≡ (if leb (length s) max_str_len then ok (str (c_string s)) else raise value_error)
unfolding set_value assign get_value
read-set_value_octet_string raw s w size = elim (Bool-cases (leb (length s) max_str_len)) [
  | inl fits ↦
      let (raw', made, same, content) = assign_buffer_fits raw s (ground arith) in
      rw (made, fits) (ap (λ t. ok (str t)) content)
  | inr long ↦ rw (assign_buffer_long raw s (ground arith), long) refl
]

pub words_mod :
    (z : ℤ) → c_ulong (split_int z).0 * 2 ^ 32 + c_ulong (split_int z).1 ≡ mod_ℤ z (2 ^ 96)
unfolding split_int
words_mod (pos n) = omega arith
words_mod (negsuc n) = omega arith

-- Made or set, a Counter64 gives back every integer modulo 2 ^ 96, so every number of 64 bits itself.
pub read-counter64 :
    (z : ℤ) (high low : ℕ) (w : Option Watcher)
    → (read (counter64 (int z)) ≡ ok (int (pos (mod_ℤ z (2 ^ 96)))))
      × (read (set_value (int z) (record { body = words high low; watcher = w }))
          ≡ ok (int (pos (mod_ℤ z (2 ^ 96)))))
unfolding counter64 set_value assign get_value
read-counter64 z high low w = let same = ap (λ n. ok (int (pos n))) (words_mod z) in (same, same)

-- A number of 64 bits is kept in two words of 32 bits, the form in which net-snmp sends a Counter64,
-- and is read back unchanged.
pub counter64_fits :
    (n : ℕ)
    → n < 2 ^ 64
    → (high : ℕ) × (low : ℕ) × (counter64 (int (pos n))
        ≡ ok (record { body = words high low; watcher = none }))
      × (high < 2 ^ 32)
      × (low < 2 ^ 32)
      × (get_value (words high low) ≡ int (pos n))
unfolding counter64 split_int get_value
counter64_fits n h = (_, _, refl, omega arith, omega arith, ap (λ k. int (pos k)) (omega arith))

abbrev pub InRange32 : ℤ → Type 0
InRange32 (pos n) = n < 2 ^ 31
InRange32 (negsuc n) = n < 2 ^ 31

int-injective : (a b : ℤ) → ok (int a) ≡ ok (int b) → a ≡ b
int-injective a b e = cc

signed32_iff : (z : ℤ) → (signed32 (c_int z) ≡ z) ↔ InRange32 z
signed32_iff (pos n) = (λ e. ground arith, λ h. ground arith)
signed32_iff (negsuc n) = (λ e. ground arith, λ h. ground arith)

-- Made or set, an Integer32 gives back an integer itself exactly when that lies between -2 ^ 31 and
-- 2 ^ 31 - 1; any other is changed without an error.
pub read-integer32 :
    (z : ℤ) (b : ℕ) (w : Option Watcher)
    → ((read (integer32 (int z)) ≡ ok (int z)) ↔ InRange32 z)
      × ((read (set_value (int z) (record { body = bits b; watcher = w })) ≡ ok (int z))
          ↔ InRange32 z)
      × ((r : ℤ) × (read (integer32 (int z)) ≡ ok (int r))
          × (read (set_value (int z) (record { body = bits b; watcher = w })) ≡ ok (int r)))
unfolding integer32 set_value assign get_value
read-integer32 z b w =
    let iff : (ok (int (signed32 (c_int z))) ≡ ok (int z)) ↔ InRange32 z = (
      λ e. (signed32_iff z).0 (int-injective _ _ e),
      λ h. ap (λ k. ok (int k)) ((signed32_iff z).1 h),
    ) in
    (iff, iff, (signed32 (c_int z), refl, refl))
