-- ===== src/Agentx/Asn.antt =====
-- The ASN.1 value classes of lib/snmpy/agentx.py: `OctetString`, `Counter64` and `Integer32` over
-- ctypes buffers, and the watcher through which net-snmp reads them. On LP64, as deployed, a C
-- `long` has 64 bits and an `int` 32.
pub mod Laws
pub mod Setting
mod Tests
pub mod Watching
use Prim.Native.Nat.{bit_or}
use snmpy.Shared.{
  ℕ, zero, suc, ◌+◌, ◌-◌, ◌*◌, ◌/◌, ◌%◌, ◌^◌, ◌≤◌, ◌<◌, ◌≡◌, Bool, true, false, List, [], ◌∷◌, ◌++◌,
  Option, none, some, ltb, leb, length, take, drop, replicate, if◌then◌else◌, Result, ok, raise,
  Exc, value_error, type_error, ◌>>=◌,
}
use snmpy.Shared.Int.{ℤ, pos, negsuc, div_ℤ, mod_ℤ}
use snmpy.Shared.Text.{Text}
use snmpy.Shared.Values.{Value, null, int, str}

abbrev pub asn_integer : ℕ
asn_integer = 0x02

abbrev pub asn_octet_str : ℕ
asn_octet_str = 0x04

abbrev pub asn_application : ℕ
asn_application = 0x40

abbrev pub asn_counter64 : ℕ
asn_counter64 = bit_or asn_application 6

abbrev pub watcher_fixed_size : ℕ
watcher_fixed_size = 0x01

abbrev pub watcher_max_size : ℕ
watcher_max_size = 0x02

abbrev pub max_str_len : ℕ
max_str_len = 1024

-- `netsnmp_watcher_info`, without the two pointers.
pub record Watcher : Type 0 where
  pub data_size : ℕ
  pub max_size : ℕ
  pub type : ℕ
  pub flags : ℕ

-- `_data`: a character array, the two words of a `counter64`, the bits of a `c_int`.
pub data Data : Type 0 where
  buffer : Text → Data
  words : ℕ → ℕ → Data
  bits : ℕ → Data

-- An object of one of the three classes: its class shows in its `_data`.
pub record Asn : Type 0 where
  pub body : Data
  pub watcher : Option Watcher

-- `c_char_Array.value`, read: the bytes before the first NUL.
unfoldable pub c_string : Text → Text
c_string [] = []
c_string (zero ∷ s) = []
c_string (suc c ∷ s) = suc c ∷ c_string s

-- `c_char_Array.value = text`: too long a text is refused; a shorter one is closed by a NUL, and
-- what lies behind it stays.
pub assign_buffer : Text → Text → Result Text
assign_buffer raw text =
    if ltb (length raw) (length text)
    then raise value_error
    else if ltb (length text) (length raw)
    then ok (text ++ zero ∷ drop (length text + 1) raw)
    else ok text

-- `(c_char * MAX_STR_LEN)()`
zeros : Text
zeros = replicate max_str_len 0

-- The wrapping of ctypes at a store: the low bits, in two's complement.
abbrev pub c_ulong : ℤ → ℕ
c_ulong z = mod_ℤ z (2 ^ 64)

abbrev pub c_int : ℤ → ℕ
c_int z = mod_ℤ z (2 ^ 32)

-- The number that the bits of a `c_int` stand for.
abbrev pub signed32 : ℕ → ℤ
signed32 w = if ltb w (2 ^ 31) then pos w else negsuc (2 ^ 32 - w - 1)

-- Counter64.split_int
pub split_int : ℤ → ℤ × ℤ
split_int z = (div_ℤ z (2 ^ 32), pos (mod_ℤ z (2 ^ 32)))

-- The three constructors, on any Python value: slicing, shifting and `c_int` raise a `TypeError` on
-- a value of another type.
pub octet_string : Value → Result Asn
octet_string (str s) = do
  raw ← assign_buffer zeros (take max_str_len s)
  ok (record { body = buffer raw; watcher = none })
octet_string _ = raise type_error

pub counter64 : Value → Result Asn
counter64 (int z) =
    let (high, low) = split_int z in
    ok (record { body = words (c_ulong high) (c_ulong low); watcher = none })
counter64 _ = raise type_error

pub integer32 : Value → Result Asn
integer32 (int z) = ok (record { body = bits (c_int z); watcher = none })
integer32 _ = raise type_error

abbrev pub type_of : Data → ℕ
type_of (buffer _) = asn_octet_str
type_of (words _ _) = asn_counter64
type_of (bits _) = asn_integer

abbrev pub flags_of : Data → ℕ
flags_of (buffer _) = watcher_max_size
flags_of (words _ _) = watcher_fixed_size
flags_of (bits _) = watcher_fixed_size

abbrev pub max_size_of : Data → ℕ
max_size_of (buffer _) = max_str_len
max_size_of (words _ _) = 16
max_size_of (bits _) = 4

-- data_size: `len(self._data.value)` of a string, `sizeof` of the others.
pub data_size : Data → ℕ
data_size (buffer raw) = length (c_string raw)
data_size (words _ _) = 16
data_size (bits _) = 4

pub get_value : Data → Value
get_value (buffer raw) = str (c_string raw)
get_value (words high low) = int (pos (high * 2 ^ 32 + low))
get_value (bits w) = int (signed32 w)

-- `self._data.value = data`, and Counter64's own `set_value`
pub assign : Data → Value → Result Data
assign (buffer raw) (str s) = do raw' ← assign_buffer raw s; ok (buffer raw')
assign (words _ _) (int z) =
    let (high, low) = split_int z in ok (words (c_ulong high) (c_ulong low))
assign (bits _) (int z) = ok (bits (c_int z))
assign _ _ = raise type_error

-- `if hasattr(self, '_watcher')`, in ASNType.set_value, which Counter64 overrides
refresh : Data → Option Watcher → Option Watcher
refresh (words _ _) w = w
refresh d none = none
refresh d (some w) = some (record w { data_size = data_size d })

-- set_value; a refused value leaves the object as it was.
pub set_value : Value → Asn → Result Asn
set_value v a = do d ← assign a.body v; ok (record { body = d; watcher = refresh d a.watcher })

-- get_watch: `netsnmp_create_watcher_info` of net-snmp makes the watcher on the first call.
module _ (create_watcher_info : ℕ → ℕ → ℕ → Watcher) where
  abbrev watcher_for : Data → Watcher
  watcher_for d = record (create_watcher_info (data_size d) (type_of d) (flags_of d)) {
    max_size = max_size_of d;
  }

  pub get_watch : Asn → Watcher × Asn
  get_watch a = elim a.watcher [
    | some w ↦ (w, a)
    | none ↦ let w = watcher_for a.body in (w, record a { watcher = some w })
  ]
