-- ===== src/Plugins/FileHash.antt =====
-- `md5sum` of lib/snmpy/module/file_value.py: a hash of a span of the file. The hash of a sequence of
-- bytes is a parameter; updating a hash in parts hashes the parts joined.
pub mod Span
use snmpy.Shared.{
  Bool, Result, [], drop, if◌then◌else◌, io_error, leb, length, min, none, ok, raise, some, suc,
  take, true, value_error, zero, ℕ, ◌*◌, ◌++◌, ◌+◌, ◌-◌, ◌>>=◌, ◌^◌, ◌∷◌,
}
use snmpy.Shared.Text.{Text, find}
use snmpy.Shared.Int.{negsuc, pos, ℤ}
use snmpy.Shared.Numbers.{digits, parse_int, print_int}

-- conf['use_hash']
pub data HashConf : Type 0 where
  hash_all : HashConf
  hash_bytes : ℤ → HashConf
  hash_span : Text → HashConf

-- `size or sys.maxsize`
unfoldable pub bound : ℕ → ℕ
bound zero = 2 ^ 63 - 1
bound (suc size) = suc size

unfoldable pub min_ℤ : ℤ → ℕ → ℤ
min_ℤ (pos i) n = pos (min i n)
min_ℤ (negsuc i) n = negsuc i

-- The part before the first colon and the one behind it; a text without one cannot be unpacked.
unfoldable pub split_span : Text → Result (Text × Text)
unfolding find
split_span s = elim (find b':' s) [
  | none ↦ raise value_error
  | some i ↦ ok (take i s, drop (i + 1) s)
]

-- beg, end
unfoldable pub span_of : HashConf → ℕ → Result (ℤ × ℤ)
unfolding split_span min_ℤ bound
span_of hash_all size = ok (pos 0, pos (bound size))
span_of (hash_bytes n) size = ok (pos 0, min_ℤ n (bound size))
span_of (hash_span s) size = do
  parts ← split_span s
  beg ← parse_int parts.0
  end ← parse_int parts.1
  ok (min_ℤ beg (bound size), min_ℤ end (bound size))

-- part[:end - num]
pub slice_to : ℤ → ℕ → Text → Text
slice_to (pos end) num part =
    if leb num end then take (end - num) part else take (length part - (num - end)) part
slice_to (negsuc end) num part = take (length part - (suc end + num)) part

-- num >= end
pub reached : ℤ → ℕ → Bool
reached (pos end) num = leb end num
reached (negsuc end) num = true

-- The parts of 1024 blocks, of `md5.block_size` bytes each, that are read of `rest`: how many bytes were hashed, and which.
-- Each round reads a byte at least, so that the bytes of the file are rounds enough.
pub hash_parts : ℕ → ℕ → ℤ → Text → ℕ × Text → ℕ × Text
hash_parts block zero end rest st = st
hash_parts block (suc fuel) end [] st = st
hash_parts block (suc fuel) end (c ∷ rest) (num, hashed) =
    let blob = slice_to end num (take (1024 * block) (c ∷ rest)) in
    let st : ℕ × Text = (num + length blob, hashed ++ blob) in
    let later = hash_parts block fuel end (drop (1024 * block) (c ∷ rest)) st in
    if reached end (num + length blob) then st else later

-- f.seek(beg or 0), and what is left to read
pub seek : ℤ → Text → Result Text
seek (pos beg) content = ok (drop beg content)
seek (negsuc beg) content = raise io_error

-- The span, as it is shown, and the hash of the bytes that were read of a file of `size` bytes.
pub md5sum : ℕ → (Text → Text) → HashConf → ℕ → Text → Result (Text × Text)
md5sum block md5 conf size content = do
  span ← span_of conf size
  rest ← seek span.0 content
  let (num, hashed) = hash_parts block (length rest) span.1 rest (0, [])
  ok (print_int span.0 ++ b':' ∷ digits num, md5 hashed)
