-- ===== src/Agentx/Asn/Tests.antt =====
-- Runs of the value classes at concrete inputs.
use snmpy.Shared.{
  [], length, length-replicate, none, ok, refl, replicate, some, ℕ, ◌++◌, ◌-◌, ◌^◌, ◌↔◌, ◌∷◌, ◌≡◌,
  ◌>>=◌,
}
use snmpy.Shared.Text.{Text, codes}
use snmpy.Shared.Values.{int, str}
use snmpy.Shared.Int.{negsuc, pos, ℤ}
use snmpy.Agentx.Asn.{
  Asn, assign, assign_buffer, bits, buffer, c_string, counter64, data_size, get_value, integer32,
  max_str_len, octet_string, set_value, split_int, words, zeros, refresh,
}
use snmpy.Agentx.Asn.Laws.{
  InRange32, read, read-counter64, read-integer32, read-set_value_octet_string,
}
use snmpy.Agentx.Asn.Watching.{IsSynced}

-- -1 >> 32 is -1, which fills the high word.
counter64_negative : read (counter64 (int (negsuc 0))) ≡ ok (int (pos (2 ^ 96 - 1)))
unfolding counter64 split_int get_value
counter64_negative = refl

integer32_wraps : read (integer32 (int (pos (2 ^ 31)))) ≡ ok (int (negsuc (2 ^ 31 - 1)))
unfolding integer32 get_value
integer32_wraps = refl

set_value_shrinks :
    read (do a ← octet_string (str (codes "running")); set_value (str (codes "ok")) a)
    ≡ ok (str (codes "ok"))
unfolding octet_string set_value assign assign_buffer zeros get_value c_string
set_value_shrinks = refl

abbrev blank : Text
blank = replicate 1024 0

blank_size : length blank ≡ max_str_len
blank_size = length-replicate {A = ℕ} 1024 0

read-set_value_octet_string_example :
    read (set_value (str (codes "ok")) (record { body = buffer blank; watcher = none }))
    ≡ ok (str (c_string (codes "ok")))
read-set_value_octet_string_example = read-set_value_octet_string blank (codes "ok") none blank_size

read-counter64_example :
    (read (counter64 (int (pos 5))) ≡ ok (int (pos 5)))
    × (read (set_value (int (pos 5)) (record { body = words 0 7; watcher = none }))
        ≡ ok (int (pos 5)))
read-counter64_example = read-counter64 (pos 5) 0 7 none

read-integer32_example :
    ((read (integer32 (int (negsuc 4))) ≡ ok (int (negsuc 4))) ↔ InRange32 (negsuc 4))
    × ((read (set_value (int (negsuc 4)) (record { body = bits 3; watcher = none }))
          ≡ ok (int (negsuc 4)))
        ↔ InRange32 (negsuc 4))
    × ((r : ℤ) × (read (integer32 (int (negsuc 4))) ≡ ok (int r))
        × (read (set_value (int (negsuc 4)) (record { body = bits 3; watcher = none }))
            ≡ ok (int r)))
read-integer32_example = read-integer32 (negsuc 4) 3 none

abbrev watched : Asn
watched = record {
  body = buffer (codes "ab" ++ 0 ∷ 0 ∷ []);
  watcher = some (record { data_size = 2; max_size = 1024; type = 4; flags = 2 });
}

abbrev rewatched : Asn
rewatched = record {
  body = buffer (codes "x" ++ 0 ∷ 0 ∷ 0 ∷ []);
  watcher = some (record { data_size = 1; max_size = 1024; type = 4; flags = 2 });
}

rewatched_set : set_value (str (codes "x")) watched ≡ ok rewatched
unfolding set_value assign assign_buffer refresh data_size c_string
rewatched_set = refl

watched-IsSynced : IsSynced watched
unfolding data_size c_string
watched-IsSynced = (refl, refl)
