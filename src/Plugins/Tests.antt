-- ===== src/Plugins/Tests.antt =====
-- A log that is followed.
use snmpy.Shared.{
  List, Proc, [], length, ok, refl, ◌++◌, ◌∷◌, ◌≡◌, arith, drop, min, take, ◌-◌, false, none,
  Result, some,
}
use snmpy.Shared.Text.{Text, codes, find}
use snmpy.Plugins.LogProcessor.{
  after_line, rounds, Sight, Tail, not_there, open_failed, opened, tail,
}
use snmpy.Plugins.LogProcessor.Chunks.{scan}
use snmpy.Plugins.LogProcessor.Growing.{appended, concat}
use snmpy.Plugins.FileHash.{bound, hash_span, md5sum, min_ℤ, span_of, split_span}
use snmpy.Plugins.FileHash.Span.{md5sum_lem}
use snmpy.Shared.Numbers.{digits, parse_int}
use snmpy.Shared.Int.{pos}
use snmpy.Tasks.{exited, work_func}
use snmpy.Plugins.LogProcessor.Vanished.{rounds-vanished}
use snmpy.Plugins.LogProcessor.Opened.{tail-appended}

-- Lines are collected.
abbrev collect : Text → Proc (List Text)
collect line lines = (ok tt, lines ++ line ∷ [])

-- One line is written in two pieces, the second with half of the next.
abbrev pieces : List Text
pieces = codes "er" ∷ (codes "ror" ++ b'\n' ∷ codes "wa") ∷ []

tail-appended_example :
    (out : Result (Unit {0}) × Tail (List Text)) × (tail collect
        ((not_there ∷ open_failed ∷ []) ++ opened (codes "old") ∷ [])
        (appended 7 (codes "old") pieces)
        []
      ≡ some out)
    × (out.0 ≡ (scan collect [] (concat pieces) []).0)
    × (out.1.parsed ≡ (scan collect [] (concat pieces) []).2)
tail-appended_example =
    tail-appended collect (not_there ∷ open_failed ∷ []) [] 7 pieces (codes "old") [] (tt, (tt, tt))

pieces_scanned : (scan collect [] (concat pieces) []).2 ≡ codes "error" ∷ []
unfolding scan after_line
pieces_scanned = refl

-- A hash that is the text itself, of four bytes from the second on.
abbrev same_text : Text → Text
same_text s = s

span_example : span_of (hash_span (codes "1:4")) 8 ≡ ok (pos 1, pos 4)
unfolding span_of split_span min_ℤ bound parse_int find
span_example = refl

md5sum_lem_example :
    md5sum 64 same_text (hash_span (codes "1:4")) 8 (codes "original")
    ≡ ok (
      digits 1 ++ b':' ∷ digits (min 4 (length (codes "original") - 1)),
      same_text (take 4 (drop 1 (codes "original"))),
    )
md5sum_lem_example =
    md5sum_lem 64 (omega arith) same_text (hash_span (codes "1:4")) 8 (codes "original") 1 4
      span_example

abbrev rotated : Sight
rotated = record { named = none; opens = false; inode = 7; nlink = 0; content = codes "old" }

abbrev at_start : Tail (List Text)
at_start = record { spot = 3; parsed = [] }

no_rounds : rounds collect [] at_start ≡ (ok tt, at_start)
unfolding rounds
no_rounds = refl

rounds-vanished_example :
    (work_func (rounds collect ([] ++ rotated ∷ []) at_start).0 ≡ exited 1)
    × ((rounds collect ([] ++ rotated ∷ []) at_start).1 ≡ at_start)
rounds-vanished_example = rounds-vanished collect [] [] rotated at_start at_start refl no_rounds
