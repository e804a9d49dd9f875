-- ===== src/Plugins/FileValue/Tests.antt =====
-- A file at concrete inputs.
use snmpy.Shared.{
  List, [], arith, false, none, ok, refl, true, ◌∷◌, ◌≡◌, ◌≢◌, All, All-map, Distinct,
  if◌then◌else◌, inr, some, ◌==◌,
}
use snmpy.Shared.Text.{Text, codes, text_eq, one_of, find, join, text_eq_iff}
use snmpy.Shared.Int.{pos}
use snmpy.Shared.Dicts.{Dict, keys}
use snmpy.Shared.Values.{int, null, str}
use snmpy.Module.Item.{Item}
use snmpy.Module.Item.Each.{with_value}
use snmpy.Mibgen.Syntax.{integer32_syntax, octet_string_syntax, Syntax, to_native}
use snmpy.Plugins.FileValue.{FileConf, FileStat, Gathered, file_update}
use snmpy.Plugins.FileValue.Told.{
  file_update_lem, AreTold, HasNoStat, by_hash, by_span, by_stat, by_text, stat_names, stat_size,
}
use snmpy.Plugins.FileHash.{bound, hash_span, md5sum, min_ℤ, span_of, split_span}
use snmpy.Plugins.FileHash.Span.{md5sum_lem}
use snmpy.Shared.Numbers.{digits, parse_int}
use snmpy.Parser.{parse_value}

abbrev size_item : Item
size_item = record {
  oidnum = 8;
  oidstr = codes "SNMPY-MIB::snmpyLogFileSize";
  syntax = integer32_syntax;
  regex = none;
  cdef = none;
  join = [];
  value = null;
}

abbrev md5_item : Item
md5_item = record size_item {
  oidnum = 12;
  oidstr = codes "SNMPY-MIB::snmpyLogFileMd5";
  syntax = octet_string_syntax;
}

abbrev span_item : Item
span_item = record md5_item { oidnum = 13; oidstr = codes "SNMPY-MIB::snmpyLogMd5Span" }

-- What stands behind an `E` in the text.
abbrev error_item : Item
error_item = record md5_item {
  oidnum = 14;
  oidstr = codes "SNMPY-MIB::snmpyLogError";
  regex = some (codes "E(.)");
}

abbrev log_items : Dict Item
log_items =
    (codes "file_size", size_item)
    ∷ (codes "file_md5", md5_item)
    ∷ (codes "md5_span", span_item)
    ∷ (codes "error", error_item)
    ∷ []

abbrev log_conf : FileConf
log_conf = record {
  object = codes "/var/log/messages";
  use_stat = true;
  use_text = true;
  use_hash = some (hash_span (codes "1:4"));
  own = [];
}

abbrev log_stat : FileStat
log_stat = record {
  st_mode = 33188;
  st_atime = pos 10;
  st_mtime = pos 20;
  st_ctime = pos 20;
  st_nlink = 1;
  st_size = 8;
  st_ino = 5;
  st_uid = 0;
  st_gid = 0;
}

abbrev log_text : Text
log_text = codes "go E7 on"

abbrev gathered : Gathered
gathered = record {
  info = log_stat;
  text = log_text;
  part = str (codes "1:4");
  hash = str (codes "o E7");
}

abbrev same_text : Text → Text
same_text s = s

abbrev behind_e : Text → Text → List Text
behind_e regex [] = []
behind_e regex (c ∷ []) = []
behind_e regex (c ∷ d ∷ s) =
    let rest = behind_e regex (d ∷ s) in if c == b'E' then (d ∷ []) ∷ rest else rest

error_parsed : parse_value behind_e log_text error_item ≡ ok (str (codes "7"))
unfolding parse_value snmpy.Mibgen.Syntax.to_native join
error_parsed = refl

span_read : span_of (hash_span (codes "1:4")) 8 ≡ ok (pos 1, pos 4)
unfolding span_of split_span find parse_int min_ℤ bound
span_read = refl

log_summed :
    md5sum 64 same_text (hash_span (codes "1:4")) 8 log_text ≡ ok (codes "1:4", codes "o E7")
unfolding digits
log_summed =
    md5sum_lem 64 (omega arith) same_text (hash_span (codes "1:4")) 8 log_text 1 4 span_read

abbrev log_items_set : Dict Item
log_items_set =
    (codes "file_size", with_value (int (pos 8)) size_item)
    ∷ (codes "file_md5", with_value (str (codes "o E7")) md5_item)
    ∷ (codes "md5_span", with_value (str (codes "1:4")) span_item)
    ∷ (codes "error", with_value (str (codes "7")) error_item)
    ∷ []

differ : (s t : Text) → text_eq s t ≡ false → s ≢ t
differ s t h = ground (arith, text_eq_iff s t)

log_items-Distinct : Distinct (keys log_items)
unfolding text_eq
log_items-Distinct = (
  (differ _ _ refl, (differ _ _ refl, (differ _ _ refl, tt))),
  ((differ _ _ refl, (differ _ _ refl, tt)), ((differ _ _ refl, tt), (tt, tt))),
)

-- No status is told for a name.
other_name :
    (key : Text) → All (λ name. text_eq name key ≡ false) stat_names → HasNoStat log_conf key
other_name key h = inr (inr (All-map (λ name e. differ name key e) stat_names h))

log_told : AreTold behind_e log_conf gathered log_items log_items_set
unfolding text_eq one_of
log_told = (
  refl,
  int (pos 8),
  by_stat (int (pos 8)) refl refl stat_size,
  refl,
  (
    refl,
    str (codes "o E7"),
    by_hash
        (other_name (codes "file_md5") (
          refl,
          (refl, (refl, (refl, (refl, (refl, (refl, (refl, (refl, (refl, (refl, tt)))))))))),
        ))
        refl,
    refl,
    (
      refl,
      str (codes "1:4"),
      by_span
          (other_name (codes "md5_span") (
            refl,
            (refl, (refl, (refl, (refl, (refl, (refl, (refl, (refl, (refl, (refl, tt)))))))))),
          ))
          refl,
      refl,
      (
        refl,
        str (codes "7"),
        by_text (str (codes "7"))
            (other_name (codes "error") (
              refl,
              (refl, (refl, (refl, (refl, (refl, (refl, (refl, (refl, (refl, (refl, tt)))))))))),
            ))
            (differ _ _ refl) (differ _ _ refl) (omega arith) error_parsed,
        refl,
        tt,
      ),
    ),
  ),
)

file_update_lem_example :
    file_update 64 same_text behind_e log_conf (ok log_stat) (ok log_text) log_items
    ≡ (ok tt, log_items_set)
file_update_lem_example =
    file_update_lem 64 same_text behind_e log_conf (ok log_text) gathered log_items log_items_set
      log_items-Distinct refl (log_text, codes "1:4", codes "o E7", refl, log_summed, refl, refl)
      log_told
