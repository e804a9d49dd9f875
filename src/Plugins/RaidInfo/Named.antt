-- ===== src/Plugins/RaidInfo/Named.antt =====
-- The dictionary that lib/snmpy/module/raid_info.py reads out of the lines: an entry for each name.
use snmpy.Shared.{
  Result, Distinct, List, Option, [], key_error, name_error, none, ok, ok-injective, ok_of_bind,
  or_raise, raise, some, subst, ◌>>=◌, ◌∷◌, ◌≡◌,
}
use snmpy.Shared.Text.{Text, split}
use snmpy.Shared.Dicts.{Dict, insert-Distinct, keys, lookup}
use snmpy.Plugins.RaidInfo.{
  Output, Raid, Volume, add_disk, failed, new_volume, not_run, on_attrs, on_disk, on_found,
  on_label, on_line, on_volume, printed, read_detail, read_output, set_attr,
}
use snmpy.Plugins.RaidInfo.Patterns.{Attr, Disk, match_label, search_attr, search_disk}

-- What was read, if it was, has an entry for each name.
abbrev IsKept : Result Raid → Type 0
IsKept (ok r) = Distinct (keys r.raid)
IsKept (raise e) = Unit

then_IsKept :
    {X : Type 0} (x : Result X) (f : X → Result Raid) → ((a : X) → IsKept (f a)) → IsKept (x >>= f)
then_IsKept (ok a) f h = h a
then_IsKept (raise e) f h = tt

on_volume-IsKept :
    (f : Volume → Volume) (r : Raid) → Distinct (keys r.raid) → IsKept (on_volume f r)
unfolding on_volume
on_volume-IsKept f r h = then_IsKept (or_raise name_error r.name) _ (λ n.
    then_IsKept (or_raise key_error (lookup n r.raid)) _ (λ v. insert-Distinct n (f v) r.raid h))

on_disk-IsKept : (d : Option Disk) (r : Raid) → Distinct (keys r.raid) → IsKept (on_disk d r)
unfolding on_disk
on_disk-IsKept none r h = h
on_disk-IsKept (some d) r h = on_volume-IsKept (add_disk d) r h

on_found-IsKept :
    (a : Attr) (o : Option Text) (later : Result Raid) (r : Raid)
    → Distinct (keys r.raid)
    → IsKept later
    → IsKept (on_found a o later r)
unfolding on_found
on_found-IsKept a none later r h k = k
on_found-IsKept a (some s) later r h k = on_volume-IsKept (set_attr a s) r h

on_attrs-IsKept :
    (attrs : List Attr) (line : Text) (r : Raid)
    → Distinct (keys r.raid)
    → IsKept (on_attrs attrs line r)
unfolding on_attrs
on_attrs-IsKept [] line r h = on_disk-IsKept (search_disk line) r h
on_attrs-IsKept (a ∷ attrs) line r h =
    on_found-IsKept a (search_attr a line) (on_attrs attrs line r) r h
      (on_attrs-IsKept attrs line r h)

on_label-IsKept :
    (l : Option Text) (later : Result Raid) (r : Raid)
    → Distinct (keys r.raid)
    → IsKept later
    → IsKept (on_label l later r)
unfolding on_label
on_label-IsKept none later r h k = k
on_label-IsKept (some l) later r h k = insert-Distinct l new_volume r.raid h

lines_IsKept :
    (x : Result Raid) (f : Raid → Result Raid)
    → IsKept x
    → ((r : Raid) → Distinct (keys r.raid) → IsKept (f r))
    → IsKept (x >>= f)
lines_IsKept (ok r) f h k = k r h
lines_IsKept (raise e) f h k = tt

read_detail-IsKept :
    (attrs : List Attr) (lines : List Text) (r : Raid)
    → Distinct (keys r.raid)
    → IsKept (read_detail attrs lines r)
unfolding read_detail on_line
read_detail-IsKept attrs [] r h = h
read_detail-IsKept attrs (line ∷ lines) r h =
    lines_IsKept (on_line attrs line r) (read_detail attrs lines)
      (on_label-IsKept (match_label line) (on_attrs attrs line r) r h
        (on_attrs-IsKept attrs line r h))
      (read_detail-IsKept attrs lines)

-- Whatever the command prints, the arrays that are read have different names.
pub read_output-Distinct :
    (attrs : List Attr) (out : Output) (raid : Dict Volume)
    → read_output attrs out ≡ ok raid
    → Distinct (keys raid)
unfolding read_output
read_output-Distinct attrs failed raid h = subst (λ d. Distinct (keys d)) (ok-injective h) tt
read_output-Distinct attrs (not_run e) raid h = cc
read_output-Distinct attrs (printed text) raid h =
    let start : Raid = record { raid = []; name = none } in
    let (r, read, same) = ok_of_bind (read_detail attrs (split b'\n' text) start) _ h in
    let kept = subst IsKept read (read_detail-IsKept attrs (split b'\n' text) start tt) in
    subst (λ d. Distinct (keys d)) (ok-injective same) kept
