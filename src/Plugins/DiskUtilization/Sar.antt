-- ===== src/Plugins/DiskUtilization/Sar.antt =====
-- The lines of `sar` that lib/snmpy/module/disk_utilization.py reads.
use snmpy.Shared.{
  Result, Bool-cases, Exc, List, Option, [], ap, arith, false, get_elem?, index_error, inl, inr,
  leb, length, length-append, none, ok, or_raise, raise, refl, some, true, ℕ, ◌++◌, ◌+◌, ◌-◌, ◌>>=◌,
  ◌∙◌, ◌∷◌, ◌≡◌, ◌≢◌, ◌≤◌, suc,
}
use snmpy.Shared.Text.{Text, codes, starts_with, text_eq, text_eq_iff}
use snmpy.Shared.Int.{ℤ}
use snmpy.Plugins.DiskUtilization.{Averages, averages_part, device_entry, from_end, part_entry}
use snmpy.Plugins.DiskUtilization.Averages.{entries, read_entries}
use snmpy.Plugins.ProcessInfo.{words_of}

-- The words of a line about a device: the name of the device, its rates and sizes, how long a request
-- waits, how long it is served, and how much of the device is used.
abbrev pub IsDevice : List Text → Text → Text → Text → Type 0
IsDevice words dev wait util =
    (front : List Text) × (tps reads writes size queue served : Text) × (words
      ≡ front ++ dev ∷ tps ∷ reads ∷ writes ∷ size ∷ queue ∷ wait ∷ served ∷ util ∷ [])

module _ (int_float : Text → Result ℤ) where
  -- What the words of a line say: of a device its wait and use, or nothing.
  pub data Says : List Text → Option (Text × Averages) → Type 0 where
    says_blank : Says [] none
    says_average : (ws : List Text) → Says (codes "Average:" ∷ ws) none
    says_other :
        (w second : Text) (ws : List Text)
        → starts_with second (codes "dev") ≡ false
        → Says (w ∷ second ∷ ws) none
    says_device :
        (w second dev wait util : Text) (ws : List Text) (waits used : ℤ)
        → w ≢ codes "Average:"
        → starts_with second (codes "dev") ≡ true
        → IsDevice (w ∷ second ∷ ws) dev wait util
        → int_float wait ≡ ok waits
        → int_float util ≡ ok used
        → Says (w ∷ second ∷ ws) (some (dev, (waits, used)))

  -- The words of a line that the update fails at: a single one, or of a device a wait or a use that is no
  -- number.
  pub data IsBad : List Text → Type 0 where
    bad_word : (w : Text) → w ≢ codes "Average:" → IsBad (w ∷ [])
    bad_wait :
        (w second dev wait util : Text) (ws : List Text) (e : Exc)
        → w ≢ codes "Average:"
        → starts_with second (codes "dev") ≡ true
        → IsDevice (w ∷ second ∷ ws) dev wait util
        → int_float wait ≡ raise e
        → IsBad (w ∷ second ∷ ws)
    bad_util :
        (w second dev wait util : Text) (ws : List Text) (waits : ℤ) (e : Exc)
        → w ≢ codes "Average:"
        → starts_with second (codes "dev") ≡ true
        → IsDevice (w ∷ second ∷ ws) dev wait util
        → int_float wait ≡ ok waits
        → int_float util ≡ raise e
        → IsBad (w ∷ second ∷ ws)

  -- What the lines say, in their order; `none` if there is a bad one.
  pub data Reading : List Text → Option (List (Text × Averages)) → Type 0 where
    read_all : Reading [] (some [])
    read_next :
        (line : Text) (lines : List Text) (o : Option (Text × Averages))
        (es : List (Text × Averages))
        → Says (words_of line) o
        → Reading lines (some es)
        → Reading (line ∷ lines) (some (entries o ++ es))
    bad_here :
        (line : Text) (lines : List Text) → IsBad (words_of line) → Reading (line ∷ lines) none
    bad_later :
        (line : Text) (lines : List Text) (o : Option (Text × Averages))
        → Says (words_of line) o
        → Reading lines none
        → Reading (line ∷ lines) none

  get_elem?-append :
      (front back : List Text) (j : ℕ)
      → get_elem? (front ++ back) (length front + j) ≡ get_elem? back j
  get_elem?-append [] back j = ap (get_elem? back) (omega arith)
  get_elem?-append (x ∷ front) back j =
      let next : length (x ∷ front) + j ≡ suc (length front + j) = omega arith in
      ap (get_elem? (x ∷ front ++ back)) next ∙ get_elem?-append front back j

  from_end-append :
      (front back : List Text) (i : ℕ)
      → i ≤ length back
      → from_end i (front ++ back) ≡ or_raise index_error (get_elem? back (length back - i))
  unfolding from_end
  from_end-append front back i h =
      let long : leb i (length (front ++ back)) ≡ true =
        ground (arith, length-append front back, h) in
      let at : length (front ++ back) - i ≡ length front + (length back - i) =
        omega (arith, length-append front back, h) in
      rw (long, at, get_elem?-append front back) refl

  device_lem :
      (words : List Text) (dev wait util : Text)
      → IsDevice words dev wait util
      → averages_part int_float words
        ≡ (int_float wait >>= (λ waits. int_float util >>= (λ used. ok (dev, (waits, used)))))
  unfolding averages_part
  device_lem words dev wait util (front, tps, reads, writes, size, queue, served, e) =
      let back : List Text =
        dev ∷ tps ∷ reads ∷ writes ∷ size ∷ queue ∷ wait ∷ served ∷ util ∷ [] in
      let waits : from_end 3 words ≡ ok wait =
        ap (from_end 3) e ∙ from_end-append front back 3 (omega arith) in
      let used : from_end 1 words ≡ ok util =
        ap (from_end 1) e ∙ from_end-append front back 1 (omega arith) in
      let name : from_end 9 words ≡ ok dev =
        ap (from_end 9) e ∙ from_end-append front back 9 (omega arith) in
      rw (waits, averages_part, used, name) refl

  about_device :
      (w second : Text) (ws : List Text)
      → w ≢ codes "Average:"
      → starts_with second (codes "dev") ≡ true
      → part_entry int_float (w ∷ second ∷ ws)
        ≡ (averages_part int_float (w ∷ second ∷ ws) >>= (λ e. ok (some e)))
  unfolding part_entry device_entry
  about_device w second ws ne dev =
      let other_ : text_eq w (codes "Average:") ≡ false =
        ground (arith, text_eq_iff w (codes "Average:")) in
      rw (other_, dev) refl

  not_device :
      (w second : Text) (ws : List Text)
      → starts_with second (codes "dev") ≡ false
      → part_entry int_float (w ∷ second ∷ ws) ≡ ok none
  unfolding part_entry device_entry
  not_device w second ws h = elim (Bool-cases (text_eq w (codes "Average:"))) [
    | inl same ↦ rw same refl
    | inr differs ↦ rw (differs, h) refl
  ]

  Says-part_entry :
      (words : List Text) (o : Option (Text × Averages))
      → Says words o
      → part_entry int_float words ≡ ok o
  unfolding part_entry device_entry text_eq
  Says-part_entry words o says_blank = refl
  Says-part_entry words o (says_average ws) = refl
  Says-part_entry words o (says_other w second ws h) = not_device w second ws h
  Says-part_entry words o (says_device w second dev wait util ws waits used ne d device a b) =
      let read : averages_part int_float (w ∷ second ∷ ws) ≡ ok (dev, (waits, used)) =
        device_lem (w ∷ second ∷ ws) dev wait util device ∙ rw (a, b) refl in
      about_device w second ws ne d ∙ ap (λ r. r >>= (λ e. ok (some e))) read

  IsBad-part_entry :
      (words : List Text) → IsBad words → (e : Exc) × (part_entry int_float words ≡ raise e)
  unfolding part_entry device_entry
  IsBad-part_entry words (bad_word w ne) =
      let other_ : text_eq w (codes "Average:") ≡ false =
        ground (arith, text_eq_iff w (codes "Average:")) in
      (index_error, rw other_ refl)
  IsBad-part_entry words (bad_wait w second dev wait util ws x ne d device a) =
      let failed : averages_part int_float (w ∷ second ∷ ws) ≡ raise x =
        device_lem (w ∷ second ∷ ws) dev wait util device ∙ rw a refl in
      (x, about_device w second ws ne d ∙ ap (λ r. r >>= (λ e. ok (some e))) failed)
  IsBad-part_entry words (bad_util w second dev wait util ws waits x ne d device a b) =
      let failed : averages_part int_float (w ∷ second ∷ ws) ≡ raise x =
        device_lem (w ∷ second ∷ ws) dev wait util device ∙ rw (a, b) refl in
      (x, about_device w second ws ne d ∙ ap (λ r. r >>= (λ e. ok (some e))) failed)

  -- What `read_entries` makes of such lines.
  abbrev pub IsRead : Option (List (Text × Averages)) → Result (List (Text × Averages)) → Type 0
  IsRead (some es) r = r ≡ ok es
  IsRead none r = (e : Exc) × (r ≡ raise e)

  pub Reading-IsRead :
      (lines : List Text) (o : Option (List (Text × Averages)))
      → Reading lines o
      → IsRead o (read_entries int_float lines)
  Reading-IsRead lines o read_all = refl
  Reading-IsRead lines o (read_next line rest e es says h) =
      rw (Says-part_entry (words_of line) e says, Reading-IsRead rest (some es) h) refl
  Reading-IsRead lines o (bad_here line rest h) =
      let (x, failed) = IsBad-part_entry (words_of line) h in (x, rw failed refl)
  Reading-IsRead lines o (bad_later line rest e says h) =
      let (x, failed) = Reading-IsRead rest none h in
      (x, rw (Says-part_entry (words_of line) e says, failed) refl)
