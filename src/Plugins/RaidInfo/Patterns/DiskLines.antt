-- ===== src/Plugins/RaidInfo/Patterns/DiskLines.antt =====
-- How lib/snmpy/module/raid_info.py reads the line of a member of an array.
use snmpy.Shared.{
  All, Bool, [], ap, arith, false, refl, some, true, ℕ, ◌++◌, ◌∙◌, ◌∷◌, ◌≡◌, Option, none,
}
use snmpy.Shared.Text.{Text, is_digit, is_space}
use snmpy.Plugins.RaidInfo.Patterns.{
  after_number, after_run, behind_word, disk_at, disk_of, drop_while, first_of_run, is_label_char,
  is_word, label_at, rest_of_run, run_of, search_disk, second_word, some_run, take_while,
}

module _ (p : ℕ → Bool) where
  abbrev pub IsRun : Text → Type 0
  IsRun [] = ⊥
  IsRun (c ∷ w) = (p c ≡ true) × All (λ d. p d ≡ true) w

  -- No byte of the class comes next.
  abbrev pub Stops : Text → Type 0
  Stops [] = Unit
  Stops (c ∷ s) = p c ≡ false

  take_while-run :
      (w rest : Text)
      → All (λ d. p d ≡ true) w
      → Stops rest
      → (take_while p (w ++ rest) ≡ w) × (drop_while p (w ++ rest) ≡ rest)
  unfolding take_while drop_while
  take_while-run [] [] h stops = (refl, refl)
  take_while-run [] (c ∷ rest) h stops = (rw (stops, take_while) refl, rw (stops, drop_while) refl)
  take_while-run (c ∷ w) rest (taken, h) stops =
      let (front, back) = take_while-run w rest h stops in
      (rw (taken, take_while) (ap (λ t. c ∷ t) front), rw (taken, drop_while) back)

  -- A run is matched whole where its class stops.
  some_run_lem : (w rest : Text) → IsRun w → Stops rest → some_run p (w ++ rest) ≡ some (w, rest)
  unfolding some_run run_of
  some_run_lem [] rest run stops = absurd run
  some_run_lem (c ∷ w) rest run stops =
      let (front, back) = take_while-run (c ∷ w) rest run stops in rw (front, back) refl

  after_run_lem :
      (w rest : Text) → IsRun w → Stops rest → after_run p (some (w ++ rest)) ≡ some rest
  unfolding after_run rest_of_run
  after_run_lem w rest run stops = ap rest_of_run (some_run_lem w rest run stops)

-- A run of another class is none of this, if it starts with none of its bytes.
no_run : (p q : ℕ → Bool) (w rest : Text) → IsRun q w → Stops p w → some_run p (w ++ rest) ≡ none
unfolding some_run run_of take_while
no_run p q [] rest run stops = absurd run
no_run p q (c ∷ w) rest run stops = rw (stops, take_while) refl

-- One class stops where another, with no byte in common, has a run.
Stops-run :
    (p q : ℕ → Bool) (w rest : Text)
    → ((c : ℕ) → q c ≡ true → p c ≡ false)
    → IsRun q w
    → Stops p (w ++ rest)
Stops-run p q [] rest differ run = absurd run
Stops-run p q (c ∷ w) rest differ run = differ c run.0

digit_not_space : (c : ℕ) → is_space c ≡ true → is_digit c ≡ false
unfolding is_space
digit_not_space c h = ground arith

space_not_digit : (c : ℕ) → is_digit c ≡ true → is_space c ≡ false
unfolding is_space
space_not_digit c h = ground arith

space_not_word : (c : ℕ) → is_word c ≡ true → is_space c ≡ false
unfolding is_space is_word
space_not_word c h = ground arith

word_not_space : (c : ℕ) → is_space c ≡ true → is_word c ≡ false
unfolding is_space is_word
word_not_space c h = ground arith

space_not_label : (c : ℕ) → is_label_char c ≡ true → is_space c ≡ false
unfolding is_space is_label_char is_word
space_not_label c h = ground arith

-- White space and a number behind it.
abbrev pub number : Text × Text → Text → Text
number (space, digits) rest = space ++ (digits ++ rest)

abbrev pub IsNumber : Text × Text → Type 0
IsNumber (space, digits) = IsRun is_space space × IsRun is_digit digits

after_number_lem :
    (n : Text × Text) (rest : Text)
    → IsNumber n
    → Stops is_digit rest
    → after_number (some (number n rest)) ≡ some rest
unfolding after_number
after_number_lem (space, digits) rest (blank, run) stops =
    ap (after_run is_digit) (
      after_run_lem is_space space (digits ++ rest) blank
        (Stops-run is_space is_digit digits rest space_not_digit run))
    ∙ after_run_lem is_digit digits rest run stops

-- The line of a member, from the four numbers on.
abbrev pub disk_line : Text × Text → Text × Text → Text × Text → Text × Text → Text → Text → Text
disk_line a b c d space rest = number a (number b (number c (number d (space ++ rest))))

number-Stops : (n : Text × Text) (rest : Text) → IsNumber n → Stops is_digit (number n rest)
number-Stops (space, digits) rest (blank, run) =
    Stops-run is_digit is_space space (digits ++ rest) digit_not_space blank

module _ (a b c d : Text × Text) (ha : IsNumber a) (hb : IsNumber b) (hc : IsNumber c)
    (hd : IsNumber d) (space : Text) (blank : IsRun is_space space) where
  search_disk-numbers :
      (rest : Text)
      → Stops is_space rest
      → search_disk (disk_line a b c d space rest) ≡ disk_at (some rest)
  unfolding search_disk
  search_disk-numbers rest stops =
      let d_end = Stops-run is_digit is_space space rest digit_not_space blank in
      let d_read = after_number_lem d (space ++ rest) hd d_end in
      let c_read =
        after_number_lem c (number d (space ++ rest)) hc (number-Stops d (space ++ rest) hd) in
      let b_read =
        after_number_lem b (number c (number d (space ++ rest))) hb
          (number-Stops c (number d (space ++ rest)) hc) in
      let a_read =
        after_number_lem a (number b (number c (number d (space ++ rest)))) ha
          (number-Stops b (number c (number d (space ++ rest))) hb) in
      ap (λ o. disk_at (after_run is_space (after_number (after_number (after_number o))))) a_read
      ∙ ap (λ o. disk_at (after_run is_space (after_number (after_number o)))) b_read
      ∙ ap (λ o. disk_at (after_run is_space (after_number o))) c_read
      ∙ ap (λ o. disk_at (after_run is_space o)) d_read
      ∙ ap disk_at (after_run_lem is_space space rest blank stops)

-- What stands behind the words of the state: white space, the label, and what no label goes on with.
abbrev pub labelled : Text → Text → Text → Text
labelled space label rest = space ++ (label ++ rest)

module _ (space label rest : Text) (blank : IsRun is_space space) (run : IsRun is_label_char label)
    (stops : Stops is_label_char rest) where
  label_at_lem : label_at (some_run is_space (labelled space label rest)) ≡ some label
  unfolding label_at first_of_run
  label_at_lem =
      ap label_at (
        some_run_lem is_space space (label ++ rest) blank
          (Stops-run is_space is_label_char label rest space_not_label run))
      ∙ ap first_of_run (some_run_lem is_label_char label rest run stops)

  first_word :
      (w after : Text)
      → IsRun is_word w
      → Stops is_word after
      → disk_at (some (w ++ after)) ≡ some (behind_word w after (some_run is_space after))
  unfolding disk_at disk_of
  first_word w after word ends = ap disk_of (some_run_lem is_word w after word ends)

  -- A state of one word, before a label that does not start like a word.
  one_word :
      (w : Text)
      → IsRun is_word w
      → Stops is_word label
      → disk_at (some (w ++ labelled space label rest))
        ≡ some (record { state = w; label = some label })
  unfolding behind_word second_word
  one_word w word start =
      let after = labelled space label rest in
      first_word w after word
        (Stops-run is_word is_space space (label ++ rest) word_not_space blank)
      ∙ ap (λ o. some (behind_word w after o))
          (some_run_lem is_space space (label ++ rest) blank
            (Stops-run is_space is_label_char label rest space_not_label run))
      ∙ ap (λ o. some (second_word w after space o))
          (no_run is_word is_label_char label rest run start)
      ∙ ap (λ o. some (record { state = w; label = o })) label_at_lem

  two_words :
      (w gap v : Text)
      → IsRun is_word w
      → IsRun is_space gap
      → IsRun is_word v
      → disk_at (some (w ++ (gap ++ (v ++ labelled space label rest))))
        ≡ some (record { state = w ++ (gap ++ v); label = some label })
  unfolding behind_word second_word
  two_words w gap v word gap_blank word' =
      let after = labelled space label rest in
      first_word w (gap ++ (v ++ after)) word
        (Stops-run is_word is_space gap (v ++ after) word_not_space gap_blank)
      ∙ ap (λ o. some (behind_word w (gap ++ (v ++ after)) o))
          (some_run_lem is_space gap (v ++ after) gap_blank
            (Stops-run is_space is_word v after space_not_word word'))
      ∙ ap (λ o. some (second_word w (gap ++ (v ++ after)) gap o))
          (some_run_lem is_word v after word'
            (Stops-run is_word is_space space (label ++ rest) word_not_space blank))
      ∙ ap (λ o. some (record { state = w ++ (gap ++ v); label = o })) label_at_lem

-- A state of one or two words.
abbrev pub state_text : Text → Option (Text × Text) → Text
state_text w none = w
state_text w (some (gap, v)) = w ++ (gap ++ v)

abbrev pub state_before : Text → Option (Text × Text) → Text → Text
state_before w none after = w ++ after
state_before w (some (gap, v)) after = w ++ (gap ++ (v ++ after))

-- The second word is one; without one, what comes next does not start like a word.
abbrev pub IsSecond : Option (Text × Text) → Text → Type 0
IsSecond none label = Stops is_word label
IsSecond (some (gap, v)) label = IsRun is_space gap × IsRun is_word v

module _ (a b c d : Text × Text) (ha : IsNumber a) (hb : IsNumber b) (hc : IsNumber c)
    (hd : IsNumber d) where
  -- Of a line of four numbers and words, the first two words are the state (or one, if what follows it
  -- does not start like a word), and the run of label characters behind them is the label, whatever
  -- follows that. So a device is told for a state of one word or two, and of a state of three words the
  -- third is taken for the device.
  pub search_disk_lem :
      (space w gap label rest : Text) (second : Option (Text × Text))
      → IsRun is_space space
      → IsRun is_word w
      → IsSecond second label
      → IsRun is_space gap
      → IsRun is_label_char label
      → Stops is_label_char rest
      → search_disk (disk_line a b c d space (state_before w second (labelled gap label rest)))
        ≡ some (record { state = state_text w second; label = some label })
  search_disk_lem space w gap label rest none blank word start gap_blank run stops =
      search_disk-numbers a b c d ha hb hc hd space blank (w ++ labelled gap label rest)
        (Stops-run is_space is_word w (labelled gap label rest) space_not_word word)
      ∙ one_word gap label rest gap_blank run stops w word start
  search_disk_lem space w gap label rest (some (between, v)) blank word (between_blank, word')
        gap_blank run stops =
      search_disk-numbers a b c d ha hb hc hd space blank
        (w ++ (between ++ (v ++ labelled gap label rest)))
        (Stops-run is_space is_word w (between ++ (v ++ labelled gap label rest)) space_not_word
          word)
      ∙ two_words gap label rest gap_blank run stops w between v word between_blank word'
