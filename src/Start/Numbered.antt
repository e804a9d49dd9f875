-- ===== src/Start/Numbered.antt =====
-- The indexes of the plugins that the program `snmpy` gathers.
use snmpy.Shared.{
  All, Distinct, List, Option, [], ap, false, map, none, ok, ok-injective, refl, some, true, ◌++◌,
  ◌∷◌, ◌≡◌, ◌≢◌, Bool, Result, arith, if◌then◌else◌, key_error, length, ltb, ok_of_bind, or_raise,
  subst, sym, ◌&&◌, ◌>>=◌, ◌∙◌, All-append, Distinct-append_one, Exc, map-append, raise,
  value_error, Bool-cases, Option-cases, append-nil, append_assoc, inl, inr,
}
use snmpy.Shared.Text.{Text, codes, text_eq, split, text_eq_iff}
use snmpy.Shared.Int.{ltb_ℤ, pos, ℤ, eq_ℤ, eq_ℤ_refl}
use snmpy.Shared.Dicts.{
  Dict, has_key, lookup, insert, lookup-insert, lookup-update_with, update_with, insert_new,
}
use snmpy.Start.{
  Conf, PluginConf, Loaded, Setting, global, index_of, indexes, is_taken, mapping, number, retain,
  same_index, broken, fill, new_entry, nothing, text, unsuited, wants_retain, ConfFile, add_file,
  check_file, check_index, split_stem, add_files, next_file,
}
use snmpy.Shared.Numbers.{parse_int}

-- The plugins have these indexes, all different and from 1 on.
pub record IsNumbered (conf : Conf) (zs : List ℤ) : Type 0 where
  pub read : indexes conf ≡ ok (map number zs)
  pub distinct : Distinct zs
  pub positive : All (λ z. ltb_ℤ z (pos 1) ≡ false) zs
  pub global_set : has_key global conf ≡ true

-- The index that the name of a file has.
unfoldable pub index_in : ConfFile → Result ℤ
unfolding split_stem
index_in file = do parts ← split_stem file.stem; parse_int parts.0

-- A file that does not set the index itself.
abbrev pub LeavesIndex : Loaded → Type 0
LeavesIndex (mapping d) = lookup (codes "snmpy_index") d ≡ none
LeavesIndex _ = Unit

append_behind :
    (b : Bool) (r : Result Setting) (rest more : Result (List Setting)) (is : List Setting)
    (i : Setting)
    → (if b then rest else (do x ← r; l ← rest; ok (x ∷ l))) ≡ ok is
    → ((l : List Setting) → rest ≡ ok l → more ≡ ok (l ++ i ∷ []))
    → (if b then more else (do x ← r; l ← more; ok (x ∷ l))) ≡ ok (is ++ i ∷ [])
append_behind true r rest more is i h later = later is h
append_behind false r rest more is i h later =
    let (x, mine, h1) = ok_of_bind r _ h in
    let (l, others, h2) = ok_of_bind rest _ h1 in
    rw (mine, later l others) (ap (λ q. ok (q ++ i ∷ [])) (ok-injective h2))

indexes-append :
    (conf : Conf) (k : Text) (v : PluginConf) (is : List Setting) (i : Setting)
    → indexes conf ≡ ok is
    → text_eq k global ≡ false
    → lookup (codes "snmpy_index") v ≡ some i
    → indexes (conf ++ (k, v) ∷ []) ≡ ok (is ++ i ∷ [])
unfolding indexes index_of
indexes-append [] k v is i h plugin set =
    rw (plugin, set) (ap (λ l. ok (l ++ i ∷ [])) (ok-injective h))
indexes-append ((j, w) ∷ conf) k v is i h plugin set =
    append_behind (text_eq j global) (or_raise key_error (lookup (codes "snmpy_index") w))
      (indexes conf) (indexes (conf ++ (k, v) ∷ [])) is i h
      (λ l read. indexes-append conf k v l i read plugin set)

-- An index that is not taken is none of those there.
not_taken : (z : ℤ) (zs : List ℤ) → is_taken z (map number zs) ≡ false → All (λ y. y ≢ z) zs
unfolding is_taken same_index
not_taken z [] h = tt
not_taken z (y ∷ zs) h = (
  λ same.
      let e : eq_ℤ z y ≡ true = subst (λ x. eq_ℤ z x ≡ true) (sym same) (eq_ℤ_refl z) in
      absurd (ground arith),
  not_taken z zs (ground arith),
)

lookup-saved :
    (b : Bool) (v : Setting) (e : PluginConf)
    → lookup (codes "snmpy_index") (if b then insert (codes "save") v e else e)
      ≡ lookup (codes "snmpy_index") e
unfolding text_eq
lookup-saved true v e = lookup-insert (codes "save") (codes "snmpy_index") v e
lookup-saved false v e = refl

lookup-retain :
    (persist : Option Text) (extra : Dict Text) (name : Text) (e : PluginConf)
    → lookup (codes "snmpy_index") (retain persist extra name e) ≡ lookup (codes "snmpy_index") e
unfolding retain
lookup-retain none extra name e = refl
lookup-retain (some dir) extra name e =
    lookup-saved (ltb 0 (length dir) && wants_retain (lookup (codes "retain") e))
      (text (dir ++ b'/' ∷ name ++ codes ".dat")) e

filled : {a b : Conf} → ok (some a) ≡ ok (some b) → a ≡ b
filled h = cc

is_plugin :
    (name : Text) (conf : Conf)
    → lookup name conf ≡ none
    → has_key global conf ≡ true
    → text_eq name global ≡ false
is_plugin name conf new set = elim (Bool-cases (text_eq name global)) [
  | inl same ↦
      let eq : name ≡ global = ground (arith, text_eq_iff name global) in
      let missing : lookup global conf ≡ none = subst (λ k. lookup k conf ≡ none) eq new in
      absurd (ground arith)
  | inr differs ↦ differs
]

has_key-append :
    (k : Text) (conf more : Conf) → has_key k conf ≡ true → has_key k (conf ++ more) ≡ true
unfolding lookup
has_key-append k [] more h = absurd (ground arith)
has_key-append k ((j, v) ∷ conf) more h = ground (arith, has_key-append k conf more)

no_key : (k : Text) (conf : Conf) → has_key k conf ≡ false → lookup k conf ≡ none
no_key k conf h = elim (Option-cases (lookup k conf)) [
  | inl new ↦ new
  | inr (v, found) ↦ absurd (ground arith)
]

-- A check that did not raise.
passed :
    {X : Type 0} (b : Bool) (e : Exc) (r : Result X) (x : X)
    → (if b then raise e else r) ≡ ok x
    → (b ≡ false) × (r ≡ ok x)
passed true e r x h = absurd cc
passed false e r x h = (refl, h)

module _ (persist : Option Text) (extra : Dict Text) where
  -- A file that does not set the index is put behind the others under the index of its name.
  fill_lem :
      (name : Text) (z : ℤ) (loaded : Loaded) (conf conf' : Conf)
      → lookup name conf ≡ none
      → LeavesIndex loaded
      → fill persist extra name loaded (new_entry name z extra) conf ≡ ok (some conf')
      → (e : PluginConf) × (conf' ≡ conf ++ (name, e) ∷ [])
        × (lookup (codes "snmpy_index") e ≡ some (number z))
  unfolding fill lookup text_eq
  fill_lem name z (mapping d) conf conf' new leaves h =
      let e = update_with d (new_entry name z extra) in
      (
        retain persist extra name e,
        sym (filled h) ∙ insert_new name (retain persist extra name e) conf new,
        lookup-retain persist extra name e
            ∙ lookup-update_with (codes "snmpy_index") d (new_entry name z extra) leaves,
      )
  fill_lem name z nothing conf conf' new leaves h = (
    retain persist extra name (new_entry name z extra),
    sym (filled h) ∙ insert_new name (retain persist extra name (new_entry name z extra)) conf new,
    lookup-retain persist extra name (new_entry name z extra),
  )
  fill_lem name z broken conf conf' new leaves h = absurd cc
  fill_lem name z (unsuited x) conf conf' new leaves h = absurd cc

  -- A file that is taken has an index from 1 on that no other plugin has.
  check_index-IsNumbered :
      (name : Text) (z : ℤ) (loaded : Loaded) (conf conf' : Conf) (zs : List ℤ)
      → lookup name conf ≡ none
      → ltb_ℤ z (pos 1) ≡ false
      → LeavesIndex loaded
      → IsNumbered conf zs
      → check_index persist extra name z loaded conf ≡ ok (some conf')
      → IsNumbered conf' (zs ++ z ∷ [])
  unfolding check_index
  check_index-IsNumbered name z loaded conf conf' zs new from_1 leaves h done =
      let (is, read, h1) = ok_of_bind (indexes conf) _ done in
      let same : is ≡ map number zs = ok-injective (sym read ∙ h.read) in
      let (free, put) = passed (is_taken z is) value_error _ (some conf') h1 in
      let (e, whole, set) = fill_lem name z loaded conf conf' new leaves put in
      let plugin : text_eq name global ≡ false = is_plugin name conf new h.global_set in
      record {
        read =
            ap indexes whole
            ∙ indexes-append conf name e (map number zs) (number z) h.read plugin set
            ∙ ap ok (sym (map-append number zs (z ∷ [])));
        distinct =
            Distinct-append_one zs z h.distinct
              (not_taken z zs (subst (λ l. is_taken z l ≡ false) same free));
        positive = All-append _ zs (z ∷ []) h.positive (from_1, tt);
        global_set =
            subst (λ c. has_key global c ≡ true) (sym whole)
              (has_key-append global conf ((name, e) ∷ []) h.global_set);
      }

  add_file-IsNumbered :
      (file : ConfFile) (conf conf' : Conf) (zs : List ℤ)
      → LeavesIndex file.loaded
      → IsNumbered conf zs
      → add_file persist extra file conf ≡ ok (some conf')
      → (z : ℤ) × (index_in file ≡ ok z) × IsNumbered conf' (zs ++ z ∷ [])
  unfolding add_file check_file index_in
  add_file-IsNumbered file conf conf' zs leaves h done =
      let (parts, split, h1) = ok_of_bind (split_stem file.stem) _ done in
      let (new, h2) = passed (has_key parts.1 conf) value_error _ (some conf') h1 in
      let (z, int, h3) = ok_of_bind (parse_int parts.0) _ h2 in
      let (from_1, h4) = passed (ltb_ℤ z (pos 1)) value_error _ (some conf') h3 in
      (
        z,
        ap (λ r. r >>= (λ p. parse_int p.0)) split ∙ int,
        check_index-IsNumbered parts.1 z file.loaded conf conf' zs (no_key parts.1 conf new) from_1
            leaves h h4,
      )

  next_file-some :
      (f : Conf → Result (Option Conf)) (r : Result (Option Conf)) (conf' : Conf)
      → next_file persist extra f r ≡ ok (some conf')
      → (c : Conf) × (r ≡ ok (some c)) × (f c ≡ ok (some conf'))
  unfolding next_file
  next_file-some f (ok (some c)) conf' h = (c, refl, h)
  next_file-some f (ok none) conf' h = cc
  next_file-some f (raise e) conf' h = cc

  -- If the plugins that are there have different indexes from 1 on, the files of others are all taken, and none of
  -- these sets the index itself: the plugins, those that were there and one more for each file,
  -- have an index each, all different and from 1 on, and that of a file is the number that its
  -- name begins with.
  pub add_files-IsNumbered :
      (files : List ConfFile) (conf conf' : Conf) (zs : List ℤ)
      → All (λ file. LeavesIndex file.loaded) files
      → IsNumbered conf zs
      → add_files persist extra files conf ≡ ok (some conf')
      → (more : List ℤ) × (map index_in files ≡ map ok more) × IsNumbered conf' (zs ++ more)
  unfolding add_files
  add_files-IsNumbered [] conf conf' zs leaves h done = (
    [],
    refl,
    subst (λ c. IsNumbered c (zs ++ [])) (filled done)
        (subst (IsNumbered conf) (sym (append-nil zs)) h),
  )
  add_files-IsNumbered (file ∷ files) conf conf' zs (leaves, others) h done =
      let (c, mine, later) =
        next_file-some (add_files persist extra files) (add_file persist extra file conf) conf'
          done in
      let (z, index, numbered) = add_file-IsNumbered file conf c zs leaves h mine in
      let (more, same, all) =
        add_files-IsNumbered files c conf' (zs ++ z ∷ []) others numbered later in
      (
        z ∷ more,
        rw (index, same) refl,
        subst (IsNumbered conf') (append_assoc zs (z ∷ []) more) all,
      )
