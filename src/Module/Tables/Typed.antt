-- ===== src/Module/Tables/Typed.antt =====
-- `TableModule.append` of lib/snmpy/module/__init__.py, given values of the types of the columns.
use snmpy.Shared.{
  List, [], ap, append_assoc, arith, get_elem?, length, ok, refl, some, sym, ℕ, ◌++◌, ◌+◌, ◌-◌, ◌∷◌,
  ◌≡◌, length-append, subst, ◌∙◌,
}
use snmpy.Shared.Text.{Text}
use snmpy.Shared.Values.{Value, int, null, str}
use snmpy.Shared.Dicts.{Dict, keys}
use snmpy.Module.Tables.{TableModule, append, cell, convert_row, extend, fetch, new_row, sequence}
use snmpy.Module.Item.{Item}
use snmpy.Mibgen.Syntax.{NativeType, int_type, str_type, to_native}

-- The columns were made of these, from number `i` + 1 on.
abbrev pub HasColumns : ℕ → List (Text × NativeType) → Dict Item → Type 0
HasColumns i [] [] = Unit
HasColumns i (k ∷ ks) (col ∷ cols) =
    (col.0 ≡ k.0)
    × (col.1.oidnum ≡ i + 1)
    × (col.1.syntax.native_type ≡ k.1)
    × HasColumns (i + 1) ks cols
HasColumns i [] (col ∷ cols) = ⊥
HasColumns i (k ∷ ks) [] = ⊥

abbrev pub HasType : NativeType → Value → Type 0
HasType int_type (int z) = Unit
HasType str_type (str s) = Unit
HasType _ _ = ⊥

abbrev pub HaveTypes : List (Text × NativeType) → List Value → Type 0
HaveTypes [] [] = Unit
HaveTypes (k ∷ ks) (v ∷ vs) = HasType k.1 v × HaveTypes ks vs
HaveTypes [] (v ∷ vs) = ⊥
HaveTypes (k ∷ ks) [] = ⊥

-- The values that the conversions to the columns' types make of these.
abbrev pub AreConverted : List (Text × NativeType) → List Value → List Value → Type 0
AreConverted [] [] [] = Unit
AreConverted (k ∷ ks) (v ∷ vs) (w ∷ ws) = (to_native k.1 v ≡ ok w) × AreConverted ks vs ws
AreConverted _ _ _ = ⊥

pub keys_of_columns :
    (i : ℕ) (ks : List (Text × NativeType)) (cols : Dict Item)
    → HasColumns i ks cols
    → keys cols ≡ keys ks
keys_of_columns i [] [] h = refl
keys_of_columns i (k ∷ ks) ((key, col) ∷ cols) (same, num, type, h) =
    rw (same, keys_of_columns (i + 1) ks cols h) refl
keys_of_columns i [] (col ∷ cols) h = absurd h
keys_of_columns i (k ∷ ks) [] h = absurd h

get_elem?-front :
    (front : List Value) (v : Value) (vs : List Value)
    → get_elem? (front ++ v ∷ vs) (length front) ≡ some v
get_elem?-front [] v vs = refl
get_elem?-front (x ∷ front) v vs = get_elem?-front front v vs

cell_converted :
    (front : List Value) (v w : Value) (vs : List Value) (k : Text × NativeType) (key : Text)
    (col : Item)
    → col.oidnum ≡ length front + 1
    → col.syntax.native_type ≡ k.1
    → to_native k.1 v ≡ ok w
    → cell (sequence (front ++ v ∷ vs)) key col ≡ ok w
unfolding cell fetch
cell_converted front v w vs k key col num type ty =
    let at : col.oidnum - 1 ≡ length front = omega arith in
    rw (at, get_elem?-front front v vs, type) ty

whole :
    (front : List Value) (v : Value) (vs : List Value) → front ++ v ∷ vs ≡ (front ++ v ∷ []) ++ vs
whole front v vs = sym (append_assoc front (v ∷ []) vs)

convert_converted :
    (front vs ws : List Value) (ks : List (Text × NativeType)) (cols : Dict Item)
    → HasColumns (length front) ks cols
    → AreConverted ks vs ws
    → convert_row (sequence (front ++ vs)) cols ≡ (ok tt, ws)
unfolding convert_row extend
convert_converted front [] [] [] [] h typed = refl
convert_converted front (v ∷ vs) (w ∷ ws) (k ∷ ks) ((key, col) ∷ cols) (same, num, type, h)
      (ty, typed) =
    let at : length front + 1 ≡ length (front ++ v ∷ []) = sym (length-append front (v ∷ [])) in
    let rest =
      convert_converted (front ++ v ∷ []) vs ws ks cols (subst (λ n. HasColumns n ks cols) at h)
        typed in
    rw (cell_converted front v w vs k key col num type ty) (
      ap (λ l. extend (ok w) (convert_row (sequence l) cols)) (whole front v vs)
      ∙ ap (extend (ok w)) rest)
convert_converted front vs ws (k ∷ ks) [] h typed = absurd h
convert_converted front vs ws [] (col ∷ cols) h typed = absurd h
convert_converted front [] ws (k ∷ ks) (col ∷ cols) h typed = absurd typed
convert_converted front (v ∷ vs) ws [] cols h typed = absurd typed
convert_converted front vs [] (k ∷ ks) cols h typed = absurd typed
convert_converted front vs (w ∷ ws) [] cols h typed = absurd typed

-- `append` of values that the columns' types convert adds the converted values as one row.
pub append_converted :
    (vs ws : List Value) (ks : List (Text × NativeType)) (t : TableModule)
    → HasColumns 0 ks t.cols
    → AreConverted ks vs ws
    → append (sequence vs) t ≡ (ok tt, record t { rows = t.rows ++ ws ∷ [] })
unfolding append new_row
append_converted vs ws ks t h typed = rw (convert_converted [] vs ws ks t.cols h typed) refl

to_native_typed : (k : NativeType) (v : Value) → HasType k v → to_native k v ≡ ok v
unfolding to_native
to_native_typed int_type (int z) h = refl
to_native_typed str_type (str s) h = refl
to_native_typed int_type null h = absurd h
to_native_typed int_type (str s) h = absurd h
to_native_typed str_type null h = absurd h
to_native_typed str_type (int z) h = absurd h

-- Values of the columns' types are kept as they are.
typed_converted :
    (ks : List (Text × NativeType)) (vs : List Value) → HaveTypes ks vs → AreConverted ks vs vs
typed_converted [] [] h = tt
typed_converted (k ∷ ks) (v ∷ vs) (ty, h) = (to_native_typed k.1 v ty, typed_converted ks vs h)
typed_converted [] (v ∷ vs) h = absurd h
typed_converted (k ∷ ks) [] h = absurd h

-- So `append` of them adds them as one row.
pub append_typed :
    (vs : List Value) (ks : List (Text × NativeType)) (t : TableModule)
    → HasColumns 0 ks t.cols
    → HaveTypes ks vs
    → append (sequence vs) t ≡ (ok tt, record t { rows = t.rows ++ vs ∷ [] })
append_typed vs ks t h typed = append_converted vs vs ks t h (typed_converted ks vs typed)
