-- ===== src/Httpd/Attributes/Assigned.antt =====
-- What assignments leave in a `Response` of lib/snmpy/httpd.py.
use snmpy.Shared.{
  Bool, Bool-cases, Result, arith, attribute_error, false, if◌then◌else◌, inl, inr, ok, raise, ◌&&◌,
  ◌||◌, ◌≡◌, [], not, refl, subst, sym, true, ◌∙◌, ◌∷◌, List, Option, Option-cases, ap, some,
}
use snmpy.Shared.Text.{Text, codes, starts_with, text_eq, text_eq_iff, text_eq_sym}
use snmpy.Shared.Values.{Value}
use snmpy.Shared.Dicts.{has_key, has_key-keys, insert, keys, lookup, keys-insert_old, lookup-insert}
use snmpy.Httpd.Attributes.{Attributes, first_attributes, is_int, setattr, assign_all}

-- The attributes that can be assigned, and the values that they take.
pub is_assignable : Text → Value → Bool
unfolding is_int
is_assignable key val =
    (text_eq key (codes "code") && is_int val)
    || text_eq key (codes "line")
    || text_eq key (codes "body")

abbrev pub HasFields : Attributes → Type 0
HasFields a = keys a.fields ≡ keys first_attributes.fields

-- What an assignment does to a response with the three fields.
setattr_as : Text → Value → Attributes → Result (Unit {0}) × Attributes
setattr_as key val a =
    if is_assignable key val
    then (ok tt, record a { fields = insert key val a.fields })
    else (raise attribute_error, a)

data Kind (key : Text) : Type 0 where
  is_code : key ≡ codes "code" → Kind key
  is_line : key ≡ codes "line" → Kind key
  is_body : key ≡ codes "body" → Kind key
  is_none :
      text_eq key (codes "code") ≡ false
      → text_eq key (codes "line") ≡ false
      → text_eq key (codes "body") ≡ false
      → Kind key

which_key : (key : Text) → Kind key
which_key key = elim (Bool-cases (text_eq key (codes "code"))) [
  | inl same ↦ is_code (ground (arith, text_eq_iff key (codes "code")))
  | inr code ↦ elim (Bool-cases (text_eq key (codes "line"))) [
    | inl same ↦ is_line (ground (arith, text_eq_iff key (codes "line")))
    | inr line ↦ elim (Bool-cases (text_eq key (codes "body"))) [
      | inl same ↦ is_body (ground (arith, text_eq_iff key (codes "body")))
      | inr body ↦ is_none code line body
    ]
  ]
]

has_field :
    (key : Text) (a : Attributes)
    → HasFields a
    → has_key key a.fields ≡ has_key key first_attributes.fields
has_field key a h = has_key-keys key a.fields first_attributes.fields h

no_field :
    (key : Text)
    → text_eq key (codes "code") ≡ false
    → text_eq key (codes "line") ≡ false
    → text_eq key (codes "body") ≡ false
    → has_key key first_attributes.fields ≡ false
unfolding lookup
no_field key x y z =
    rw
      (
        text_eq_sym (codes "code") key,
        x,
        text_eq_sym (codes "line") key,
        y,
        text_eq_sym (codes "body") key,
        z,
      )
      refl

named :
    (key : Text) (val : Value) (a : Attributes)
    → HasFields a
    → has_key key first_attributes.fields ≡ true
    → starts_with key (b'_' ∷ []) || text_eq key (codes "head") ≡ false
    → setattr key val a ≡ (
        if text_eq key (codes "code") && not (is_int val)
        then (raise attribute_error, a)
        else (ok tt, record a { fields = insert key val a.fields }))
unfolding setattr
named key val a h has plain = let found = has_field key a h ∙ has in ground (arith)

swapped :
    {X : Type 0} (p : Bool) (b c : X)
    → (if true && not p then b else c) ≡ (if (true && p) || false || false then c else b)
swapped true b c = refl
swapped false b c = refl

unnamed :
    (key : Text) (val : Value) (a : Attributes)
    → has_key key a.fields ≡ false
    → setattr key val a ≡ (raise attribute_error, a)
unfolding setattr
unnamed key val a missing = ground arith

not_assignable :
    (key : Text) (val : Value) (a : Attributes)
    → text_eq key (codes "code") ≡ false
    → text_eq key (codes "line") ≡ false
    → text_eq key (codes "body") ≡ false
    → setattr_as key val a ≡ (raise attribute_error, a)
unfolding setattr_as is_assignable
not_assignable key val a x y z = ground arith

-- On a response with the three fields, an assignment does this.
setattr_lem :
    (key : Text) (val : Value) (a : Attributes)
    → HasFields a
    → setattr key val a ≡ setattr_as key val a
unfolding setattr_as is_assignable is_int starts_with text_eq lookup setattr
setattr_lem key val a h = elim (which_key key) [
  | is_code e ↦
      subst (λ k. setattr k val a ≡ setattr_as k val a) (sym e)
        (named (codes "code") val a h refl refl ∙ swapped (is_int val) _ _)
  | is_line e ↦
      subst (λ k. setattr k val a ≡ setattr_as k val a) (sym e)
        (named (codes "line") val a h refl refl)
  | is_body e ↦
      subst (λ k. setattr k val a ≡ setattr_as k val a) (sym e)
        (named (codes "body") val a h refl refl)
  | is_none x y z ↦
      unnamed key val a (has_field key a h ∙ no_field key x y z)
      ∙ sym (not_assignable key val a x y z)
]

field_of_assignable :
    (key : Text) (val : Value)
    → is_assignable key val ≡ true
    → has_key key first_attributes.fields ≡ true
unfolding lookup is_assignable
field_of_assignable key val takes = ground (
  arith,
  text_eq_sym key (codes "code"),
  text_eq_sym key (codes "line"),
  text_eq_sym key (codes "body"),
)

insert-HasFields :
    (key : Text) (val : Value) (a : Attributes)
    → HasFields a
    → is_assignable key val ≡ true
    → HasFields (record a { fields = insert key val a.fields })
insert-HasFields key val a h takes =
    let has = has_field key a h ∙ field_of_assignable key val takes in
    elim (Option-cases (lookup key a.fields)) [
      | inl missing ↦ absurd (ground arith)
      | inr (w, found) ↦ keys-insert_old key val w a.fields found ∙ h
    ]

-- The value of the last assignment to `name` that can be made, or the one before all of them.
pub last_assigned : Text → List (Text × Value) → Option Value → Option Value
unfolding is_assignable
last_assigned name [] old = old
last_assigned name ((key, val) ∷ more) old =
    last_assigned name more (if is_assignable key val && text_eq key name then some val else old)

-- What is left of a response after the assignments.
abbrev pub IsAssigned : List (Text × Value) → Attributes → Attributes → Type 0
IsAssigned l a b =
    HasFields b
    × (b.head ≡ a.head)
    × ((name : Text) → lookup name b.fields ≡ last_assigned name l (lookup name a.fields))

takes_first :
    (key : Text) (val : Value) (more : List (Text × Value)) (a b : Attributes)
    → is_assignable key val ≡ true
    → IsAssigned more (record a { fields = insert key val a.fields }) b
    → IsAssigned ((key, val) ∷ more) a b
unfolding last_assigned
takes_first key val more a b takes (fields, head, last) = (
  fields,
  head,
  λ name.
      last name
      ∙ ap (last_assigned name more) (
          lookup-insert key name val a.fields
          ∙ ap (λ t. if t && text_eq key name then some val else lookup name a.fields) (sym takes)),
)

refused_first :
    (key : Text) (val : Value) (more : List (Text × Value)) (a b : Attributes)
    → is_assignable key val ≡ false
    → IsAssigned more a b
    → IsAssigned ((key, val) ∷ more) a b
unfolding last_assigned
refused_first key val more a b refused (fields, head, last) = (
  fields,
  head,
  λ name.
      last name
      ∙ ap
          (λ t.
            last_assigned name more
              (if t && text_eq key name then some val else lookup name a.fields))
          (sym refused),
)

-- Whatever is assigned to a response, one after another, where those assignments that raise are
-- caught: its attributes stay `code`, `line` and `body`, and its headers what they were; and each
-- attribute has the value of the last assignment to it, for `code` of the last one of an integer of 64
-- bits, or what it had before.
pub assign_all_lem :
    (l : List (Text × Value)) (a : Attributes) → HasFields a → IsAssigned l a (assign_all l a)
unfolding assign_all setattr_as last_assigned
assign_all_lem [] a h = (h, refl, λ name. refl)
assign_all_lem ((key, val) ∷ more) a h = elim (Bool-cases (is_assignable key val)) [
  | inl takes ↦
      let b : Attributes = record a { fields = insert key val a.fields } in
      let done : setattr key val a ≡ (ok tt, b) =
        setattr_lem key val a h
        ∙ ap (λ t. if t then (ok tt, b) else (raise attribute_error, a)) takes in
      subst (λ st. IsAssigned ((key, val) ∷ more) a (assign_all more st.1)) (sym done)
        (takes_first key val more a (assign_all more b) takes
          (assign_all_lem more b (insert-HasFields key val a h takes)))
  | inr refused ↦
      let done : setattr key val a ≡ (raise attribute_error, a) =
        setattr_lem key val a h
        ∙ ap
            (λ t.
              if t
              then (ok tt, record a { fields = insert key val a.fields })
              else (raise attribute_error, a))
            refused in
      subst (λ st. IsAssigned ((key, val) ∷ more) a (assign_all more st.1)) (sym done)
        (refused_first key val more a (assign_all more a) refused (assign_all_lem more a h))
]
