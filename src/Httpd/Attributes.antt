-- ===== src/Httpd/Attributes.antt =====
-- `Response` of lib/snmpy/httpd.py: the attributes that a handler can assign, `body` among them with a
-- value of any type.
pub mod Assigned
use snmpy.Shared.{
  Bool, List, Proc, Result, [], attribute_error, false, if◌then◌else◌, not, ok, raise, ◌&&◌, ◌>>◌,
  ◌||◌, ◌∷◌, ltb, ◌^◌,
}
use snmpy.Shared.Text.{Text, codes, starts_with, text_eq}
use snmpy.Shared.Values.{Value, int, str}
use snmpy.Shared.Dicts.{Dict, has_key, insert, update_with}
use snmpy.Shared.Int.{pos, negsuc}

-- `self.__dict__`, with `head` apart from the others.
pub record Attributes : Type 0 where
  pub fields : Dict Value
  pub head : Dict Text

-- What `__init__` puts into `self.__dict__` first.
abbrev pub first_attributes : Attributes
first_attributes = record {
  fields =
      (codes "code", int (pos 200))
      ∷ (codes "line", str (codes "OK"))
      ∷ (codes "body", str [])
      ∷ [];
  head = [];
}

-- type(val) == int: of more than 64 bits, it is a long.
is_int : Value → Bool
is_int (int (pos n)) = ltb n (2 ^ 63)
is_int (int (negsuc n)) = ltb n (2 ^ 63)
is_int _ = false

-- __setattr__(key, val), of the instance's dictionary with `head` in it
pub setattr : Text → Value → Proc Attributes
unfolding is_int
setattr key val a =
    if starts_with key (b'_' ∷ []) || text_eq key (codes "head") || not (has_key key a.fields)
    then (raise attribute_error, a)
    else if text_eq key (codes "code") && not (is_int val)
    then (raise attribute_error, a)
    else (ok tt, record a { fields = insert key val a.fields })

-- A keyword argument of Response: `head`, or an attribute.
pub data Argument : Type 0 where
  head_argument : Dict Text → Argument
  attribute : Text → Value → Argument

pub take_arguments : List Argument → Proc Attributes
unfolding setattr
take_arguments [] a = (ok tt, a)
take_arguments (head_argument head ∷ more) a =
    take_arguments more (record a { head = update_with head a.head })
take_arguments (attribute key val ∷ more) a = (setattr key val >> take_arguments more) a

-- Response(**kwargs), in the order of kwargs.items()
pub make_response : List Argument → Result (Unit {0}) × Attributes
unfolding take_arguments
make_response kwargs = take_arguments kwargs first_attributes

-- Assignments one after another, those that fail caught by the handler.
pub assign_all : List (Text × Value) → Attributes → Attributes
unfolding setattr
assign_all [] a = a
assign_all ((key, val) ∷ more) a = assign_all more (setattr key val a).1
