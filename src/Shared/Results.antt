-- ===== src/Shared/Results.antt =====
-- Python code that may raise. A pure function returns a `Result`; a method that mutates an object
-- is an `Exec` of the object: what was written before a raise stays written, so the state comes
-- back beside the exception too.
use mathlib.Core.Path.{◌≡◌, refl}
use mathlib.Core.Logic.{◌⊎◌, inl, inr}
use mathlib.Core.Option.{Option, none, some}

-- The classes of exceptions that the code raises or that the operations it uses raise.
pub data Exc : Type 0 where
  value_error type_error index_error key_error attribute_error name_error : Exc
  io_error os_error runtime_error not_implemented : Exc

pub data Result {ℓ} (A : Type ℓ) : Type ℓ where
  ok : A → Result A
  raise : Exc → Result A

infixl 10 ◌>>=◌
abbrev pub ◌>>=◌ {ℓ κ} : {A : Type ℓ} {B : Type κ} → Result A → (A → Result B) → Result B
ok a >>= f = f a
raise e >>= f = raise e

-- A lookup that raises `e` where there is nothing.
abbrev pub or_raise {ℓ} : {A : Type ℓ} → Exc → Option A → Result A
or_raise e none = raise e
or_raise e (some a) = ok a

abbrev pub Exec {ℓ} : Type ℓ → Type ℓ → Type ℓ
Exec S A = S → Result A × S

-- An action whose result is ignored.
abbrev pub Proc {ℓ} : Type ℓ → Type ℓ
Proc S = S → Result (Unit {0}) × S

module _ {ℓ} {S : Type ℓ} where
  abbrev pub continue : Result (Unit {0}) × S → Proc S → Result (Unit {0}) × S
  continue (ok _, s) m = m s
  continue (raise e, s) m = (raise e, s)

  infixl 10 ◌>>◌
  -- One statement after another.
  abbrev pub ◌>>◌ : Proc S → Proc S → Proc S
  ◌>>◌ m n s = continue (m s) n

-- A statement is followed by what does the same.
pub continue_same :
    {S : Type 0} {m n : Proc S} (r : Result (Unit {0}) × S)
    → ((s : S) → m s ≡ n s)
    → continue r m ≡ continue r n
continue_same (ok u, s) h = h s
continue_same (raise e, s) h = refl

-- A step that ends well was given a value to go on from.
pub ok_of_bind {κ ℓ} :
    {X : Type ℓ} {Y : Type κ} {y : Y} (r : Result X) (next : X → Result Y)
    → (r >>= next) ≡ ok y
    → (x : X) × (r ≡ ok x) × (next x ≡ ok y)
ok_of_bind (raise e) next h = cc
ok_of_bind (ok x) next h = (x, refl, h)

pub ok-injective {ℓ} : {A : Type ℓ} {a b : A} → ok a ≡ ok b → a ≡ b
ok-injective h = cc

pub Result-cases {ℓ} :
    {A : Type ℓ} (r : Result A) → ((a : A) × (r ≡ ok a)) ⊎ ((e : Exc) × (r ≡ raise e))
Result-cases (ok a) = inl (a, refl)
Result-cases (raise e) = inr (e, refl)
