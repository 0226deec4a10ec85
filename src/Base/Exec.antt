-- ===== src/Base/Exec.antt =====
-- Exceptions, and methods that change an object and may raise. What was written before a raise
-- stays written, so the state comes back beside the exception too.
use Prim.Native.Nat.{ℕ}
use Prim.Native.String.{String}
use mathlib.Core.Path.{◌≡◌, refl}
use mathlib.Core.Bool.{Bool, true, false}
use mathlib.Core.Option.{Option}

-- The exception classes that the code raises, catches or lets through. The messages of exceptions
-- are log text and are not kept.
pub data Exn : Type 0 where
  key_error type_error value_error overflow_error index_error attribute_error : Exn
  runtime_error os_error yaml_error import_error keyboard_interrupt : Exn
  translation_error config_error binding_error : Exn
  http_error auth_error connection_error circuit_open : Exn
  invalid_status : Option ℕ → Exn
  transport_failure : Exn
  client_error : ℕ → Option String → Exn
  server_error : ℕ → Exn
  -- not of the code: where a model stops, as what follows is outside of it
  outside_model : Exn

pub data Result {ℓ} (A : Type ℓ) : Type ℓ where
  ok : A → Result A
  err : Exn → Result A

pub err≢ok {ℓ} : {A : Type ℓ} {e : Exn} {a : A} → Path (Result A) (err e) (ok a) → ⊥
err≢ok h = cc

pub ok-inj {ℓ} : {A : Type ℓ} {a b : A} → ok a ≡ ok b → a ≡ b
ok-inj h = cc

infixl 10 ◌>>=◌ ◌>>◌
-- What follows a call that may raise.
abbrev pub ◌>>=◌ {ℓ κ} : {A : Type ℓ} {B : Type κ} → Result A → (A → Result B) → Result B
ok value >>= rest = rest value
err e >>= rest = err e

-- `if bad: raise e`
abbrev pub raise_if : Bool → Exn → Result (Unit {0})
raise_if true e = err e
raise_if false e = ok tt

abbrev pub is_ok {ℓ} : {A : Type ℓ} → Result A → Bool
is_ok (ok a) = true
is_ok (err e) = false

abbrev pub ◌>>◌ {ℓ} : {B : Type ℓ} → Result (Unit {0}) → Result B → Result B
ok done >> rest = rest
err e >> rest = err e

-- A call that returned, with what was done with its result
abbrev pub Through {ℓ κ} : {A : Type ℓ} {B : Type κ} → Result A → (A → Result B) → B → Type (ℓ ⊔ κ)
Through m rest value = (found : _) × (m ≡ ok found) × (rest found ≡ ok value)

pub bind-Through {ℓ κ} :
    {A : Type ℓ} {B : Type κ} (m : Result A) (rest : A → Result B) {value : B}
    → m >>= rest ≡ ok value
    → Through m rest value
bind-Through (err e) rest h = absurd (err≢ok h)
bind-Through (ok found) rest h = (found, refl, h)

-- A guard before a call that returned did not raise.
pub raise_if-eq-ok {κ} :
    {B : Type κ} (bad : Bool) (e : Exn) (m : Result B) {b : B}
    → raise_if bad e >> m ≡ ok b
    → (bad ≡ false) × (m ≡ ok b)
raise_if-eq-ok true e m h = absurd (err≢ok h)
raise_if-eq-ok false e m h = (refl, h)
