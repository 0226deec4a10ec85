-- ===== src/Base/Act.antt =====
-- Code that calls out of the program: each call may raise and changes the world, and the calls are
-- kept in a log, the latest first.
pub mod Keeps
use Prim.Native.Nat.{ℕ, ◌+◌}
use mathlib.Core.Bool.{Bool, true, false}
use mathlib.Core.List.{List, [], ◌∷◌}
use open_rmf_adapters_quiksy.Base.Exec.{
  Exn, Result, ok, err, binding_error, keyboard_interrupt, outside_model,
}
use open_rmf_adapters_quiksy.Base.Tests.{if◌then◌else◌}

pub record Run (A W : Type 0) : Type 0 where
  pub world : W
  pub log : List A

abbrev pub Act : Type 0 → Type 0 → Type 0 → Type 0
Act A W R = Run A W → Result R × Run A W

-- `except Exception` lets it through.
abbrev pub is_exception : Exn → Bool
is_exception keyboard_interrupt = false
is_exception outside_model = false
is_exception _ = true

abbrev pub is_binding_error : Exn → Bool
is_binding_error binding_error = true
is_binding_error _ = false

abbrev pub is_interrupt : Exn → Bool
is_interrupt keyboard_interrupt = true
is_interrupt _ = false

module _ {A W : Type 0} where
  abbrev pub done : {R : Type 0} → R → Act A W R
  done r s = (ok r, s)

  abbrev pub raises : {R : Type 0} → Exn → Act A W R
  raises e s = (err e, s)

  -- a computation that calls nothing
  abbrev pub pure : {R : Type 0} → Result R → Act A W R
  pure r s = (r, s)

  abbrev pub call : {R : Type 0} → A → (W → Result R × W) → Act A W R
  call a port s = let (r, w) = port s.world in (r, record { world = w; log = a ∷ s.log })

  abbrev pub continue : {R Q : Type 0} → Result R × Run A W → (R → Act A W Q) → Result Q × Run A W
  continue (ok r, s) rest = rest r s
  continue (err e, s) rest = (err e, s)

  infixl 10 ◌>>=◌ ◌>>◌
  abbrev pub ◌>>=◌ : {R Q : Type 0} → Act A W R → (R → Act A W Q) → Act A W Q
  m >>= rest = λ s. continue (m s) rest

  abbrev pub ◌>>◌ : {Q : Type 0} → Act A W (Unit {0}) → Act A W Q → Act A W Q
  m >> rest = λ s. continue (m s) (λ done. rest)

  -- `finally`: an exception of the cleaning up replaces what there was.
  abbrev pub settle : {R : Type 0} → Result R → Result (Unit {0}) × Run A W → Result R × Run A W
  settle r (ok done, s) = (r, s)
  settle r (err e, s) = (err e, s)

  abbrev pub try_finally : {R : Type 0} → Act A W R → Act A W (Unit {0}) → Act A W R
  try_finally m cleanup s = let (r, s') = m s in settle r (cleanup s')

  -- `except` for the exceptions of a kind
  abbrev pub recover : {R : Type 0} → Bool → Act A W R → Exn → Act A W R
  recover true handler e s = handler s
  recover false handler e s = (err e, s)

  abbrev pub handled :
      {R : Type 0} → (Exn → Bool) → Act A W R → Result R × Run A W → Result R × Run A W
  handled caught handler (ok r, s) = (ok r, s)
  handled caught handler (err e, s) = recover (caught e) handler e s

  abbrev pub try_except : {R : Type 0} → (Exn → Bool) → Act A W R → Act A W R → Act A W R
  try_except caught m handler s = handled caught handler (m s)

  abbrev pub when : Bool → Act A W (Unit {0}) → Act A W (Unit {0})
  when true m s = m s
  when false m s = (ok tt, s)
