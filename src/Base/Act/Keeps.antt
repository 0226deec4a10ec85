-- ===== src/Base/Act/Keeps.antt =====
-- What a run leaves as it is, such as the calls of a kind.
use mathlib.Core.Path.{◌≡◌, refl, ◌∙◌, ap}
use mathlib.Core.Bool.{Bool, true, false}
use mathlib.Core.List.{List, [], ◌∷◌}
use open_rmf_adapters_quiksy.Base.Exec.{Exn, Result, ok, err, err≢ok}
use open_rmf_adapters_quiksy.Base.Tests.{if◌then◌else◌}
use open_rmf_adapters_quiksy.Base.Act.{
  Run, Act, done, call, continue, ◌>>=◌, ◌>>◌, settle, try_finally, recover, handled, try_except,
  when,
}

-- the calls of a kind, the latest first
abbrev pub only : {A : Type 0} → (A → Bool) → List A → List A
only kind [] = []
only kind (a ∷ log) = if kind a then a ∷ only kind log else only kind log

module _ {A W X : Type 0} (f : Run A W → X) where
  -- The run leaves `f` as it is.
  abbrev pub Keeps : {R : Type 0} → Act A W R → Type 0
  Keeps m = (s : Run A W) → f (m s).1 ≡ f s

  -- What continues a run keeps it on each branch.
  pub continue-Keeps :
      {R Q : Type 0} (p : Result R × Run A W) (rest : R → Act A W Q)
      → ((r : R) → Keeps (rest r))
      → f (continue p rest).1 ≡ f p.1
  continue-Keeps (ok r, s) rest h = h r s
  continue-Keeps (err e, s) rest h = refl

  pub bind-Keeps :
      {R Q : Type 0} (m : Act A W R) (rest : R → Act A W Q)
      → Keeps m
      → ((r : R) → Keeps (rest r))
      → Keeps (m >>= rest)
  bind-Keeps m rest h k s = continue-Keeps (m s) rest k ∙ h s

  pub then-Keeps :
      {Q : Type 0} (m : Act A W (Unit {0})) (rest : Act A W Q)
      → Keeps m
      → Keeps rest
      → Keeps (m >> rest)
  then-Keeps m rest h k s = continue-Keeps (m s) (λ done. rest) (λ done. k) ∙ h s

  settle-log : {R : Type 0} (r : Result R) (p : Result (Unit {0}) × Run A W) → (settle r p).1 ≡ p.1
  settle-log r (ok done, s) = refl
  settle-log r (err e, s) = refl

  -- What is done in a `finally` is done, whatever came before.
  pub try_finally-calls :
      {R : Type 0} (m : Act A W R) (cleanup : Act A W (Unit {0})) (s : Run A W)
      → (try_finally m cleanup s).1 ≡ (cleanup (m s).1).1
  try_finally-calls m cleanup s = settle-log (m s).0 (cleanup (m s).1)

  pub try_finally-Keeps :
      {R : Type 0} (m : Act A W R) (cleanup : Act A W (Unit {0}))
      → Keeps m
      → Keeps cleanup
      → Keeps (try_finally m cleanup)
  try_finally-Keeps m cleanup h k s = ap f (try_finally-calls m cleanup s) ∙ k (m s).1 ∙ h s

  recover-Keeps :
      {R : Type 0} (b : Bool) (handler : Act A W R) (e : Exn)
      → Keeps handler
      → Keeps (recover b handler e)
  recover-Keeps true handler e h s = h s
  recover-Keeps false handler e h s = refl

  handled-Keeps :
      {R : Type 0} (caught : Exn → Bool) (handler : Act A W R) (p : Result R × Run A W)
      → Keeps handler
      → f (handled caught handler p).1 ≡ f p.1
  handled-Keeps caught handler (ok r, s) h = refl
  handled-Keeps caught handler (err e, s) h = recover-Keeps (caught e) handler e h s

  pub try_except-Keeps :
      {R : Type 0} (caught : Exn → Bool) (m handler : Act A W R)
      → Keeps m
      → Keeps handler
      → Keeps (try_except caught m handler)
  try_except-Keeps caught m handler h k s = handled-Keeps caught handler (m s) k ∙ h s

  pub when-Keeps : (b : Bool) (m : Act A W (Unit {0})) → Keeps m → Keeps (when b m)
  when-Keeps true m h s = h s
  when-Keeps false m h s = refl

module _ {A W : Type 0} (kind : A → Bool) where
  abbrev pub calls_of : Run A W → List A
  calls_of s = only kind s.log

  -- A call of another kind is none.
  pub call-Keeps :
      {R : Type 0} (a : A) (port : W → Result R × W) → kind a ≡ false → Keeps calls_of (call a port)
  call-Keeps a port h s = rw h refl

-- What continues a run that returned started from where the run returned.
pub continue-eq-ok :
    {A W R Q : Type 0} (p : Result R × Run A W) (rest : R → Act A W Q) {q : Q} {t : Run A W}
    → continue p rest ≡ (ok q, t)
    → (r : R) × (s : Run A W) × (p ≡ (ok r, s)) × (rest r s ≡ (ok q, t))
continue-eq-ok (ok r, s) rest h = (r, s, refl, h)
continue-eq-ok (err e, s) rest h = absurd (err≢ok (ap (λ x. x.0) h))
