-- ===== src/Config/Settings/Errors.antt =====
-- Which exceptions the steps of `from_dict` raise.
use open_rmf_adapters_quiksy.Base.{
  String, Bool, true, false, Option, none, some, List, [], ◌∷◌, ◌≡◌, refl, arith, inl, inr,
  Bool-cases,
}
use open_rmf_adapters_quiksy.Base.Dict.{Dict, get}
use open_rmf_adapters_quiksy.Base.Exec.{Result, ok, err, ◌>>=◌, ◌>>◌, raise_if, config_error}
use open_rmf_adapters_quiksy.Python.{Value, Float, str, list}
use open_rmf_adapters_quiksy.Python.Runtime.{Runtime}
use open_rmf_adapters_quiksy.Config.IdList.{
  member, is_none_given, has_empty, check_duplicates, checked, normalise_id_list,
}
use open_rmf_adapters_quiksy.Config.Settings.{
  Entry, absent, unreadable, contents, Files, secret_in, secret_of, resolve_found, resolve_secret,
  coerce_parsed, coerce_found, coerce_number, coerce_numbers,
}

-- A result, or a `ConfigError`.
abbrev pub IsConfigResult {ℓ} : {A : Type ℓ} → Result A → Type 0
IsConfigResult (ok a) = Unit
IsConfigResult (err e) = e ≡ config_error

pub bind-IsConfigResult {ℓ κ} :
    {A : Type ℓ} {B : Type κ} (m : Result A) (f : A → Result B)
    → IsConfigResult m
    → ((a : A) → IsConfigResult (f a))
    → IsConfigResult (m >>= f)
bind-IsConfigResult (ok a) f h k = k a
bind-IsConfigResult (err e) f h k = h

then-IsConfigResult {ℓ} :
    {A : Type ℓ} (m : Result (Unit {0})) (n : Result A)
    → IsConfigResult m
    → IsConfigResult n
    → IsConfigResult (m >> n)
then-IsConfigResult (ok done) n h k = k
then-IsConfigResult (err e) n h k = h

pub raise_if-IsConfigResult {ℓ} :
    {A : Type ℓ} (bad : Bool) (m : Result A)
    → IsConfigResult m
    → IsConfigResult (raise_if bad config_error >> m)
raise_if-IsConfigResult true m h = refl
raise_if-IsConfigResult false m h = h

abbrev is_entry_readable : Entry → Bool
is_entry_readable unreadable = false
is_entry_readable _ = true

-- the secret file, if one is named: a path as a text, and nothing there or a text
abbrev pub is_readable : Files → Option Value → Bool
is_readable files none = true
is_readable files (some (str path)) = is_entry_readable (files path)
is_readable files (some _) = false

module _ (rt : Runtime) where
  secret_in-IsConfigResult :
      (entry : Entry) → is_entry_readable entry ≡ true → IsConfigResult (secret_in rt entry)
  unfolding secret_in
  secret_in-IsConfigResult absent h = refl
  secret_in-IsConfigResult (contents text) h = tt
  secret_in-IsConfigResult unreadable h = absurd (ground (arith, h))

  resolve_found-IsConfigResult :
      (files : Files) (d : Dict Value) (o : Option Value)
      → is_readable files o ≡ true
      → IsConfigResult (resolve_found rt files d o)
  unfolding resolve_found secret_of
  resolve_found-IsConfigResult files d none h = tt
  resolve_found-IsConfigResult files d (some (str path)) h =
      bind-IsConfigResult (secret_in rt (files path)) _ (secret_in-IsConfigResult (files path) h)
        (λ secret. tt)
  resolve_found-IsConfigResult files d (some v) h = absurd (ground (arith, h))

  pub resolve_secret-IsConfigResult :
      (files : Files) (d : Dict Value)
      → is_readable files (get d "auth0_client_secret_file") ≡ true
      → IsConfigResult (resolve_secret rt files d)
  unfolding resolve_secret
  resolve_secret-IsConfigResult files d h =
      resolve_found-IsConfigResult files d (get d "auth0_client_secret_file") h

  coerce_parsed-IsConfigResult :
      (name : String) (d : Dict Value) (x : Option Float)
      → IsConfigResult (coerce_parsed rt name d x)
  unfolding coerce_parsed
  coerce_parsed-IsConfigResult name d (some x) = tt
  coerce_parsed-IsConfigResult name d none = refl

  coerce_found-IsConfigResult :
      (name : String) (d : Dict Value) (o : Option Value)
      → IsConfigResult (coerce_found rt name d o)
  unfolding coerce_found
  coerce_found-IsConfigResult name d (some (str raw)) =
      coerce_parsed-IsConfigResult name d (rt.parse_float raw)
  coerce_found-IsConfigResult name d o = tt

  pub coerce_numbers-IsConfigResult :
      (names : List String) (d : Dict Value) → IsConfigResult (coerce_numbers rt names d)
  unfolding coerce_numbers coerce_number
  coerce_numbers-IsConfigResult [] d = tt
  coerce_numbers-IsConfigResult (name ∷ names) d =
      bind-IsConfigResult (coerce_number rt name d) (coerce_numbers rt names)
        (coerce_found-IsConfigResult name d (get d name)) (coerce_numbers-IsConfigResult names)

  check_duplicates-IsConfigResult :
      (seen items : List String) → IsConfigResult (check_duplicates seen items)
  unfolding check_duplicates
  check_duplicates-IsConfigResult seen [] = tt
  check_duplicates-IsConfigResult seen (s ∷ ss) = elim (Bool-cases (member s seen)) [
    | inl twice ↦ rw twice refl
    | inr once ↦ rw once (check_duplicates-IsConfigResult (s ∷ seen) ss)
  ]

  checked-IsConfigResult : (items : List String) → IsConfigResult (checked items)
  unfolding checked
  checked-IsConfigResult items = raise_if-IsConfigResult (is_none_given items) _ (
      raise_if-IsConfigResult (has_empty items) _ (
        then-IsConfigResult (check_duplicates [] items) _ (check_duplicates-IsConfigResult [] items)
          tt))

  pub normalise_id_list-IsConfigResult : (v : Value) → IsConfigResult (normalise_id_list rt v)
  unfolding normalise_id_list
  normalise_id_list-IsConfigResult (str s) = checked-IsConfigResult _
  normalise_id_list-IsConfigResult (list vs) = checked-IsConfigResult _
  normalise_id_list-IsConfigResult _ = refl
