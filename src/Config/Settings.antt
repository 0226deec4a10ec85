-- ===== src/Config/Settings.antt =====
-- What the `from_dict` methods of the three config.py files share: the secret from a file, the check
-- for unknown and for missing keys, and the numbers that are given as texts.  Settings are a dict with
-- text keys.
pub mod Keys
pub mod Kept
pub mod Errors
use Prim.Native.String.{◌++◌ as concat}
use open_rmf_adapters_quiksy.Base.{
  String, Bool, true, false, not, Option, none, some, List, [], ◌∷◌, is_empty, str_eq,
  if◌then◌else◌,
}
use open_rmf_adapters_quiksy.Base.Dict.{Dict, get, put, remove, contains}
use open_rmf_adapters_quiksy.Base.Exec.{
  Result, ok, err, ◌>>=◌, ◌>>◌, raise_if, config_error, type_error, os_error,
}
use open_rmf_adapters_quiksy.Python.{
  Value, Float, Fields, null, bool, int, list, dict, object, end, field, str, float,
}
use open_rmf_adapters_quiksy.Python.Runtime.{Runtime}
use open_rmf_adapters_quiksy.Python.Text.{strip}
use open_rmf_adapters_quiksy.Config.IdList.{member}

-- A path of the file system: nothing there, something that cannot be read as a text, or a text.
pub data Entry : Type 0 where
  absent unreadable : Entry
  contents : String → Entry

abbrev pub Files : Type 0
Files = String → Entry

-- `dict(data)` of a decoded mapping, whose keys are distinct
unfoldable pub entries_of : Fields → Dict Value
entries_of end = []
entries_of (field k v fs) = (k, v) ∷ entries_of fs

-- `set(data.keys()) - known_fields` is not empty
unfoldable pub has_unknown : List String → Dict Value → Bool
has_unknown known [] = false
has_unknown known ((k, v) ∷ d) = if member k known then has_unknown known d else true

-- `required - set(data.keys())` is not empty
unfoldable pub has_missing : List String → Dict Value → Bool
has_missing [] d = false
has_missing (k ∷ ks) d = if contains d k then has_missing ks d else true

module _ (rt : Runtime) where
  -- the secret that stands in a file: `exists()` and `read_text().strip()`
  unfoldable pub secret_in : Entry → Result Value
  secret_in absent = err config_error
  secret_in unreadable = err os_error
  secret_in (contents text) = ok (str (strip rt.is_space text))

  -- `Path(...)` of the setting
  unfoldable pub secret_of : Files → Value → Result Value
  secret_of files (str path) = secret_in (files path)
  secret_of files _ = err type_error

  -- `auth0_client_secret_file` gives way to `auth0_client_secret`.
  unfoldable pub resolve_found : Files → Dict Value → Option Value → Result (Dict Value)
  resolve_found files d none = ok d
  resolve_found files d (some path) = secret_of files path >>= λ secret.
      ok (put (remove d "auth0_client_secret_file") "auth0_client_secret" secret)

  unfoldable pub resolve_secret : Files → Dict Value → Result (Dict Value)
  resolve_secret files d = resolve_found files d (get d "auth0_client_secret_file")

  -- `float(raw)` of a setting that is a text; a `ValueError` becomes a `ConfigError`
  unfoldable pub coerce_parsed : String → Dict Value → Option Float → Result (Dict Value)
  coerce_parsed name d (some x) = ok (put d name (float x))
  coerce_parsed name d none = err config_error

  unfoldable pub coerce_found : String → Dict Value → Option Value → Result (Dict Value)
  coerce_found name d (some (str raw)) = coerce_parsed name d (rt.parse_float raw)
  coerce_found name d _ = ok d

  unfoldable pub coerce_number : String → Dict Value → Result (Dict Value)
  coerce_number name d = coerce_found name d (get d name)

  unfoldable pub coerce_numbers : List String → Dict Value → Result (Dict Value)
  coerce_numbers [] d = ok d
  coerce_numbers (name ∷ names) d = coerce_number name d >>= coerce_numbers names

-- the loop of `from_env` over the fields, with `upper` as `field_name.upper()`
unfoldable pub env_settings :
    (String → String) → (String → Option String) → String → List String → Dict Value
env_settings upper environ prefix [] = []
env_settings upper environ prefix (name ∷ names) =
    let rest = env_settings upper environ prefix names in
    elim (environ (concat prefix (upper name))) [
      | some value ↦ put rest name (str value)
      | none ↦ rest
    ]
