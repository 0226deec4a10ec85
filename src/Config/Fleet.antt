-- ===== src/Config/Fleet.antt =====
-- packages/fleet_adapter_quiksync/fleet_adapter_quiksync/config.py: the settings of a fleet adapter.
pub mod Accepted
pub mod Document
mod Tests
use open_rmf_adapters_quiksy.Base.{
  String, Bool, true, false, not, ◌&&◌, Option, none, some, List, [], ◌∷◌, ◌++◌, str_eq,
  if◌then◌else◌,
}
use open_rmf_adapters_quiksy.Base.Dict.{Dict, get, put, contains}
use open_rmf_adapters_quiksy.Base.Exec.{
  Result, ok, err, ◌>>=◌, ◌>>◌, raise_if, config_error, os_error,
}
use open_rmf_adapters_quiksy.Python.{Value, Fields, null, bool, str, dict, truthy, or_value, end}
use open_rmf_adapters_quiksy.Python.Runtime.{Runtime}
use open_rmf_adapters_quiksy.Python.Text.{strip}
use open_rmf_adapters_quiksy.Config.IdList.{member}
use open_rmf_adapters_quiksy.Config.Settings.{
  Entry, absent, unreadable, contents, Files, entries_of, has_unknown, has_missing, resolve_secret,
  coerce_numbers, env_settings,
}
use open_rmf_adapters_quiksy.Config.Site.{connection_fields}

-- `required`
abbrev pub required_fields : List String
required_fields = connection_fields ++ ("fleet_name" ∷ [])

abbrev pub number_fields : List String
number_fields = "update_interval_seconds" ∷ "state_subscribe_reconnect_seconds" ∷ []

-- `__dataclass_fields__`
abbrev pub known_fields : List String
known_fields = required_fields ++ (number_fields ++ ("dynamic_mode" ∷ "namespace" ∷ []))

module _ (rt : Runtime) where
  -- a text of `dynamic_mode` as a truth value
  unfoldable pub is_on : String → Bool
  is_on s = member (rt.lower (strip rt.is_space s)) ("1" ∷ "true" ∷ "yes" ∷ "on" ∷ [])

  unfoldable pub coerce_mode : Dict Value → Option Value → Dict Value
  coerce_mode d (some (str s)) = put d "dynamic_mode" (bool (is_on s))
  coerce_mode d _ = d

  -- the check for missing keys, and the settings that `cls(**data)` is called with
  unfoldable pub complete : Dict Value → Result (Dict Value)
  complete d = raise_if (has_missing required_fields d) config_error >> ok d

  unfoldable pub checks : Dict Value → Result (Dict Value)
  checks d =
      raise_if (has_unknown known_fields d) config_error
      >> (coerce_numbers rt number_fields d >>= λ numbered.
          complete (coerce_mode numbered (get numbered "dynamic_mode")))

  unfoldable pub from_dict : Files → Dict Value → Result (Dict Value)
  from_dict files given = resolve_secret rt files given >>= checks

  -- `rmf_fleet.name` and `fleet_name` are texts and differ.
  abbrev pub names_differ : Option Value → Option Value → Bool
  names_differ (some (str rmf_name)) (some (str quiksync_name)) =
      not (str_eq rmf_name quiksync_name)
  names_differ _ _ = false

  abbrev pub is_mismatch : Option Value → Dict Value → Bool
  is_mismatch (some (dict fleet)) block =
      names_differ (get (entries_of fleet) "name") (get block "fleet_name")
  is_mismatch _ block = false

  abbrev pub is_on_setting : Option Value → Bool
  is_on_setting none = false
  is_on_setting (some v) = truthy v

  abbrev pub is_absent : Option Value → Bool
  is_absent none = true
  is_absent (some null) = true
  is_absent (some _) = false

  -- the nested form: the settings below `quiksync:`, and what stands below `rmf_fleet:`
  unfoldable pub from_nested : Files → Dict Value → Option Value → Result (Dict Value)
  from_nested files block rmf_fleet =
      raise_if (not (is_on_setting (get block "dynamic_mode")) && is_absent rmf_fleet) config_error
      >> (raise_if (is_mismatch rmf_fleet block) config_error >> from_dict files block)

  -- `setdefault("dynamic_mode", True)`
  unfoldable pub default_dynamic : Dict Value → Dict Value
  default_dynamic d = if contains d "dynamic_mode" then d else put d "dynamic_mode" (bool true)

  unfoldable pub from_block : Files → Dict Value → Option Value → Result (Dict Value)
  from_block files document (some (dict block)) =
      from_nested files (entries_of block) (get document "rmf_fleet")
  from_block files document _ = from_dict files (default_dynamic document)

  unfoldable pub from_document : Files → Value → Result (Dict Value)
  from_document files (dict fs) = from_block files (entries_of fs) (get (entries_of fs) "quiksync")
  from_document files _ = err config_error

  -- `yaml` is `yaml.safe_load`, whose errors come through.
  unfoldable pub from_entry : (String → Result Value) → Files → Entry → Result (Dict Value)
  from_entry yaml files absent = err config_error
  from_entry yaml files unreadable = err os_error
  from_entry yaml files (contents text) =
      yaml text >>= λ document. from_document files (or_value document (dict end))

  unfoldable pub from_yaml : (String → Result Value) → Files → String → Result (Dict Value)
  from_yaml yaml files path = from_entry yaml files (files path)

  unfoldable pub from_env :
      (String → String) → (String → Option String) → Files → Result (Dict Value)
  from_env upper environ files =
      from_dict files (default_dynamic (env_settings upper environ "FLEET_ADAPTER_" known_fields))
