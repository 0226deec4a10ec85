-- ===== src/Config/Site.antt =====
-- packages/door_adapter_quiksync/door_adapter_quiksync/config.py and
-- packages/lift_adapter_quiksync/lift_adapter_quiksync/config.py: the settings of an adapter that owns
-- a list of doors or lifts.  The two files differ in the names that a `Site` lists.
pub mod Accepted
pub mod Errors
mod Tests
use Prim.Native.String.{◌++◌ as concat}
use open_rmf_adapters_quiksy.Base.{
  String, Bool, true, false, Option, none, some, List, [], ◌∷◌, ◌++◌, str_eq, if◌then◌else◌,
}
use open_rmf_adapters_quiksy.Base.Dict.{Dict, get, put}
use open_rmf_adapters_quiksy.Base.Exec.{
  Result, ok, err, ◌>>=◌, ◌>>◌, raise_if, config_error, os_error,
}
use open_rmf_adapters_quiksy.Python.{Value, null, str, list, dict, truthy, or_value, end}
use open_rmf_adapters_quiksy.Python.Runtime.{Runtime}
use open_rmf_adapters_quiksy.Config.IdList.{normalise_id_list}
use open_rmf_adapters_quiksy.Config.IdList.RoundTrip.{texts}
use open_rmf_adapters_quiksy.Config.Settings.{
  Entry, absent, unreadable, contents, Files, entries_of, has_unknown, has_missing, resolve_secret,
  coerce_numbers, env_settings,
}

-- The fields of the dataclass in which the adapters differ: the field that lists the identifiers, the
-- fields that are numbers, the further fields, and the prefix of the environment variables.
pub record Site : Type 0 where
  pub ids_field : String
  pub numbers : List String
  pub others : List String
  pub env_prefix : String

abbrev pub connection_fields : List String
connection_fields =
    "base_url" ∷ "auth0_tenant" ∷ "auth0_audience" ∷ "auth0_client_id" ∷ "auth0_client_secret"
    ∷ "auth0_organization" ∷ []

abbrev pub door_site : Site
door_site = record {
  ids_field = "doors";
  numbers = "state_subscribe_reconnect_seconds" ∷ [];
  others = "door_states_topic" ∷ "door_requests_topic" ∷ "namespace" ∷ [];
  env_prefix = "DOOR_ADAPTER_";
}

abbrev pub lift_site : Site
lift_site = record {
  ids_field = "lifts";
  numbers = "state_subscribe_reconnect_seconds" ∷ "session_ttl_seconds" ∷ [];
  others = "lift_states_topic" ∷ "lift_requests_topic" ∷ "namespace" ∷ [];
  env_prefix = "LIFT_ADAPTER_";
}

-- `required`, and `__dataclass_fields__`
abbrev pub required_fields : Site → List String
required_fields site = connection_fields ++ (site.ids_field ∷ [])

abbrev pub known_fields : Site → List String
known_fields site = required_fields site ++ (site.numbers ++ site.others)

module _ (rt : Runtime) (site : Site) where
  -- `data[ids] = _normalise_id_list(...)`, where it is given
  unfoldable pub normalise_found : Dict Value → Option Value → Result (Dict Value)
  normalise_found d none = ok d
  normalise_found d (some raw) =
      normalise_id_list rt raw >>= λ ids. ok (put d site.ids_field (list (texts ids)))

  unfoldable pub normalise_ids : Dict Value → Result (Dict Value)
  normalise_ids d = normalise_found d (get d site.ids_field)

  -- the check for missing keys, and the settings that `cls(**data)` is called with; fields that are
  -- not given have their defaults
  unfoldable pub complete : Dict Value → Result (Dict Value)
  complete d = raise_if (has_missing (required_fields site) d) config_error >> ok d

  unfoldable pub listing : Dict Value → Result (Dict Value)
  listing numbered = normalise_ids numbered >>= complete

  unfoldable pub checks : Dict Value → Result (Dict Value)
  checks d =
      raise_if (has_unknown (known_fields site) d) config_error
      >> (coerce_numbers rt site.numbers d >>= listing)

  unfoldable pub from_dict : Files → Dict Value → Result (Dict Value)
  from_dict files given = resolve_secret rt files given >>= checks

  -- the document below an optional `quiksync:` key
  unfoldable pub from_document : Files → Value → Result (Dict Value)
  from_document files (dict fs) = elim (get (entries_of fs) "quiksync") [
    | some (dict block) ↦ from_dict files (entries_of block)
    | _ ↦ from_dict files (entries_of fs)
  ]
  from_document files _ = err config_error

  -- `yaml` is `yaml.safe_load`, whose errors come through.
  unfoldable pub from_yaml : (String → Result Value) → Files → String → Result (Dict Value)
  from_yaml yaml files path = elim (files path) [
    | absent ↦ err config_error
    | unreadable ↦ err os_error
    | contents text ↦ yaml text >>= λ document. from_document files (or_value document (dict end))
  ]

  unfoldable pub from_env :
      (String → String) → (String → Option String) → Files → Result (Dict Value)
  from_env upper environ files =
      from_dict files (env_settings upper environ site.env_prefix (known_fields site))
