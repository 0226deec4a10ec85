-- ===== src/Config/Site/Errors.antt =====
-- config.py of the door and the lift adapter: which exceptions `from_dict` raises.
use open_rmf_adapters_quiksy.Base.{true, Option, none, some, ◌≡◌}
use open_rmf_adapters_quiksy.Base.Dict.{Dict, get}
use open_rmf_adapters_quiksy.Base.Exec.{ok}
use open_rmf_adapters_quiksy.Python.{Value}
use open_rmf_adapters_quiksy.Python.Runtime.{Runtime}
use open_rmf_adapters_quiksy.Config.IdList.{normalise_id_list}
use open_rmf_adapters_quiksy.Config.Settings.{
  Files, has_unknown, has_missing, resolve_secret, coerce_numbers,
}
use open_rmf_adapters_quiksy.Config.Settings.Errors.{
  IsConfigResult, is_readable, bind-IsConfigResult, raise_if-IsConfigResult,
  resolve_secret-IsConfigResult, coerce_numbers-IsConfigResult, normalise_id_list-IsConfigResult,
}
use open_rmf_adapters_quiksy.Config.Site.{
  Site, required_fields, known_fields, normalise_found, normalise_ids, complete, listing, checks,
  from_dict,
}

module _ (rt : Runtime) (site : Site) where
  normalise_found-IsConfigResult :
      (d : Dict Value) (o : Option Value) → IsConfigResult (normalise_found rt site d o)
  unfolding normalise_found
  normalise_found-IsConfigResult d none = tt
  normalise_found-IsConfigResult d (some raw) =
      bind-IsConfigResult (normalise_id_list rt raw) _ (normalise_id_list-IsConfigResult rt raw)
        (λ ids. tt)

  complete-IsConfigResult : (d : Dict Value) → IsConfigResult (complete rt site d)
  unfolding complete
  complete-IsConfigResult d =
      raise_if-IsConfigResult (has_missing (required_fields site) d) (ok d) tt

  listing-IsConfigResult : (d : Dict Value) → IsConfigResult (listing rt site d)
  unfolding listing normalise_ids
  listing-IsConfigResult d =
      bind-IsConfigResult (normalise_ids rt site d) (complete rt site)
        (normalise_found-IsConfigResult d (get d site.ids_field)) complete-IsConfigResult

  checks-IsConfigResult : (d : Dict Value) → IsConfigResult (checks rt site d)
  unfolding checks
  checks-IsConfigResult d = raise_if-IsConfigResult (has_unknown (known_fields site) d) _ (
      bind-IsConfigResult (coerce_numbers rt site.numbers d) (listing rt site)
        (coerce_numbers-IsConfigResult rt site.numbers d) listing-IsConfigResult)

  -- Where the secret does not come from a file, or comes from a path, given as a text, at which there
  -- is nothing or a text, `from_dict` returns settings or raises a `ConfigError`, never another
  -- exception.
  pub from_dict-IsConfigResult :
      (files : Files) (given : Dict Value)
      → is_readable files (get given "auth0_client_secret_file") ≡ true
      → IsConfigResult (from_dict rt site files given)
  unfolding from_dict
  from_dict-IsConfigResult files given h =
      bind-IsConfigResult (resolve_secret rt files given) (checks rt site)
        (resolve_secret-IsConfigResult rt files given h) checks-IsConfigResult
