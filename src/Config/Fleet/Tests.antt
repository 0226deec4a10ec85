-- ===== src/Config/Fleet/Tests.antt =====
-- Runs of config.py of the fleet adapter.
use open_rmf_adapters_quiksy.Base.{none, some, true, false, [], ◌∷◌, ◌≡◌, refl, str_eq}
use open_rmf_adapters_quiksy.Base.Dict.{Dict, get, put}
use open_rmf_adapters_quiksy.Base.Exec.{ok}
use open_rmf_adapters_quiksy.Python.{Value, str, bool, truthy}
use open_rmf_adapters_quiksy.Python.Text.{lstrip, rstrip, strip}
use open_rmf_adapters_quiksy.Python.Sample.{sample_runtime}
use open_rmf_adapters_quiksy.Config.IdList.{member}
use open_rmf_adapters_quiksy.Config.Settings.{
  Files, absent, has_unknown, has_missing, resolve_secret, resolve_found, coerce_numbers,
  coerce_number, coerce_found,
}
use open_rmf_adapters_quiksy.Config.Fleet.{
  is_on, coerce_mode, complete, checks, from_dict, default_dynamic, from_nested,
}
use open_rmf_adapters_quiksy.Config.Fleet.Document.{one_of_four, from_nested-text_mode}

abbrev no_files : Files
no_files path = absent

abbrev connection : Dict Value
connection =
    ("base_url", str "https://host")
    ∷ ("auth0_tenant", str "tenant")
    ∷ ("auth0_audience", str "audience")
    ∷ ("auth0_client_id", str "id")
    ∷ ("auth0_client_secret", str "secret")
    ∷ ("auth0_organization", str "org")
    ∷ ("fleet_name", str "bots")
    ∷ []

abbrev with_mode : Value → Dict Value
with_mode mode = ("dynamic_mode", mode) ∷ connection

from_dict_ok :
    from_dict sample_runtime no_files (with_mode (str "false")) ≡ ok (with_mode (bool false))
unfolding from_dict resolve_secret resolve_found checks has_unknown member coerce_numbers
    coerce_number coerce_found coerce_mode is_on lstrip rstrip put get complete has_missing str_eq
from_dict_ok = refl

mode_given : get (with_mode (str "false")) "dynamic_mode" ≡ some (str "false")
unfolding get str_eq
mode_given = refl

text_truthy : truthy (str "false") ≡ true
unfolding truthy str_eq
text_truthy = refl

from_nested-text_mode_example :
    (from_nested sample_runtime no_files (with_mode (str "false")) none
      ≡ ok (with_mode (bool false)))
    × (get (with_mode (bool false)) "dynamic_mode"
        ≡ some (
            bool (
              one_of_four sample_runtime
                (sample_runtime.lower (strip sample_runtime.is_space "false")))))
from_nested-text_mode_example =
    from_nested-text_mode sample_runtime no_files (with_mode (str "false")) "false" mode_given
      text_truthy from_dict_ok

abbrev flat : Dict Value
flat = put connection "dynamic_mode" (bool true)

no_mode : get connection "dynamic_mode" ≡ none
unfolding get str_eq
no_mode = refl

flat_ok : from_dict sample_runtime no_files (default_dynamic sample_runtime connection) ≡ ok flat
unfolding default_dynamic from_dict resolve_secret resolve_found checks has_unknown member
    coerce_numbers coerce_number coerce_found coerce_mode put get complete has_missing str_eq
flat_ok = refl
