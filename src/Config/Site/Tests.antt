-- ===== src/Config/Site/Tests.antt =====
-- Runs of config.py of the door and the lift adapter.
use open_rmf_adapters_quiksy.Base.{[], ◌∷◌, ◌≡◌, refl, true, str_eq}
use open_rmf_adapters_quiksy.Base.Dict.{Dict, get, put}
use open_rmf_adapters_quiksy.Base.Exec.{ok}
use open_rmf_adapters_quiksy.Python.{Value, str, list, nil, cons}
use open_rmf_adapters_quiksy.Python.Sample.{sample_runtime}
use open_rmf_adapters_quiksy.Python.Text.{lstrip, rstrip, split_commas, in_first}
use open_rmf_adapters_quiksy.Config.IdList.{
  member, has_empty, check_duplicates, checked, stripped_words, normalise_id_list,
}
use open_rmf_adapters_quiksy.Config.Settings.{
  Files, absent, has_unknown, has_missing, resolve_secret, resolve_found, coerce_numbers,
  coerce_number, coerce_found,
}
use open_rmf_adapters_quiksy.Config.Settings.Errors.{IsConfigResult, is_readable}
use open_rmf_adapters_quiksy.Config.Site.{
  door_site, lift_site, normalise_found, normalise_ids, listing, complete, checks, from_dict,
}
use open_rmf_adapters_quiksy.Config.Site.Accepted.{IsAccepted, from_dict-IsAccepted}
use open_rmf_adapters_quiksy.Config.Site.Errors.{from_dict-IsConfigResult}

abbrev pub connection : Dict Value
connection =
    ("base_url", str "https://host")
    ∷ ("auth0_tenant", str "tenant")
    ∷ ("auth0_audience", str "audience")
    ∷ ("auth0_client_id", str "id")
    ∷ ("auth0_client_secret", str "secret")
    ∷ ("auth0_organization", str "org")
    ∷ []

abbrev given : Dict Value
given = ("doors", str " east , west") ∷ connection

abbrev settings : Dict Value
settings = ("doors", list (cons (str "east") (cons (str "west") nil))) ∷ connection

abbrev pub no_files : Files
no_files path = absent

from_dict_ok : from_dict sample_runtime door_site no_files given ≡ ok settings
unfolding from_dict resolve_secret resolve_found checks has_unknown member coerce_numbers
    coerce_number coerce_found listing normalise_ids normalise_found normalise_id_list split_commas
    in_first stripped_words lstrip rstrip checked has_empty check_duplicates put get complete
    has_missing str_eq
from_dict_ok = refl

from_dict-IsAccepted_example : IsAccepted sample_runtime door_site settings
from_dict-IsAccepted_example =
    from_dict-IsAccepted sample_runtime door_site no_files given from_dict_ok

-- a secret that stands in no file
abbrev lost : Dict Value
lost = ("lifts", str "one") ∷ ("auth0_client_secret_file", str "/run/secret") ∷ []

lost-readable : is_readable no_files (get lost "auth0_client_secret_file") ≡ true
unfolding get str_eq
lost-readable = refl

from_dict-IsConfigResult_example : IsConfigResult (from_dict sample_runtime lift_site no_files lost)
from_dict-IsConfigResult_example =
    from_dict-IsConfigResult sample_runtime lift_site no_files lost lost-readable
