-- ===== src/Config/IdList/Tests.antt =====
-- Runs of `_normalise_id_list`.
use open_rmf_adapters_quiksy.Base.{String, List, [], ◌∷◌, ◌≡◌, refl, str_eq, All}
use open_rmf_adapters_quiksy.Base.Exec.{ok, err, config_error}
use open_rmf_adapters_quiksy.Python.{str, list, nil, cons}
use open_rmf_adapters_quiksy.Python.Text.{lstrip, rstrip, split_commas, in_first, join_commas}
use open_rmf_adapters_quiksy.Python.Text.Split.{IsWord}
use open_rmf_adapters_quiksy.Python.Runtime.{to_str}
use open_rmf_adapters_quiksy.Python.Sample.{sample_runtime}
use open_rmf_adapters_quiksy.Config.IdList.{
  member, has_empty, check_duplicates, checked, stripped_words, stripped_items, normalise_id_list,
}
use open_rmf_adapters_quiksy.Config.IdList.Sound.{IsIdList}
use open_rmf_adapters_quiksy.Config.IdList.RoundTrip.{normalise_id_list-join_commas}

abbrev doors : List String
doors = "east" ∷ "west" ∷ []

doors-IsIdList : IsIdList sample_runtime doors
unfolding has_empty member str_eq lstrip rstrip
doors-IsIdList = record {
  some_given = refl;
  none_empty = refl;
  distinct = (refl, (refl, tt));
  stripped = (refl, (refl, tt));
}

doors-words : All IsWord doors
doors-words = (refl, (refl, tt))

normalise_id_list-join_commas_example :
    normalise_id_list sample_runtime (str (join_commas doors)) ≡ ok doors
normalise_id_list-join_commas_example =
    normalise_id_list-join_commas sample_runtime "east" ("west" ∷ []) doors-IsIdList doors-words

-- A trailing comma is dropped in a text, an empty entry of a list is refused.
trailing_comma : normalise_id_list sample_runtime (str "east,") ≡ ok ("east" ∷ [])
unfolding normalise_id_list split_commas in_first stripped_words lstrip rstrip checked has_empty
    check_duplicates member str_eq
trailing_comma = refl

empty_entry : normalise_id_list sample_runtime (list (cons (str " ") nil)) ≡ err config_error
unfolding normalise_id_list stripped_items to_str lstrip rstrip checked has_empty str_eq
empty_entry = refl

twice : normalise_id_list sample_runtime (str "east, east") ≡ err config_error
unfolding normalise_id_list split_commas in_first stripped_words lstrip rstrip checked has_empty
    check_duplicates member str_eq
twice = refl
