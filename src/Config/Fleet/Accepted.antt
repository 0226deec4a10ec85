-- ===== src/Config/Fleet/Accepted.antt =====
-- config.py of the fleet adapter: what accepted settings are, and which exceptions `from_dict` raises.
use mathlib.Core.Path.{subst}
use open_rmf_adapters_quiksy.Base.{
  String, true, false, Option, some, ◌≡◌, ◌∙◌, sym, refl, arith, All, str_eq_iff,
}
use open_rmf_adapters_quiksy.Base.Dict.{Dict, get, get-put}
use open_rmf_adapters_quiksy.Base.Exec.{ok, config_error, bind-Through, ok-inj, raise_if-eq-ok}
use open_rmf_adapters_quiksy.Python.{Value, bool, str}
use open_rmf_adapters_quiksy.Python.Runtime.{Runtime}
use open_rmf_adapters_quiksy.Config.IdList.{member}
use open_rmf_adapters_quiksy.Config.Settings.{
  Files, has_unknown, has_missing, resolve_secret, coerce_numbers,
}
use open_rmf_adapters_quiksy.Config.Settings.Keys.{
  IsIn, IsNoText, IsRefined, IsRefined-refl, IsRefined-trans, put-IsRefined, kept_numbers,
  has_missing-IsIn, has_unknown-member, coerce_numbers-IsCoerced,
}
use open_rmf_adapters_quiksy.Config.Settings.Errors.{
  IsConfigResult, is_readable, bind-IsConfigResult, raise_if-IsConfigResult,
  resolve_secret-IsConfigResult, coerce_numbers-IsConfigResult,
}
use open_rmf_adapters_quiksy.Config.Fleet.{
  required_fields, number_fields, known_fields, is_on, coerce_mode, complete, checks, from_dict,
}

-- Every required field is given, no other key than a field is, and neither the numbers nor the mode
-- are texts.
pub record IsAccepted (d : Dict Value) : Type 0 where
  pub required : All (IsIn d) required_fields
  pub known : (k : String) → IsIn d k → member k known_fields ≡ true
  pub numbers : All (IsNoText d) number_fields
  pub mode : IsNoText d "dynamic_mode"

module _ (rt : Runtime) where
  coerce_mode-IsRefined :
      (d : Dict Value) (o : Option Value)
      → get d "dynamic_mode" ≡ o
      → IsRefined d (coerce_mode rt d o) × IsNoText (coerce_mode rt d o) "dynamic_mode"
  unfolding coerce_mode
  coerce_mode-IsRefined d (some (str s)) g = (
    put-IsRefined d "dynamic_mode" (bool (is_on rt s)) (ground (arith, g)) refl,
    ground (
      arith,
      get-put d "dynamic_mode" "dynamic_mode" (bool (is_on rt s)),
      str_eq_iff "dynamic_mode" "dynamic_mode",
    ),
  )
  coerce_mode-IsRefined d o g = (IsRefined-refl d, ground (arith, g))

  checked_accepts :
      (d numbered : Dict Value) {e : Dict Value}
      → has_unknown known_fields d ≡ false
      → coerce_numbers rt number_fields d ≡ ok numbered
      → complete rt (coerce_mode rt numbered (get numbered "dynamic_mode")) ≡ ok e
      → IsAccepted e
  unfolding complete
  checked_accepts d numbered unknown read rest =
      let moded = coerce_mode rt numbered (get numbered "dynamic_mode") in
      let (missing, same) =
        raise_if-eq-ok (has_missing required_fields moded) config_error (ok moded) rest in
      let coerced = coerce_numbers-IsCoerced rt number_fields d read in
      let (refined, mode) = coerce_mode-IsRefined numbered (get numbered "dynamic_mode") refl in
      let all = IsRefined-trans d numbered moded coerced.refined refined in
      subst IsAccepted (ok-inj same) (record {
        required = has_missing-IsIn required_fields moded missing;
        known = λ k there. has_unknown-member known_fields d k unknown (sym (all.keys k) ∙ there);
        numbers = kept_numbers number_fields refined coerced.numbers;
        mode = mode;
      })

  -- Whatever was given, accepted settings have every required field, no key that is not a field, and no
  -- number and no mode that is a text.
  pub from_dict-IsAccepted :
      (files : Files) (given : Dict Value) {d : Dict Value}
      → from_dict rt files given ≡ ok d
      → IsAccepted d
  unfolding from_dict checks
  from_dict-IsAccepted files given {d} h =
      let (d0, secret, h1) = bind-Through (resolve_secret rt files given) (checks rt) h in
      let (known, h2) = raise_if-eq-ok (has_unknown known_fields d0) config_error _ h1 in
      let (numbered, coerced, h3) = bind-Through (coerce_numbers rt number_fields d0) _ h2 in
      checked_accepts d0 numbered known coerced h3

  complete-IsConfigResult : (d : Dict Value) → IsConfigResult (complete rt d)
  unfolding complete
  complete-IsConfigResult d = raise_if-IsConfigResult (has_missing required_fields d) (ok d) tt

  checks-IsConfigResult : (d : Dict Value) → IsConfigResult (checks rt d)
  unfolding checks
  checks-IsConfigResult d = raise_if-IsConfigResult (has_unknown known_fields d) _ (
      bind-IsConfigResult (coerce_numbers rt number_fields d) _
        (coerce_numbers-IsConfigResult rt number_fields d) (λ numbered. complete-IsConfigResult _))

  -- Where the secret does not come from a file, or comes from a path, given as a text, at which there
  -- is nothing or a text, `from_dict` returns settings or raises a `ConfigError`, never another
  -- exception.
  pub from_dict-IsConfigResult :
      (files : Files) (given : Dict Value)
      → is_readable files (get given "auth0_client_secret_file") ≡ true
      → IsConfigResult (from_dict rt files given)
  unfolding from_dict
  from_dict-IsConfigResult files given h =
      bind-IsConfigResult (resolve_secret rt files given) (checks rt)
        (resolve_secret-IsConfigResult rt files given h) checks-IsConfigResult
