-- ===== src/Config/Settings/Kept.antt =====
-- Which settings the steps of `from_dict` leave as they are.
use open_rmf_adapters_quiksy.Base.{
  String, false, Option, none, some, List, [], ◌∷◌, ◌≡◌, ◌∙◌, ap, sym, arith, str_eq, str_eq_iff,
}
use open_rmf_adapters_quiksy.Base.Dict.{Dict, get, remove, get-put, get-remove}
use open_rmf_adapters_quiksy.Base.Exec.{ok, bind-Through, ok-inj}
use open_rmf_adapters_quiksy.Python.{Value, Float, float, str}
use open_rmf_adapters_quiksy.Python.Runtime.{Runtime}
use open_rmf_adapters_quiksy.Config.IdList.{member}
use open_rmf_adapters_quiksy.Config.Settings.{
  Files, secret_of, resolve_found, resolve_secret, coerce_parsed, coerce_found, coerce_number,
  coerce_numbers,
}

module _ (rt : Runtime) (k : String) where
  resolve_found-get :
      (files : Files) (d : Dict Value) (o : Option Value) {e : Dict Value}
      → member k ("auth0_client_secret_file" ∷ "auth0_client_secret" ∷ []) ≡ false
      → resolve_found rt files d o ≡ ok e
      → get e k ≡ get d k
  unfolding resolve_found member
  resolve_found-get files d none other h = ap (λ d. get d k) (sym (ok-inj h))
  resolve_found-get files d (some path) other h =
      let (secret, read, same) = bind-Through (secret_of rt files path) _ h in
      ap (λ d. get d k) (sym (ok-inj same))
      ∙ ground (
        arith,
        get-put (remove d "auth0_client_secret_file") "auth0_client_secret" k secret,
        get-remove d "auth0_client_secret_file" k,
        str_eq_iff "auth0_client_secret_file" k,
        str_eq_iff "auth0_client_secret" k,
        str_eq_iff k "auth0_client_secret_file",
        str_eq_iff k "auth0_client_secret",
        other,
      )

  pub resolve_secret-get :
      (files : Files) (d : Dict Value) {e : Dict Value}
      → member k ("auth0_client_secret_file" ∷ "auth0_client_secret" ∷ []) ≡ false
      → resolve_secret rt files d ≡ ok e
      → get e k ≡ get d k
  unfolding resolve_secret
  resolve_secret-get files d other h = resolve_found-get files d _ other h

  coerce_parsed-get :
      (name : String) (d : Dict Value) (x : Option Float) {e : Dict Value}
      → str_eq name k ≡ false
      → coerce_parsed rt name d x ≡ ok e
      → get e k ≡ get d k
  unfolding coerce_parsed
  coerce_parsed-get name d (some x) other h =
      ap (λ d. get d k) (sym (ok-inj h)) ∙ ground (arith, get-put d name k (float x), other)
  coerce_parsed-get name d none other h = absurd (ground (arith, h))

  coerce_found-get :
      (name : String) (d : Dict Value) (o : Option Value) {e : Dict Value}
      → str_eq name k ≡ false
      → coerce_found rt name d o ≡ ok e
      → get e k ≡ get d k
  unfolding coerce_found
  coerce_found-get name d (some (str raw)) other h =
      coerce_parsed-get name d (rt.parse_float raw) other h
  coerce_found-get name d o other h = ap (λ d. get d k) (sym (ok-inj h))

  pub coerce_numbers-get :
      (names : List String) (d : Dict Value) {e : Dict Value}
      → member k names ≡ false
      → coerce_numbers rt names d ≡ ok e
      → get e k ≡ get d k
  unfolding coerce_numbers coerce_number member
  coerce_numbers-get [] d other h = ap (λ d. get d k) (sym (ok-inj h))
  coerce_numbers-get (name ∷ names) d other h =
      let (m, first, rest) = bind-Through (coerce_number rt name d) (coerce_numbers rt names) h in
      coerce_numbers-get names m (ground (arith, other)) rest
      ∙ coerce_found-get name d (get d name) (ground (arith, other, str_eq_iff k name)) first
