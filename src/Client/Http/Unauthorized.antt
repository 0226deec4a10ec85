-- ===== src/Client/Http/Unauthorized.antt =====
-- http.py: the replies with a status of 4xx.
use open_rmf_adapters_quiksy.Base.{ℕ, String, Option, none, some, true, false, ◌∷◌, ◌≡◌, ◌≢◌, arith}
use open_rmf_adapters_quiksy.Base.Exec.{Exn, ok, err, connection_error}
use native.Mathlib.Numerals.{add-one}
use open_rmf_adapters_quiksy.Python.{Value, str, dict, find}
use open_rmf_adapters_quiksy.Python.Runtime.{Runtime}
use open_rmf_adapters_quiksy.Client.Net.{sent, Request, response, Content, json, Net}
use open_rmf_adapters_quiksy.Client.Auth.{AuthConfig, AuthClient, get_token}
use open_rmf_adapters_quiksy.Client.Http.{
  HttpConfig, on_client_error, on_reply, send, one_round, attempts, request_json,
}

-- The error code that a body carries: the text under "error" of a JSON object, if there is one.
abbrev pub CarriesCode : Content → Option String → Type 0
CarriesCode (json (dict fs)) (some code) = find fs "error" ≡ some (str code)
CarriesCode (json (dict fs)) none = (code : String) → find fs "error" ≢ some (str code)
CarriesCode x none = Unit
CarriesCode x (some code) = ⊥

module _ (rt : Runtime) (net : Net) (auth : AuthConfig) (config : HttpConfig) (q : Request) where
  -- What the client is after it has sent `q` with the token.
  abbrev pub after_send : Value → AuthClient → AuthClient
  after_send token c =
      let d = (get_token rt net auth false c).1 in record d { log = sent q token ∷ d.log }

  -- The reply to the first attempt.
  pub record IsFirstReply (c : AuthClient) (token : Value) (status : ℕ) (x : Content) : Type 0 where
    pub has_token : (get_token rt net auth false c).0 ≡ ok token
    pub reply : net.respond (get_token rt net auth false c).1.log q token ≡ response status x

  one_round-first :
      (c : AuthClient) (token : Value) (status : ℕ) (x : Content)
      → IsFirstReply c token status x
      → one_round rt net auth config q 0 c
        ≡ on_reply rt net auth config (response status x) 0 (after_send token c)
  unfolding one_round send
  one_round-first c token status x h = rw (h.has_token, send) (rw h.reply)

  -- Where the first attempt is answered by a 401 and the fresh token cannot be had, the exception
  -- of the mint is what the call raises, an `httpx.HTTPError` too.
  pub refresh_failure_escapes :
      (c : AuthClient) (token : Value) (x : Content) {e : Exn}
      → IsFirstReply c token 401 x
      → (get_token rt net auth true (after_send token c)).0 ≡ err e
      → (request_json rt net auth config q c).0 ≡ err e
  unfolding request_json attempts on_reply on_client_error
  refresh_failure_escapes c token x h f =
      rw add-one (ground (arith, one_round-first c token 401 x h))

  -- With no retries configured, a first attempt that is answered by a 401, with a successful
  -- refresh, ends behind the loop in `QuikSyncConnectionError`, and not in the client error that
  -- the server sent.
  pub unauthorized_without_retries :
      (c : AuthClient) (token fresh : Value) (x : Content)
      → config.max_retries ≡ 0
      → IsFirstReply c token 401 x
      → (get_token rt net auth true (after_send token c)).0 ≡ ok fresh
      → (request_json rt net auth config q c).0 ≡ err connection_error
  unfolding request_json attempts on_reply on_client_error
  unauthorized_without_retries c token fresh x z h f =
      rw z (ground (arith, one_round-first c token 401 x h))
