-- ===== src/Client/Http.antt =====
-- packages/quiksync_client/quiksync_client/http.py: the request loop.  The log calls and the texts of
-- the exceptions are not modelled.
pub mod Loop
pub mod Errors
pub mod Unauthorized
pub mod Endpoints
use open_rmf_adapters_quiksy.Base.{
  ℕ, zero, suc, ◌+◌, ◌-◌, ◌*◌, ◌^◌, min, max, String, Bool, true, false, not, ◌&&◌, Option, none,
  some, List, ◌∷◌, ltb, leb, ◌==◌, if◌then◌else◌, is_empty,
}
use open_rmf_adapters_quiksy.Base.Dict.{Dict}
use open_rmf_adapters_quiksy.Base.Exec.{
  Exn, Result, ok, err, http_error, connection_error, client_error, server_error,
}
use open_rmf_adapters_quiksy.Python.{Value, null, str, dict, end, field, get, Fields, find}
use open_rmf_adapters_quiksy.Python.Runtime.{Runtime}
use open_rmf_adapters_quiksy.Client.Net.{
  Event, drew, sent, slept, Request, Content, no_content, json, raw, HttpReply, lost, response, Net,
}
use open_rmf_adapters_quiksy.Client.Auth.{AuthConfig, AuthClient, get_token}

-- Times are in milliseconds.
pub record HttpConfig : Type 0 where
  pub max_retries : ℕ
  pub backoff_base : ℕ
  pub backoff_max : ℕ

abbrev pub default_http : HttpConfig
default_http = record { max_retries = 3; backoff_base = 500; backoff_max = 8_000 }

abbrev pub million : ℕ
million = 1_000_000

-- `min(base, backoff_max_seconds)`
unfoldable pub sleep_for : HttpConfig → ℕ → ℕ
sleep_for config attempt = min (config.backoff_base * 2 ^ attempt) config.backoff_max

-- `max(sleep_for + jitter, 0.05)`, in four-millionths of a millisecond: with `random()` as r
-- millionths, the jitter is sleep_for * (2 * r - million) / (4 * million).
unfoldable pub jittered : ℕ → ℕ → ℕ
jittered base r = max (base * (3 * million + 2 * r)) (50 * (4 * million))

-- `_parse_body`
unfoldable pub parse_body : Content → Value
parse_body no_content = dict end
parse_body (json v) = v
parse_body (raw text) = dict (field "_raw_body" (str text) end)

-- `payload.get("error") if isinstance(payload, dict) else None`, where it is a text
unfoldable pub error_code : Value → Option String
error_code (dict fs) = elim (find fs "error") [ some (str s) ↦ some s | _ ↦ none ]
error_code _ = none

-- What the loop does after one round: it returns or raises, or goes on.
pub data Round : Type 0 where
  done : Result Value → Round
  again : Round

module _ (rt : Runtime) (net : Net) (auth : AuthConfig) (config : HttpConfig) where
  unfoldable pub sleep_backoff : ℕ → AuthClient → AuthClient
  sleep_backoff attempt c = record c {
    log = slept (jittered (sleep_for config attempt) (net.random c.log)) ∷ drew ∷ c.log;
  }

  -- `if attempt < max_retries: sleep and continue`, else raise
  unfoldable pub retry_or : Exn → ℕ → AuthClient → Round × AuthClient
  retry_or e attempt c =
      if ltb attempt config.max_retries then (again, sleep_backoff attempt c) else (done (err e), c)

  -- The first 401 forces a fresh token and goes on without a pause.
  unfoldable pub on_client_error : ℕ → Content → ℕ → AuthClient → Round × AuthClient
  on_client_error status content attempt c =
      if status == 401 && attempt == 0
      then (let (r, d) = get_token rt net auth true c in
          elim r [ ok _ ↦ (again, d) | err e ↦ (done (err e), d) ])
      else (done (err (client_error status (error_code (parse_body content)))), c)

  unfoldable pub on_reply : HttpReply → ℕ → AuthClient → Round × AuthClient
  on_reply lost attempt c = retry_or connection_error attempt c
  on_reply (response status content) attempt c =
      if leb 400 status && ltb status 500
      then on_client_error status content attempt c
      else if leb 500 status
      then retry_or (server_error status) attempt c
      else (done (ok (parse_body content)), c)

  -- The `try` of a round spans the token too: an `httpx.HTTPError` of the mint is one of the request.
  unfoldable pub send : Result Value → Request → ℕ → AuthClient → Round × AuthClient
  send (err http_error) q attempt c = retry_or connection_error attempt c
  send (err e) q attempt c = (done (err e), c)
  send (ok token) q attempt c =
      on_reply (net.respond c.log q token) attempt (record c { log = sent q token ∷ c.log })

  unfoldable pub one_round : Request → ℕ → AuthClient → Round × AuthClient
  one_round q attempt c = let (token, d) = get_token rt net auth false c in send token q attempt d

  -- `for attempt in range(max_retries + 1)`, with the rounds that are left.  The last line of the
  -- method stands behind the loop.
  unfoldable pub attempts : ℕ → Request → ℕ → AuthClient → Result Value × AuthClient
  attempts zero q attempt c = (err connection_error, c)
  attempts (suc left) q attempt c =
      let (r, d) = one_round q attempt c in
      elim r [ done result ↦ (result, d) | again ↦ attempts left q (attempt + 1) d ]

  unfoldable pub request_json : Request → AuthClient → Result Value × AuthClient
  request_json q c = attempts (config.max_retries + 1) q 0 c
