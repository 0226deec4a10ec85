-- ===== src/Client/Tests.antt =====
-- The client against concrete servers.
use open_rmf_adapters_quiksy.Base.{
  ℕ, ◌+◌, ◌<◌, ◌++◌, true, false, none, some, [], ◌∷◌, ◌≡◌, refl, arith, replicate, str_eq,
}
use open_rmf_adapters_quiksy.Base.Int.{pos, negsuc}
use open_rmf_adapters_quiksy.Base.Exec.{ok, err, auth_error, http_error, circuit_open, is_ok}
use open_rmf_adapters_quiksy.Python.{int, str, dict, end, field, get, find, truthy}
use open_rmf_adapters_quiksy.Python.Runtime.{to_int}
use open_rmf_adapters_quiksy.Python.Sample.{sample_runtime}
use open_rmf_adapters_quiksy.Client.Net.{
  get_method, Request, MintReply, mint_lost, mint_body, HttpReply, lost, response, Content,
  no_content, Net, requests_of,
}
use open_rmf_adapters_quiksy.Client.TimeConv.{
  Time, millis_to_time_parts, IsSameInstant, millis_to_time_parts_exact,
}
use open_rmf_adapters_quiksy.Client.Auth.{
  default_auth, AuthClient, get_token, use_cached, should_refresh, past_threshold,
  estimate_total_ttl, mint_locked, on_mint, store_token, read_payload,
}
use open_rmf_adapters_quiksy.Client.Auth.Refresh.{IsSteady, get_token_reuses}
use open_rmf_adapters_quiksy.Client.Auth.Mint.{MintOutcome, mint_locked-MintOutcome}
use open_rmf_adapters_quiksy.Client.Http.{HttpConfig, default_http, request_json}
use open_rmf_adapters_quiksy.Client.Http.Loop.{SendsAtMost, request_json-sends}
use open_rmf_adapters_quiksy.Client.Http.Errors.{IsExhausted, request_json-Exhausts}
use open_rmf_adapters_quiksy.Client.Http.Unauthorized.{IsFirstReply, refresh_failure_escapes}
use open_rmf_adapters_quiksy.Client.Ws.{
  default_ws, WsClient, json, refused, connected, failed, raises, go_on, pause, record_401, recent,
  is_circuit_open, receive, turn, subscribe,
}
use open_rmf_adapters_quiksy.Client.Ws.Subscription.{IsSubscribed, subscribe-IsSubscribed}

-- A network in which Auth0 always gives `m`, the server always gives `r`, and time stands still.
abbrev net_with : MintReply → HttpReply → Net
net_with m r = record {
  mint = λ log. m;
  respond = λ log q token. r;
  clock = λ log. 0;
  randint = λ log. pos 0;
  random = λ log. 0;
}

net_with-IsSteady : (m : MintReply) (r : HttpReply) → IsSteady (net_with m r)
net_with-IsSteady m r = record {
  forward = λ log. omega arith;
  jitter_low = λ log. omega arith;
  jitter_high = λ log. omega arith;
}

-- A client with a token that is good for an hour.
abbrev signed_in : AuthClient
signed_in = record {
  cached = some (record { access_token = str "t"; expires_at = 3_600_000 });
  consecutive_failures = 0;
  log = [];
}

abbrev signed_out : AuthClient
signed_out = record { cached = none; consecutive_failures = 2; log = [] }

abbrev ask : Request
ask = record { method = get_method; path = "/discovery"; body = none; params = none }

get_token_reuses_example :
    (get_token sample_runtime (net_with mint_lost lost) default_auth false signed_in).0
    ≡ ok (str "t")
get_token_reuses_example =
    get_token_reuses sample_runtime (net_with mint_lost lost) (net_with-IsSteady mint_lost lost)
      signed_in (record { access_token = str "t"; expires_at = 3_600_000 }) refl (omega arith)

mint_locked-MintOutcome_example :
    MintOutcome signed_out (mint_locked sample_runtime (net_with mint_lost lost) signed_out)
mint_locked-MintOutcome_example =
    mint_locked-MintOutcome sample_runtime (net_with mint_lost lost) signed_out

third_loss_is_auth_error :
    (mint_locked sample_runtime (net_with mint_lost lost) signed_out).0 ≡ err auth_error
unfolding mint_locked on_mint
third_loss_is_auth_error = refl

request_json-sends_example :
    SendsAtMost
      (default_http.max_retries + 1)
      ask
      signed_in.log
      (request_json sample_runtime
        (net_with mint_lost lost)
        default_auth
        default_http
        ask
        signed_in).1.log
request_json-sends_example =
    request_json-sends sample_runtime (net_with mint_lost lost) default_auth default_http ask
      signed_in

-- The token of this network is always new.
abbrev token_body : MintReply
token_body =
    mint_body (some (dict (field "access_token" (str "t") (field "expires_in" (int (pos 60)) end))))

millis_to_time_parts_exact_example :
    (t : Time) × (millis_to_time_parts (int (negsuc 0)) ≡ ok t)
    × IsSameInstant t (negsuc 0)
    × (t.nanosec < 1_000_000_000)
millis_to_time_parts_exact_example = millis_to_time_parts_exact (negsuc 0)

first_reply :
    (m : MintReply) (config : HttpConfig) (status : ℕ) (x : Content)
    → IsFirstReply sample_runtime
        (net_with m (response status x))
        default_auth
        config
        ask
        signed_in
        (str "t")
        status
        x
unfolding get_token use_cached should_refresh past_threshold estimate_total_ttl
first_reply m config status x = record { has_token = refl; reply = refl }

abbrev refusal : Content
refusal = open_rmf_adapters_quiksy.Client.Net.json (dict (field "error" (str "no_robot") end))

abbrev missing : Net
missing = net_with mint_lost (response 404 refusal)

abbrev unauthorized : Net
unauthorized = net_with mint_lost (response 401 no_content)

refresh_failure_escapes_example :
    (request_json sample_runtime unauthorized default_auth default_http ask signed_in).0
    ≡ err http_error
unfolding get_token use_cached should_refresh past_threshold estimate_total_ttl mint_locked on_mint
refresh_failure_escapes_example =
    refresh_failure_escapes sample_runtime unauthorized default_auth default_http ask signed_in
      (str "t") no_content (first_reply mint_lost default_http 401 no_content) refl

abbrev renewed : Net
renewed = net_with token_body (response 401 no_content)

abbrev no_retries : HttpConfig
no_retries = record default_http { max_retries = 0 }

abbrev failing : Net
failing = net_with token_body (response 503 no_content)

mint_works : (c : AuthClient) → is_ok (mint_locked sample_runtime failing c).0 ≡ true
unfolding mint_locked on_mint store_token read_payload get find str_eq to_int truthy
mint_works c = refl

always_token :
    (c : AuthClient) → is_ok (get_token sample_runtime failing default_auth false c).0 ≡ true
unfolding get_token use_cached
always_token c = grind (arith, mint_works)

request_json-Exhausts_example :
    IsExhausted (request_json sample_runtime failing default_auth default_http ask signed_in).0
    × (requests_of
          (request_json sample_runtime failing default_auth default_http ask signed_in).1.log
        ≡ replicate (default_http.max_retries + 1) ask ++ requests_of signed_in.log)
request_json-Exhausts_example =
    request_json-Exhausts sample_runtime failing default_auth default_http ask signed_in
      always_token (λ log token. omega arith)

abbrev quiet_state : WsClient
quiet_state = record { closed = false; failure_times = [] }

subscribe-IsSubscribed_example : IsSubscribed default_ws (
    subscribe default_ws
      (connected (json (dict end) ∷ json (str "x") ∷ []) ∷ refused (some 401) 5 ∷ failed ∷ [])
      1_000
      quiet_state)
subscribe-IsSubscribed_example =
    subscribe-IsSubscribed default_ws
      (connected (json (dict end) ∷ json (str "x") ∷ []) ∷ refused (some 401) 5 ∷ failed ∷ []) 1_000
      quiet_state (record { below = omega arith; base = omega arith; cap = omega arith })

three_401s_between_connections :
    (subscribe default_ws
      (refused (some 401) 1
        ∷ connected []
        ∷ refused (some 401) 2
        ∷ connected []
        ∷ refused (some 401) 3
        ∷ [])
      1_000
      quiet_state).1
    ≡ raises circuit_open
unfolding subscribe go_on turn pause record_401 recent is_circuit_open receive
three_401s_between_connections = refl
