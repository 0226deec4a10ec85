-- ===== src/Client/Auth.antt =====
-- packages/quiksync_client/quiksync_client/auth.py: the Auth0 token, cached.  `with self._lock` makes
-- `get_token` one step.
pub mod Refresh
pub mod Mint
use open_rmf_adapters_quiksy.Base.{
  ℕ, ◌+◌, ◌-◌, ◌*◌, String, Bool, true, false, not, ◌||◌, Option, none, some, List, ◌∷◌, ltb, leb,
  ◌==◌, if◌then◌else◌,
}
use open_rmf_adapters_quiksy.Base.Int.{ℤ, pos, negsuc, pos_part, neg_part, leb_ℤ}
use open_rmf_adapters_quiksy.Base.Exec.{
  Exn, Result, ok, err, ◌>>=◌, http_error, auth_error, value_error, attribute_error,
}
use open_rmf_adapters_quiksy.Python.{Value, null, int, truthy, get}
use open_rmf_adapters_quiksy.Python.Runtime.{Runtime, to_int}
use open_rmf_adapters_quiksy.Client.Net.{
  Event, minted, read_clock, drew, MintReply, mint_lost, mint_status, mint_body, Net,
}

-- The fields of `AuthConfig` that steer the client; the rest is text of the request to Auth0.  The
-- threshold is in percent, at most 100.
pub record AuthConfig : Type 0 where
  pub refresh_threshold_pct : ℕ
  pub jitter_seconds_min : ℤ
  pub jitter_seconds_max : ℤ

abbrev pub default_auth : AuthConfig
default_auth = record {
  refresh_threshold_pct = 80;
  jitter_seconds_min = negsuc 599;
  jitter_seconds_max = pos 600;
}

pub record CachedToken : Type 0 where
  pub access_token : Value
  pub expires_at : ℕ

-- The client with the log of what it did.
pub record AuthClient : Type 0 where
  pub cached : Option CachedToken
  pub consecutive_failures : ℕ
  pub log : List Event

abbrev pub AuthAction : Type 0 → Type 0
AuthAction A = AuthClient → Result A × AuthClient

-- `_estimate_total_ttl`
unfoldable pub estimate_total_ttl : CachedToken → ℕ → ℕ
estimate_total_ttl cached now = cached.expires_at - now + 60_000

-- `ttl_remaining < margin_target + jitter`, both sides times 100
unfoldable pub past_threshold : AuthConfig → ℕ → ℕ → ℤ → Bool
past_threshold config ttl_remaining total jitter =
    ltb (ttl_remaining * 100 + neg_part jitter * 100_000)
      (total * (100 - config.refresh_threshold_pct) + pos_part jitter * 100_000)

module _ (net : Net) (config : AuthConfig) where
  -- The clock is read first; only for a token that has not expired a random number is drawn and the
  -- clock read again.
  unfoldable pub should_refresh : CachedToken → List Event → Bool × List Event
  should_refresh cached log =
      let now = net.clock log in
      let log1 = read_clock ∷ log in
      let jitter = net.randint log1 in
      let log2 = drew ∷ log1 in
      let again = net.clock log2 in
      let log3 = read_clock ∷ log2 in
      if leb cached.expires_at now then (true, log1) else (
        past_threshold config (cached.expires_at - now) (estimate_total_ttl cached again) jitter,
        log3,
      )

module _ (rt : Runtime) where
  -- `token` and `ttl` of a 200 answer; `json()` raises a `ValueError` where the body is no JSON.
  unfoldable pub read_payload : Option Value → Result (Value × ℤ)
  read_payload none = err value_error
  read_payload (some payload) = do
    token ← get payload "access_token" null
    raw ← get payload "expires_in" (int (pos 0))
    ttl ← to_int rt raw
    ok (token, ttl)

module _ (rt : Runtime) (net : Net) where
  abbrev pub fail : Exn → AuthAction Value
  fail e c = (err e, record c { consecutive_failures = c.consecutive_failures + 1 })

  unfoldable pub store_token : Result (Value × ℤ) → AuthAction Value
  store_token (err e) c = (err e, c)
  store_token (ok (token, ttl)) c =
      if not (truthy token) || leb_ℤ ttl (pos 0) then fail auth_error c else (
        ok token,
        record {
          cached = some (record {
            access_token = token;
            expires_at = net.clock c.log + pos_part ttl * 1_000;
          });
          consecutive_failures = 0;
          log = read_clock ∷ c.log;
        },
      )

  -- The answers of Auth0; `mint_body` is a 200 and `mint_status` any other status.  A lost request is an `AuthError` from the third failure on.
  unfoldable pub on_mint : MintReply → AuthAction Value
  on_mint mint_lost c =
      if leb 3 (c.consecutive_failures + 1) then fail auth_error c else fail http_error c
  on_mint (mint_status code) c = fail auth_error c
  on_mint (mint_body payload) c = store_token (read_payload rt payload) c

  unfoldable pub mint_locked : AuthAction Value
  mint_locked c = on_mint (net.mint c.log) (record c { log = minted ∷ c.log })

module _ (rt : Runtime) (net : Net) (config : AuthConfig) where
  -- A cached token, when no refresh is forced.
  unfoldable pub use_cached : CachedToken → AuthAction Value
  use_cached cached c =
      let (refresh, log') = should_refresh net config cached c.log in
      let d = record c { log = log' } in
      if refresh then mint_locked rt net d else (ok cached.access_token, d)

  unfoldable pub get_token : Bool → AuthAction Value
  get_token true c = mint_locked rt net c
  get_token false c = elim c.cached [
    | none ↦ mint_locked rt net c
    | some cached ↦ use_cached cached c
  ]
