-- ===== src/Client/Auth/Refresh.antt =====
-- auth.py: when a cached token is used and when it is replaced.
use open_rmf_adapters_quiksy.Base.{◌+◌, ◌≤◌, false, some, List, ◌∷◌, ◌≡◌, arith}
use open_rmf_adapters_quiksy.Base.Int.{pos, negsuc, ◌≤ℤ◌}
use open_rmf_adapters_quiksy.Base.Exec.{ok}
use open_rmf_adapters_quiksy.Python.Runtime.{Runtime}
use open_rmf_adapters_quiksy.Client.Net.{Event, read_clock, drew, Net}
use open_rmf_adapters_quiksy.Client.Auth.{
  default_auth, CachedToken, AuthClient, estimate_total_ttl, past_threshold, should_refresh,
  use_cached, get_token,
}

-- The second reading of the clock is not before the first, and the jitter keeps to its range.
pub record IsSteady (net : Net) : Type 0 where
  pub forward : (log : List Event) → net.clock log ≤ net.clock (drew ∷ read_clock ∷ log)
  pub jitter_low : (log : List Event) → negsuc 599 ≤ℤ net.randint log
  pub jitter_high : (log : List Event) → net.randint log ≤ℤ pos 600

module _ (rt : Runtime) (net : Net) (steady : IsSteady net) where
  -- With the default settings, a clock that does not run backwards and a jitter in its range, a
  -- cached token is handed out as it is while 765 seconds or more are left of it, however long it
  -- was good for.
  pub get_token_reuses :
      (c : AuthClient) (t : CachedToken)
      → c.cached ≡ some t
      → net.clock c.log + 765_000 ≤ t.expires_at
      → (get_token rt net default_auth false c).0 ≡ ok t.access_token
  unfolding get_token use_cached should_refresh past_threshold estimate_total_ttl
  get_token_reuses c t e h = ground (
    arith,
    steady.forward c.log,
    steady.jitter_low (read_clock ∷ c.log),
    steady.jitter_high (read_clock ∷ c.log),
  )
