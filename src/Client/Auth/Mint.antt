-- ===== src/Client/Auth/Mint.antt =====
-- auth.py: what a call of `get_token` does to the cache, the failure count and the network.
use open_rmf_adapters_quiksy.Base.{
  ℕ, ◌+◌, ◌*◌, Bool-cases, ◌<◌, String, true, false, Option, none, some, ◌∷◌, ◌≡◌, refl, arith, not,
  ◌||◌, inl, inr,
}
use open_rmf_adapters_quiksy.Base.Int.{ℤ, pos, negsuc, pos_part, leb_ℤ}
use open_rmf_adapters_quiksy.Base.Exec.{Result, ok, err, http_error, auth_error, ◌>>=◌}
use open_rmf_adapters_quiksy.Python.{
  Value, Float, finite, infinite, nan, truthy, null, bool, int, float, str, dict, get,
}
use open_rmf_adapters_quiksy.Python.Runtime.{Runtime, to_int, truncate}
use open_rmf_adapters_quiksy.Client.Net.{minted, MintReply, mint_lost, mint_status, mint_body, Net}
use open_rmf_adapters_quiksy.Client.Auth.{
  AuthClient, read_payload, store_token, on_mint, mint_locked,
}

-- How a mint may end: a token is cached as it is returned and the count of failures starts anew; or
-- the cache is as it was, and the count is one higher unless the answer could not be read at all.
abbrev pub MintOutcome : AuthClient → Result Value × AuthClient → Type 0
MintOutcome c (ok token, d) =
    (d.consecutive_failures ≡ 0)
    × (truthy token ≡ true)
    × ((expires_at : ℕ) × (d.cached
          ≡ some (record { access_token = token; expires_at = expires_at })))
MintOutcome c (err auth_error, d) =
    (d.consecutive_failures ≡ c.consecutive_failures + 1) × (d.cached ≡ c.cached)
MintOutcome c (err http_error, d) =
    (d.consecutive_failures ≡ c.consecutive_failures + 1)
    × (d.consecutive_failures < 3)
    × (d.cached ≡ c.cached)
MintOutcome c (err e, d) = (d.consecutive_failures ≡ c.consecutive_failures) × (d.cached ≡ c.cached)

-- The errors that reading an answer can raise are none of the two that the count is about.
abbrev IsReadError : {A : Type 0} → Result A → Type 0
IsReadError (err auth_error) = ⊥
IsReadError (err http_error) = ⊥
IsReadError _ = Unit

bind-IsReadError :
    {A B : Type 0} (m : Result A) (f : A → Result B)
    → IsReadError m
    → ((a : A) → IsReadError (f a))
    → IsReadError (m >>= f)
bind-IsReadError (ok a) f h k = k a
bind-IsReadError (err auth_error) f h k = h
bind-IsReadError (err http_error) f h k = h
bind-IsReadError (err e) f h k = tt

get-IsReadError : (v : Value) (key : String) (d : Value) → IsReadError (get v key d)
unfolding get
get-IsReadError (dict fs) key d = ground arith
get-IsReadError _ key d = tt

truncate-IsReadError : (x : Float) → IsReadError (truncate x)
unfolding truncate
truncate-IsReadError (finite (pos m) e) = tt
truncate-IsReadError (finite (negsuc m) e) = tt
truncate-IsReadError (infinite b) = tt
truncate-IsReadError nan = tt

module _ (rt : Runtime) where
  to_int-IsReadError : (v : Value) → IsReadError (to_int rt v)
  unfolding to_int
  to_int-IsReadError (bool true) = tt
  to_int-IsReadError (bool false) = tt
  to_int-IsReadError (str s) = ground arith
  to_int-IsReadError (float x) = truncate-IsReadError x
  to_int-IsReadError _ = tt

  read_payload-IsReadError : (p : Option Value) → IsReadError (read_payload rt p)
  unfolding read_payload
  read_payload-IsReadError none = tt
  read_payload-IsReadError (some payload) =
      bind-IsReadError (get payload "access_token" null) _
        (get-IsReadError payload "access_token" null)
        λ token.
          bind-IsReadError (get payload "expires_in" (int (pos 0))) _
            (get-IsReadError payload "expires_in" (int (pos 0)))
            λ raw. bind-IsReadError (to_int rt raw) _ (to_int-IsReadError raw) λ ttl. tt

module _ (rt : Runtime) (net : Net) where
  store_token-MintOutcome :
      (r : Result (Value × ℤ)) (c : AuthClient)
      → IsReadError r
      → MintOutcome c (store_token rt net r c)
  unfolding store_token
  store_token-MintOutcome (ok (token, ttl)) c h =
      elim (Bool-cases (not (truthy token) || leb_ℤ ttl (pos 0))) [
        | inl bad ↦ rw bad (refl, refl)
        | inr good ↦ rw good (refl, ground arith, (net.clock c.log + pos_part ttl * 1_000, refl))
      ]
  store_token-MintOutcome (err auth_error) c h = elim h [ ]
  store_token-MintOutcome (err http_error) c h = elim h [ ]
  store_token-MintOutcome (err e) c h = (refl, refl)

  on_mint-MintOutcome :
      (r : MintReply) (c : AuthClient)
      → MintOutcome c (on_mint rt net r (record c { log = minted ∷ c.log }))
  unfolding on_mint
  on_mint-MintOutcome mint_lost c = ground arith
  on_mint-MintOutcome (mint_status code) c = (refl, refl)
  on_mint-MintOutcome (mint_body payload) c =
      store_token-MintOutcome (read_payload rt payload) (record c { log = minted ∷ c.log })
        (read_payload-IsReadError rt payload)

  -- However Auth0 answers, a mint ends in one of four ways: with a token that is not false, cached,
  -- and no failures on record; with an `AuthError` and one failure more; with an `httpx.HTTPError`,
  -- one failure more and fewer than three in a row; or with another exception and the failures as
  -- they were. The cache changes only in the first.
  pub mint_locked-MintOutcome : (c : AuthClient) → MintOutcome c (mint_locked rt net c)
  unfolding mint_locked
  mint_locked-MintOutcome c = on_mint-MintOutcome (net.mint c.log) c
