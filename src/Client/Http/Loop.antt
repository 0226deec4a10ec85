-- ===== src/Client/Http/Loop.antt =====
-- http.py: how often a request is sent, and that every time it is the same.
use open_rmf_adapters_quiksy.Base.{
  ℕ, zero, suc, ◌+◌, ◌≤◌, Bool, true, false, List, ◌∷◌, ◌≡◌, ◌⊎◌, refl, arith, ap, ◌∙◌, ◌++◌,
  replicate, replicate-cons, Option-cases, inl, inr,
}
use open_rmf_adapters_quiksy.Base.Exec.{
  Exn, Result, ok, err, http_error, connection_error, server_error,
}
use open_rmf_adapters_quiksy.Base.Int.{ℤ}
use open_rmf_adapters_quiksy.Python.{Value}
use open_rmf_adapters_quiksy.Python.Runtime.{Runtime}
use open_rmf_adapters_quiksy.Client.Net.{
  Event, minted, sent, Request, HttpReply, lost, response, Content, Net, requests_of, MintReply,
  mint_body,
}
use open_rmf_adapters_quiksy.Client.Auth.{
  AuthConfig, AuthClient, CachedToken, get_token, use_cached, should_refresh, mint_locked, on_mint,
  store_token, read_payload,
}
use open_rmf_adapters_quiksy.Client.Http.{
  HttpConfig, Round, done, again, sleep_backoff, retry_or, on_client_error, on_reply, send,
  one_round, attempts, request_json,
}

-- Between two logs at most `n` requests were sent, and each was `q`.
abbrev pub SendsAtMost : ℕ → Request → List Event → List Event → Type 0
SendsAtMost n q before after =
    (k : ℕ) × (k ≤ n) × (requests_of after ≡ replicate k q ++ requests_of before)

module _ (rt : Runtime) (net : Net) (auth : AuthConfig) where
  store_token-sends :
      (r : Result (Value × ℤ)) (c : AuthClient)
      → requests_of (store_token rt net r c).1.log ≡ requests_of c.log
  unfolding store_token
  store_token-sends r c = ground arith

  on_mint-sends :
      (r : MintReply) (c : AuthClient) → requests_of (on_mint rt net r c).1.log ≡ requests_of c.log
  unfolding on_mint
  on_mint-sends (mint_body p) c = store_token-sends (read_payload rt p) c
  on_mint-sends _ c = ground arith

  mint_locked-sends :
      (c : AuthClient) → requests_of (mint_locked rt net c).1.log ≡ requests_of c.log
  unfolding mint_locked
  mint_locked-sends c = on_mint-sends (net.mint c.log) (record c { log = minted ∷ c.log })

  use_cached-sends :
      (t : CachedToken) (c : AuthClient)
      → requests_of (use_cached rt net auth t c).1.log ≡ requests_of c.log
  unfolding use_cached should_refresh
  use_cached-sends t c =
      let (refresh, log') = should_refresh net auth t c.log in
      ground (arith, mint_locked-sends (record c { log = log' }))

  pub get_token-sends :
      (force : Bool) (c : AuthClient)
      → requests_of (get_token rt net auth force c).1.log ≡ requests_of c.log
  unfolding get_token
  get_token-sends true c = mint_locked-sends c
  get_token-sends false c = elim (Option-cases c.cached) [
    | inl e ↦ rw (e, get_token) (mint_locked-sends c)
    | inr (t, e) ↦ rw (e, get_token) (use_cached-sends t c)
  ]

module _ (rt : Runtime) (net : Net) (auth : AuthConfig) (config : HttpConfig) (q : Request) where
  retry_or-sends :
      (e : Exn) (a : ℕ) (c : AuthClient)
      → requests_of (retry_or rt net auth config e a c).1.log ≡ requests_of c.log
  unfolding retry_or sleep_backoff
  retry_or-sends e a c = ground arith

  on_client_error-sends :
      (status : ℕ) (x : Content) (a : ℕ) (c : AuthClient)
      → requests_of (on_client_error rt net auth config status x a c).1.log ≡ requests_of c.log
  unfolding on_client_error
  on_client_error-sends status x a c = ground (arith, get_token-sends rt net auth true c)

  on_reply-sends :
      (r : HttpReply) (a : ℕ) (c : AuthClient)
      → requests_of (on_reply rt net auth config r a c).1.log ≡ requests_of c.log
  unfolding on_reply
  on_reply-sends lost a c = retry_or-sends connection_error a c
  on_reply-sends (response status x) a c =
      ground (arith, on_client_error-sends status x a c, retry_or-sends (server_error status) a c)

  send-sends :
      (r : Result Value) (a : ℕ) (c : AuthClient)
      → (requests_of (send rt net auth config r q a c).1.log ≡ requests_of c.log)
        ⊎ (requests_of (send rt net auth config r q a c).1.log ≡ q ∷ requests_of c.log)
  unfolding send
  send-sends (ok token) a c =
      inr (on_reply-sends (net.respond c.log q token) a (record c { log = sent q token ∷ c.log }))
  send-sends (err http_error) a c = inl (retry_or-sends connection_error a c)
  send-sends (err e) a c = inl refl

  one_round-sends :
      (a : ℕ) (c : AuthClient)
      → (requests_of (one_round rt net auth config q a c).1.log ≡ requests_of c.log)
        ⊎ (requests_of (one_round rt net auth config q a c).1.log ≡ q ∷ requests_of c.log)
  unfolding one_round
  one_round-sends a c =
      let (r, d) = get_token rt net auth false c in
      rw (← get_token-sends rt net auth false c) (send-sends r a d)

  Round-sends :
      (left a : ℕ) (r : Round) (d : AuthClient) (before : List Event)
      → (requests_of d.log ≡ requests_of before) ⊎ (requests_of d.log ≡ q ∷ requests_of before)
      → SendsAtMost left q d.log (attempts rt net auth config left q a d).1.log
      → SendsAtMost
          (suc left)
          q
          before
          (elim r as (λ _. Result Value × AuthClient) [
            | done result ↦ (result, d)
            | again ↦ attempts rt net auth config left q a d
          ]).1.log
  Round-sends left a (done x) d before (inl e) h = (0, omega arith, e)
  Round-sends left a (done x) d before (inr e) h = (1, omega arith, e)
  Round-sends left a again d before (inl e) h =
      (h.0, omega (arith, h.1), h.2 ∙ ap (λ l. replicate h.0 q ++ l) e)
  Round-sends left a again d before (inr e) h = (
    suc h.0,
    omega (arith, h.1),
    h.2 ∙ ap (λ l. replicate h.0 q ++ l) e ∙ replicate-cons h.0 q (requests_of before),
  )

  attempts-sends :
      (left a : ℕ) (c : AuthClient)
      → SendsAtMost left q c.log (attempts rt net auth config left q a c).1.log
  unfolding attempts
  attempts-sends zero a c = (0, omega arith, refl)
  attempts-sends (suc left) a c =
      let (r, d) = one_round rt net auth config q a c in
      Round-sends left (a + 1) r d c.log (one_round-sends a c) (attempts-sends left (a + 1) d)

  -- Whatever the servers answer, one call sends its request at most `max_retries + 1` times, each
  -- time with the same method, path, body and parameters, and sends nothing else.
  pub request_json-sends :
      (c : AuthClient)
      → SendsAtMost (config.max_retries + 1) q c.log (request_json rt net auth config q c).1.log
  unfolding request_json
  request_json-sends c = attempts-sends (config.max_retries + 1) 0 c
