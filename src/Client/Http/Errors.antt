-- ===== src/Client/Http/Errors.antt =====
-- http.py: which exception a call ends with, and when it succeeds.
use native.Mathlib.Nat.{le_trans, mul-le-mul_left, mul-le-mul_right}
use native.Mathlib.Numerals.{add-one}
use open_rmf_adapters_quiksy.Base.{
  ℕ, zero, suc, ◌+◌, ◌*◌, ◌≤◌, ◌<◌, true, false, List, ◌∷◌, ◌≡◌, ◌⊎◌, arith, ap, ◌∙◌, ◌++◌,
  replicate, replicate-cons,
}
use open_rmf_adapters_quiksy.Base.Exec.{
  Exn, Result, ok, err, is_ok, http_error, connection_error, server_error,
}
use open_rmf_adapters_quiksy.Python.{Value}
use open_rmf_adapters_quiksy.Python.Runtime.{Runtime}
use open_rmf_adapters_quiksy.Client.Net.{
  Event, sent, Request, HttpReply, lost, response, Net, requests_of,
}
use open_rmf_adapters_quiksy.Client.Auth.{AuthConfig, AuthClient, get_token}
use open_rmf_adapters_quiksy.Client.Http.{
  HttpConfig, million, sleep_for, jittered, Round, done, again, sleep_backoff, retry_or, on_reply,
  send, one_round, attempts, request_json,
}
use open_rmf_adapters_quiksy.Client.Http.Loop.{get_token-sends}

scaled :
    (base cap r : ℕ)
    → base ≤ cap
    → r ≤ million
    → (base * (3 * million) ≤ base * (3 * million + 2 * r))
      × (base * (3 * million + 2 * r) ≤ cap * (5 * million))
scaled base cap r h k = (
  grind arith,
  le_trans (mul-le-mul_right (3 * million + 2 * r) h) (mul-le-mul_left cap (omega arith)),
)

-- The pause before the next attempt, with a random number up to one, is at least 50 milliseconds
-- and at least three quarters of the capped backoff, and at most five quarters of `backoff_max` or
-- else exactly 50 milliseconds.
pub jittered_bounds :
    (config : HttpConfig) (attempt r : ℕ)
    → r ≤ million
    → let pause = jittered (sleep_for config attempt) r in
      (50 * (4 * million) ≤ pause)
      × (sleep_for config attempt * (3 * million) ≤ pause)
      × ((pause ≤ config.backoff_max * (5 * million)) ⊎ (pause ≡ 50 * (4 * million)))
unfolding jittered sleep_for
jittered_bounds config attempt r h =
    ground (arith, scaled (sleep_for config attempt) config.backoff_max r)

-- Replies after which another attempt is made.
abbrev pub IsTransient : HttpReply → Type 0
IsTransient lost = Unit
IsTransient (response status x) = 500 ≤ status

abbrev pub IsExhausted : Result Value → Type 0
IsExhausted (err connection_error) = Unit
IsExhausted (err (server_error status)) = 500 ≤ status
IsExhausted _ = ⊥

module _ (rt : Runtime) (net : Net) (auth : AuthConfig) (config : HttpConfig) (q : Request) where
  abbrev AlwaysToken : Type 0
  AlwaysToken = (c : AuthClient) → is_ok (get_token rt net auth false c).0 ≡ true

  -- One round with a transient reply sends once; it goes on exactly before the last attempt.
  abbrev AfterTransient : ℕ → List Event → Round × AuthClient → Type 0
  AfterTransient a before (again, d) =
      (a < config.max_retries) × (requests_of d.log ≡ q ∷ requests_of before)
  AfterTransient a before (done r, d) =
      (config.max_retries ≤ a) × IsExhausted r × (requests_of d.log ≡ q ∷ requests_of before)

  retry_or-AfterTransient :
      (e : Exn) (a : ℕ) (c : AuthClient) (before : List Event)
      → IsExhausted (err e)
      → requests_of c.log ≡ q ∷ requests_of before
      → AfterTransient a before (retry_or rt net auth config e a c)
  unfolding retry_or sleep_backoff
  retry_or-AfterTransient e a c before x h = ground arith

  on_reply-AfterTransient :
      (r : HttpReply) (a : ℕ) (c : AuthClient) (before : List Event)
      → IsTransient r
      → requests_of c.log ≡ q ∷ requests_of before
      → AfterTransient a before (on_reply rt net auth config r a c)
  unfolding on_reply
  on_reply-AfterTransient lost a c before x h =
      retry_or-AfterTransient connection_error a c before tt h
  on_reply-AfterTransient (response status y) a c before x h =
      ground (arith, retry_or-AfterTransient (server_error status) a c before x h)

  send-AfterTransient :
      (r : Result Value) (a : ℕ) (c : AuthClient) (before : List Event)
      → is_ok r ≡ true
      → ((log : List Event) (token : Value) → IsTransient (net.respond log q token))
      → requests_of c.log ≡ requests_of before
      → AfterTransient a before (send rt net auth config r q a c)
  unfolding send
  send-AfterTransient (ok token) a c before g x h =
      on_reply-AfterTransient (net.respond c.log q token) a
        (record c { log = sent q token ∷ c.log }) before (x c.log token) (ap (λ l. q ∷ l) h)
  send-AfterTransient (err http_error) a c before g x h = cc
  send-AfterTransient (err e) a c before g x h = cc

  one_round-AfterTransient :
      (a : ℕ) (c : AuthClient)
      → AlwaysToken
      → ((log : List Event) (token : Value) → IsTransient (net.respond log q token))
      → AfterTransient a c.log (one_round rt net auth config q a c)
  unfolding one_round
  one_round-AfterTransient a c g x =
      let (r, d) = get_token rt net auth false c in
      send-AfterTransient r a d c.log (g c) x (get_token-sends rt net auth false c)

  abbrev Exhausts : ℕ → List Event → Result Value × AuthClient → Type 0
  Exhausts n before (r, d) =
      IsExhausted r × (requests_of d.log ≡ replicate n q ++ requests_of before)

  Round-Exhausts :
      (left a : ℕ) (r : Round) (d : AuthClient) (before : List Event)
      → a + left ≡ config.max_retries
      → AfterTransient a before (r, d)
      → (0 < left → Exhausts left d.log (attempts rt net auth config left q (a + 1) d))
      → Exhausts (suc left) before (elim r as (λ _. Result Value × AuthClient) [
        | done result ↦ (result, d)
        | again ↦ attempts rt net auth config left q (a + 1) d
      ])
  Round-Exhausts zero a (done x) d before s h ih = (h.1, h.2)
  Round-Exhausts (suc left) a (done x) d before s h ih = absurd (omega arith)
  Round-Exhausts zero a again d before s h ih = absurd (omega arith)
  Round-Exhausts (suc left) a again d before s h ih =
      let i = ih (omega arith) in
      (
        i.0,
        i.1
            ∙ ap (λ l. replicate (suc left) q ++ l) h.1
            ∙ replicate-cons (suc left) q (requests_of before),
      )

  attempts-Exhausts :
      (left a : ℕ) (c : AuthClient)
      → a + left ≡ config.max_retries
      → AlwaysToken
      → ((log : List Event) (token : Value) → IsTransient (net.respond log q token))
      → Exhausts (suc left) c.log (attempts rt net auth config (suc left) q a c)
  unfolding attempts
  attempts-Exhausts zero a c s g x =
      let (r, d) = one_round rt net auth config q a c in
      Round-Exhausts zero a r d c.log s (one_round-AfterTransient a c g x)
        (λ l. absurd (omega arith))
  attempts-Exhausts (suc left) a c s g x =
      let (r, d) = one_round rt net auth config q a c in
      Round-Exhausts (suc left) a r d c.log s (one_round-AfterTransient a c g x)
        (λ l. attempts-Exhausts left (a + 1) d (omega arith) g x)

  -- Against a server that stays out of reach or keeps failing with 5xx, and with a token for every
  -- attempt, a call sends its request exactly `max_retries + 1` times and raises
  -- `QuikSyncConnectionError` or a `QuikSyncServerError` with a status of 500 or more.
  pub request_json-Exhausts :
      (c : AuthClient)
      → AlwaysToken
      → ((log : List Event) (token : Value) → IsTransient (net.respond log q token))
      → IsExhausted (request_json rt net auth config q c).0
        × (requests_of (request_json rt net auth config q c).1.log
            ≡ replicate (config.max_retries + 1) q ++ requests_of c.log)
  unfolding request_json
  request_json-Exhausts c g x =
      rw add-one (attempts-Exhausts config.max_retries 0 c (omega arith) g x)
