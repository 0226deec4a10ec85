-- ===== src/Client/Ws/Subscription.antt =====
-- ws.py: the subscription over all its turns.
use open_rmf_adapters_quiksy.Base.{
  ℕ, true, List, [], ◌∷◌, ◌++◌, ◌≡◌, arith, All, Bool-cases, inl, inr,
}
use open_rmf_adapters_quiksy.Python.{Value, is_dict}
use open_rmf_adapters_quiksy.Client.Ws.{
  WsConfig, WsClient, Message, malformed, json, closing, Attempt, no_token, refused, failed,
  connected, Turn, returns, raises, sleeps, close, receive, go_on, turn, subscribe,
}
use open_rmf_adapters_quiksy.Client.Ws.Circuit.{IsWithin, StaysWithin, turn-StaysWithin}

abbrev pub IsObject : Value → Type 0
IsObject v = is_dict v ≡ true

-- How a subscription stands after some turns: what it yielded are JSON objects, and if it goes on, it
-- does so from a state within the bounds.
abbrev pub IsSubscribed : WsConfig → List Value × Turn × WsClient → Type 0
IsSubscribed config (vs, sleeps about next, d) = All IsObject vs × IsWithin config next d
IsSubscribed config (vs, _, d) = All IsObject vs

All-append : (xs ys : List Value) → All IsObject xs → All IsObject ys → All IsObject (xs ++ ys)
All-append [] ys p q = q
All-append (x ∷ xs) ys (here, p) q = (here, All-append xs ys p q)

receive-objects : (c : WsClient) (ms : List Message) → All IsObject (receive c ms).0
unfolding receive
receive-objects c [] = tt
receive-objects c (closing ∷ ms) = receive-objects (close c) ms
receive-objects c (malformed ∷ ms) = ground (arith, receive-objects c ms)
receive-objects c (json v ∷ ms) = ground (arith, receive-objects c ms)

module _ (config : WsConfig) where
  turn-objects :
      (a : Attempt) (backoff : ℕ) (c : WsClient) → All IsObject (turn config a backoff c).0
  unfolding turn
  turn-objects (no_token e) backoff c = tt
  turn-objects failed backoff c = tt
  turn-objects (refused status now) backoff c = ground arith
  turn-objects (connected ms) backoff c = receive-objects c ms

  prefixed :
      (vs : List Value) (x : List Value × Turn × WsClient)
      → All IsObject vs
      → IsSubscribed config x
      → IsSubscribed config (vs ++ x.0, x.1, x.2)
  prefixed vs (ws, sleeps about next, d) p (q, w) = (All-append vs ws p q, w)
  prefixed vs (ws, returns, d) p q = All-append vs ws p q
  prefixed vs (ws, raises e, d) p q = All-append vs ws p q

  go_on-IsSubscribed :
      (more : ℕ → WsClient → List Value × Turn × WsClient) (x : List Value × Turn × WsClient)
      → ((next : ℕ) (d : WsClient) → IsWithin config next d → IsSubscribed config (more next d))
      → All IsObject x.0
      → StaysWithin config x
      → IsSubscribed config (go_on more x)
  unfolding go_on
  go_on-IsSubscribed more (vs, sleeps about next, d) ih p (h, low, high) =
      prefixed vs (more next d) p (ih next d h)
  go_on-IsSubscribed more (vs, returns, d) ih p h = p
  go_on-IsSubscribed more (vs, raises e, d) ih p h = p

  -- Whatever the network does, over any number of turns, a subscription that begins within the bounds
  -- yields only JSON objects, and as long as it goes on it has fewer failures on record than open the
  -- circuit and a backoff between the base and the cap.
  pub subscribe-IsSubscribed :
      (turns : List Attempt) (backoff : ℕ) (c : WsClient)
      → IsWithin config backoff c
      → IsSubscribed config (subscribe config turns backoff c)
  unfolding subscribe
  subscribe-IsSubscribed [] backoff c h = elim (Bool-cases c.closed) [
    | inl shut ↦ simp shut tt
    | inr alive ↦ simp alive (tt, h)
  ]
  subscribe-IsSubscribed (a ∷ rest) backoff c h =
      let after =
        go_on-IsSubscribed (λ next d. subscribe config rest next d) (turn config a backoff c)
          (λ next d w. subscribe-IsSubscribed rest next d w) (turn-objects a backoff c)
          (turn-StaysWithin config a backoff c h) in
      elim (Bool-cases c.closed) [ inl shut ↦ simp shut tt | inr alive ↦ simp alive after ]
