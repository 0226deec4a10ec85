-- ===== src/Client/Ws/Circuit.antt =====
-- ws.py: the circuit breaker and the backoff.
use open_rmf_adapters_quiksy.Base.{ℕ, ◌≤◌, ◌<◌, List, [], ◌∷◌, ◌≡◌, refl, arith, length}
use open_rmf_adapters_quiksy.Python.{Value}
use open_rmf_adapters_quiksy.Client.Ws.{
  WsConfig, WsClient, Message, malformed, json, closing, Attempt, no_token, refused, failed,
  connected, Turn, sleeps, close, receive, record_401, is_circuit_open, pause, turn,
}

-- While the generator runs, fewer failures are on record than would open the circuit, and the
-- backoff keeps between the base and the cap.
pub record IsWithin (config : WsConfig) (backoff : ℕ) (c : WsClient) : Type 0 where
  pub below : length c.failure_times < config.circuit_breaker_401_count
  pub base : config.backoff_base ≤ backoff
  pub cap : backoff ≤ config.backoff_max

receive-failure_times :
    (c : WsClient) (ms : List Message) → (receive c ms).1.failure_times ≡ c.failure_times
unfolding receive close
receive-failure_times c [] = refl
receive-failure_times c (closing ∷ ms) = receive-failure_times (close c) ms
receive-failure_times c (malformed ∷ ms) = ground (arith, receive-failure_times c ms)
receive-failure_times c (json v ∷ ms) = ground (arith, receive-failure_times c ms)

-- What a turn leaves: such a state and a pause within the same bounds, if the generator goes on.
abbrev pub StaysWithin : WsConfig → List Value × Turn × WsClient → Type 0
StaysWithin config (vs, sleeps about next, d) =
    IsWithin config next d × (config.backoff_base ≤ about) × (about ≤ config.backoff_max)
StaysWithin config (vs, _, d) = Unit

-- From a state with fewer failures on record than open the circuit and a backoff within its bounds,
-- every turn ends the generator or leaves such a state, with a pause within the same bounds.
pub turn-StaysWithin :
    (config : WsConfig) (a : Attempt) (backoff : ℕ) (c : WsClient)
    → IsWithin config backoff c
    → StaysWithin config (turn config a backoff c)
unfolding turn pause is_circuit_open record_401
turn-StaysWithin config (no_token e) backoff c h = tt
turn-StaysWithin config failed backoff c h = ground arith
turn-StaysWithin config (refused status now) backoff c h = ground arith
turn-StaysWithin config (connected ms) backoff c h = ground (arith, receive-failure_times c ms)
