-- ===== src/Client/Ws.antt =====
-- packages/quiksync_client/quiksync_client/ws.py: the subscription loop.  What the network does in
-- one turn of the loop is an `Attempt`; times are whole milliseconds.
pub mod Circuit
pub mod Subscription
use open_rmf_adapters_quiksy.Base.{
  ℕ, ◌+◌, ◌*◌, min, Bool, true, false, Option, none, some, List, [], ◌∷◌, ◌++◌, ltb, leb, ◌==◌,
  if◌then◌else◌, length,
}
use open_rmf_adapters_quiksy.Base.Exec.{Exn, circuit_open}
use open_rmf_adapters_quiksy.Python.{Value, is_dict}

pub record WsConfig : Type 0 where
  pub backoff_base : ℕ
  pub backoff_max : ℕ
  pub circuit_breaker_401_count : ℕ
  pub circuit_breaker_window : ℕ

abbrev pub default_ws : WsConfig
default_ws = record {
  backoff_base = 1_000;
  backoff_max = 30_000;
  circuit_breaker_401_count = 3;
  circuit_breaker_window = 60_000;
}

pub record WsClient : Type 0 where
  pub closed : Bool
  pub failure_times : List ℕ

-- A message of an open connection: a text that is no JSON, a JSON value, or a call of `close` by
-- another task before the next message.
pub data Message : Type 0 where
  malformed : Message
  json : Value → Message
  closing : Message

-- One turn: `get_token` raises; the upgrade is refused with a status, read at a time; the transport
-- fails; or the connection opens, delivers messages and ends, by a clean close or by a failure.
pub data Attempt : Type 0 where
  no_token : Exn → Attempt
  refused : Option ℕ → ℕ → Attempt
  failed : Attempt
  connected : List Message → Attempt

-- How the generator stands after a turn: it has returned, it has raised, or it sleeps for about the
-- first number and goes on with the second as its backoff.
pub data Turn : Type 0 where
  returns : Turn
  raises : Exn → Turn
  sleeps : ℕ → ℕ → Turn

unfoldable pub close : WsClient → WsClient
close c = record c { closed = true }

-- the comprehension of `_record_401`
unfoldable pub recent : ℕ → ℕ → List ℕ → List ℕ
recent window now [] = []
recent window now (t ∷ ts) =
    let rest = recent window now ts in if ltb now (t + window) then t ∷ rest else rest

-- The frames that an open connection yields.  `self._closed` is looked at for each message.
unfoldable pub receive : WsClient → List Message → List Value × WsClient
receive c [] = ([], c)
receive c (closing ∷ ms) = receive (close c) ms
receive c (malformed ∷ ms) = let rest = receive c ms in if c.closed then ([], c) else rest
receive c (json v ∷ ms) =
    let (vs, d) = receive c ms in
    if c.closed then ([], c) else if is_dict v then (v ∷ vs, d) else (vs, d)

-- The turns that follow one that ended in a pause.
unfoldable pub go_on :
    (ℕ → WsClient → List Value × Turn × WsClient)
    → List Value × Turn × WsClient
    → List Value × Turn × WsClient
go_on more (vs, sleeps _ next, d) = let (ws, t, e) = more next d in (vs ++ ws, t, e)
go_on more (vs, returns, d) = (vs, returns, d)
go_on more (vs, raises e, d) = (vs, raises e, d)

module _ (config : WsConfig) where
  unfoldable pub record_401 : ℕ → WsClient → WsClient
  record_401 now c = record c {
    failure_times = recent config.circuit_breaker_window now c.failure_times ++ (now ∷ []);
  }

  unfoldable pub is_circuit_open : WsClient → Bool
  is_circuit_open c = leb config.circuit_breaker_401_count (length c.failure_times)

  -- the end of a turn: `if self._closed: return`, the pause, and the doubled backoff
  unfoldable pub pause : ℕ → WsClient → Turn
  pause backoff c =
      if c.closed then returns else sleeps backoff (min (backoff * 2) config.backoff_max)

  unfoldable pub turn : Attempt → ℕ → WsClient → List Value × Turn × WsClient
  turn (no_token e) backoff c = ([], raises e, c)
  turn failed backoff c = ([], pause backoff c, c)
  turn (refused status now) backoff c =
      let d = record_401 now c in
      if (elim status [ none ↦ false | some code ↦ code == 401 ])
      then (if is_circuit_open d then ([], raises circuit_open, d) else ([], pause backoff d, d))
      else ([], pause backoff c, c)
  turn (connected ms) backoff c = let (vs, d) = receive c ms in (vs, pause config.backoff_base d, d)

  -- What the consumer has seen when the turns are over, and how the generator stands.
  unfoldable pub subscribe : List Attempt → ℕ → WsClient → List Value × Turn × WsClient
  subscribe [] backoff c = ([], (if c.closed then returns else sleeps 0 backoff), c)
  subscribe (a ∷ rest) backoff c =
      let after = go_on (λ next d. subscribe rest next d) (turn a backoff c) in
      if c.closed then ([], returns, c) else after
