-- ===== src/Pump.antt =====
-- state_pump.py of the door and the lift adapter, which are the same but for the names: one task
-- that drains a subscription into a callback.  The callback works on a state of its own.
pub mod Closed
pub mod Counts
pub mod Fleet
mod Tests
use open_rmf_adapters_quiksy.Base.{ℕ, ◌+◌, Bool, true, false, List, [], ◌∷◌, if◌then◌else◌}
use open_rmf_adapters_quiksy.Base.Exec.{Exn, Result, ok, err}
use open_rmf_adapters_quiksy.Base.Act.{is_exception}
use open_rmf_adapters_quiksy.Python.{Value}
use open_rmf_adapters_quiksy.Client.Ws.{WsClient, close}

-- `_task`: None, a task that runs, or a task that is done
pub data Task : Type 0 where
  no_task running finished : Task

pub record StatePump : Type 0 where
  pub task : Task
  pub stop_requested : Bool
  pub frames_seen : ℕ
  pub dispatches_ok : ℕ

-- A pump with the subscription client, which other pumps share, and the world of its callback.
pub record PumpScene (S : Type 0) : Type 0 where
  pub pump : StatePump
  pub ws : WsClient
  pub world : S

-- `await self._on_state(name, frame)` for the name of this pump
abbrev pub Callback : Type 0 → Type 0
Callback S = Value → S → Result (Unit {0}) × S

-- What happens to a pump: a call of `start` or `stop`, a frame that arrives on the connection, the
-- end of the connection or of the pause before the next one, an exception of the subscription, and
-- a `close` of the shared client by another pump's `stop`.
pub data PumpEvent : Type 0 where
  start_called stop_called : PumpEvent
  frame_arrives : Value → PumpEvent
  turn_ends subscription_raises closed_elsewhere : PumpEvent

abbrev pub new_pump : StatePump
new_pump = record { task = no_task; stop_requested = false; frames_seen = 0; dispatches_ok = 0 }

unfoldable pub start : StatePump → StatePump
start p = elim p.task [ running ↦ p | _ ↦ record p { task = running; stop_requested = false } ]

module _ {S : Type 0} where
  unfoldable pub stop : PumpScene S → PumpScene S
  stop s = record s {
    pump = record (s.pump) { task = no_task; stop_requested = true };
    ws = close s.ws;
  }

  -- the task comes to its end
  abbrev pub finish : PumpScene S → PumpScene S
  finish s = record s { pump = record (s.pump) { task = finished } }

  -- `except Exception` logs and goes on; another exception ends the task.
  abbrev pub dispatch_failed : Exn → PumpScene S → PumpScene S
  dispatch_failed e s = if is_exception e then s else finish s

  -- `_dispatch_frame`
  unfoldable pub dispatch_frame : Callback S → Value → PumpScene S → PumpScene S
  dispatch_frame on_state frame s =
      let seen = record (s.pump) { frames_seen = s.pump.frames_seen + 1 } in
      let (r, world') = on_state frame s.world in
      elim r [
        | ok _ ↦ record s {
          pump = record seen { dispatches_ok = s.pump.dispatches_ok + 1 };
          world = world';
        }
        | err e ↦ dispatch_failed e (record s { pump = seen; world = world' })
      ]

  -- One resumption of `_run`'s loop with a frame: a closed client ends the subscription, a requested
  -- stop ends the loop.
  unfoldable pub run_frame : Callback S → Value → PumpScene S → PumpScene S
  run_frame on_state frame s =
      if s.ws.closed
      then finish s
      else if s.pump.stop_requested
      then finish s
      else dispatch_frame on_state frame s

  unfoldable pub pump_step : Callback S → PumpEvent → PumpScene S → PumpScene S
  pump_step on_state start_called s = record s { pump = start s.pump }
  pump_step on_state stop_called s = stop s
  pump_step on_state (frame_arrives frame) s = elim s.pump.task [
    | running ↦ run_frame on_state frame s
    | _ ↦ s
  ]
  pump_step on_state turn_ends s = elim s.pump.task [
    | running ↦ if s.ws.closed then finish s else s
    | _ ↦ s
  ]
  pump_step on_state subscription_raises s = elim s.pump.task [ running ↦ finish s | _ ↦ s ]
  pump_step on_state closed_elsewhere s = record s { ws = close s.ws }

  unfoldable pub pump_run : Callback S → List PumpEvent → PumpScene S → PumpScene S
  pump_run on_state [] s = s
  pump_run on_state (e ∷ es) s = pump_run on_state es (pump_step on_state e s)
