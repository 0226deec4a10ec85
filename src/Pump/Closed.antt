-- ===== src/Pump/Closed.antt =====
-- state_pump.py: the end of a subscription client.
use open_rmf_adapters_quiksy.Base.{true, List, [], ◌∷◌, ◌≡◌, ◌∙◌, refl, arith}
use open_rmf_adapters_quiksy.Client.Ws.{close}
use open_rmf_adapters_quiksy.Pump.{
  PumpScene, Callback, PumpEvent, start_called, stop_called, frame_arrives, turn_ends,
  subscription_raises, closed_elsewhere, start, stop, run_frame, pump_step, pump_run,
}

-- What a pump with a closed client can no longer change.
pub record IsSilent {S : Type 0} (s t : PumpScene S) : Type 0 where
  pub closed : t.ws.closed ≡ true
  pub frames : t.pump.frames_seen ≡ s.pump.frames_seen
  pub dispatches : t.pump.dispatches_ok ≡ s.pump.dispatches_ok
  pub world : t.world ≡ s.world

module _ {S : Type 0} (on_state : Callback S) where
  pump_step-IsSilent :
      (e : PumpEvent) (s : PumpScene S) → s.ws.closed ≡ true → IsSilent s (pump_step on_state e s)
  unfolding pump_step start stop run_frame close
  pump_step-IsSilent start_called s h = ground arith
  pump_step-IsSilent stop_called s h = ground arith
  pump_step-IsSilent (frame_arrives v) s h = ground arith
  pump_step-IsSilent turn_ends s h = ground arith
  pump_step-IsSilent subscription_raises s h = ground arith
  pump_step-IsSilent closed_elsewhere s h = ground arith

  -- Once the client is closed, a pump never calls its callback again: no sequence of starts, stops
  -- and frames changes its counters or the callback's world, or opens the client.
  pub pump_run-IsSilent :
      (es : List PumpEvent) (s : PumpScene S)
      → s.ws.closed ≡ true
      → IsSilent s (pump_run on_state es s)
  unfolding pump_run
  pump_run-IsSilent [] s h = record { closed = h; frames = refl; dispatches = refl; world = refl }
  pump_run-IsSilent (e ∷ es) s h =
      let a = pump_step-IsSilent e s h in
      let b = pump_run-IsSilent es (pump_step on_state e s) a.closed in
      record {
        closed = b.closed;
        frames = b.frames ∙ a.frames;
        dispatches = b.dispatches ∙ a.dispatches;
        world = b.world ∙ a.world;
      }

  -- A pump that was stopped does not come back: whatever follows a `stop`, a `start` too, it sees no
  -- further frame and leaves the callback's world as it is.
  pub stop_is_final :
      (es : List PumpEvent) (s : PumpScene S) → IsSilent s (pump_run on_state (stop_called ∷ es) s)
  unfolding pump_run pump_step stop close
  stop_is_final es s =
      let b = pump_run-IsSilent es (stop s) refl in
      record { closed = b.closed; frames = b.frames; dispatches = b.dispatches; world = b.world }
