-- ===== src/Pump/Counts.antt =====
-- state_pump.py: the counters of a pump, and failing callbacks.
use open_rmf_adapters_quiksy.Base.{
  ℕ, ◌+◌, ◌≤◌, Bool, true, false, List, [], ◌∷◌, ◌≡◌, ◌∙◌, ap, refl, arith, if◌then◌else◌, length,
}
use open_rmf_adapters_quiksy.Base.Exec.{Result, ok, err, is_ok}
use open_rmf_adapters_quiksy.Base.Act.{is_exception}
use open_rmf_adapters_quiksy.Python.{Value}
use open_rmf_adapters_quiksy.Pump.{
  running, PumpScene, Callback, PumpEvent, frame_arrives, start, stop, run_frame, dispatch_frame,
  pump_step, pump_run,
}

-- A pump that drains its subscription.
pub record IsDraining {S : Type 0} (s : PumpScene S) : Type 0 where
  pub task : s.pump.task ≡ running
  pub wanted : s.pump.stop_requested ≡ false
  pub connected : s.ws.closed ≡ false

abbrev pub arrivals : List Value → List PumpEvent
arrivals [] = []
arrivals (v ∷ vs) = frame_arrives v ∷ arrivals vs

abbrev pub raises_caught : Result (Unit {0}) → Bool
raises_caught (ok done) = true
raises_caught (err e) = is_exception e

module _ {S : Type 0} (on_state : Callback S) where
  -- The world of the callback after it was given the frames in order, and how often it returned.
  abbrev pub fold_world : List Value → S → S
  fold_world [] w = w
  fold_world (v ∷ vs) w = fold_world vs (on_state v w).1

  abbrev pub successes : List Value → S → ℕ
  successes [] w = 0
  successes (v ∷ vs) w = (if is_ok (on_state v w).0 then 1 else 0) + successes vs (on_state v w).1

  -- The callback raises, of all exceptions, only an `Exception`.
  abbrev pub IsCaught : Type 0
  IsCaught = (v : Value) (w : S) → raises_caught (on_state v w).0 ≡ true

  pub record HasDrained (vs : List Value) (s t : PumpScene S) : Type 0 where
    pub draining : IsDraining t
    pub frames : t.pump.frames_seen ≡ s.pump.frames_seen + length vs
    pub dispatches : t.pump.dispatches_ok ≡ s.pump.dispatches_ok + successes vs s.world
    pub world : t.world ≡ fold_world vs s.world

  dispatch_frame-HasDrained :
      (v : Value) (s : PumpScene S)
      → raises_caught (on_state v s.world).0 ≡ true
      → IsDraining s
      → HasDrained (v ∷ []) s (pump_step on_state (frame_arrives v) s)
  unfolding pump_step run_frame dispatch_frame
  dispatch_frame-HasDrained v s c h = ground (arith, c, h.task, h.wanted, h.connected)

  -- With a callback that raises nothing but an `Exception`, a running pump with an open client gives
  -- every frame that arrives to its callback, in order and once, counts each frame, and counts as
  -- dispatched those for which the callback returned; an exception of the callback does not end it.
  pub pump_run-HasDrained :
      (vs : List Value) (s : PumpScene S)
      → IsCaught
      → IsDraining s
      → HasDrained vs s (pump_run on_state (arrivals vs) s)
  unfolding pump_run
  pump_run-HasDrained [] s c h = record {
    draining = h;
    frames = omega arith;
    dispatches = omega arith;
    world = refl;
  }
  pump_run-HasDrained (v ∷ vs) s c h =
      let a = dispatch_frame-HasDrained v s (c v s.world) h in
      let b = pump_run-HasDrained vs (pump_step on_state (frame_arrives v) s) c a.draining in
      record {
        draining = b.draining;
        frames = omega (arith, a.frames, b.frames);
        dispatches = ground (arith, a.dispatches, b.dispatches, a.world);
        world = b.world ∙ ap (fold_world vs) a.world;
      }

  pump_step-counts :
      (e : PumpEvent) (s : PumpScene S)
      → s.pump.dispatches_ok ≤ s.pump.frames_seen
      → (pump_step on_state e s).pump.dispatches_ok ≤ (pump_step on_state e s).pump.frames_seen
  unfolding pump_step start stop run_frame dispatch_frame
  pump_step-counts e s h = ground arith

  -- No sequence of events makes a pump count more dispatches than frames.
  pub pump_run-counts :
      (es : List PumpEvent) (s : PumpScene S)
      → s.pump.dispatches_ok ≤ s.pump.frames_seen
      → (pump_run on_state es s).pump.dispatches_ok ≤ (pump_run on_state es s).pump.frames_seen
  unfolding pump_run
  pump_run-counts [] s h = h
  pump_run-counts (e ∷ es) s h =
      pump_run-counts es (pump_step on_state e s) (pump_step-counts e s h)
