-- ===== src/Fleet/Robot/Laws.antt =====
-- robot_handle.py: the branches of one call of `on_state`.
use open_rmf_adapters_quiksy.Base.{ℕ, ◌+◌, Option, none, some, ◌≡◌, refl, arith}
use open_rmf_adapters_quiksy.Base.Exec.{Result, ok, err}
use open_rmf_adapters_quiksy.Python.{Value}
use open_rmf_adapters_quiksy.Python.Runtime.{Runtime}
use open_rmf_adapters_quiksy.Fleet.Robot.{
  RmfPorts, RobotHandle, RobotScene, bind, to_rmf_robot_state, attempt_lazy_register, push_update,
  on_translated_state, on_state,
}

module _ {H : Type 0} where
  -- The frames that a handle has counted.
  abbrev pub counted : RobotHandle H → ℕ
  counted h = h.updates_pushed + h.updates_dropped_no_handle + h.registrations_rejected

  -- What no frame changes once the robot is registered.
  pub record StaysBound (rmf : H) (h k : RobotHandle H) : Type 0 where
    pub handle : k.rmf_handle ≡ some rmf
    pub dropped : k.updates_dropped_no_handle ≡ h.updates_dropped_no_handle
    pub rejected : k.registrations_rejected ≡ h.registrations_rejected

module _ {S T H : Type 0} (rt : Runtime) (io : RmfPorts S T H) where
  on_translated_state-StaysBound :
      (r : Result (Option T)) (s : RobotScene S H) (rmf : H)
      → s.handle.rmf_handle ≡ some rmf
      → StaysBound rmf s.handle (on_translated_state rt io r s).1.handle
  unfolding on_translated_state push_update
  on_translated_state-StaysBound (err e) s rmf h = record {
    handle = h;
    dropped = refl;
    rejected = refl;
  }
  on_translated_state-StaysBound (ok none) s rmf h = ground (arith, h)
  on_translated_state-StaysBound (ok (some t)) s rmf h = ground (arith, h)

  -- A registered robot keeps the update handle that it has, whatever the frame; nothing is counted as
  -- dropped or rejected any more.
  pub on_state-StaysBound :
      (v : Value) (s : RobotScene S H) (rmf : H)
      → s.handle.rmf_handle ≡ some rmf
      → StaysBound rmf s.handle (on_state rt io v s).1.handle
  unfolding on_state
  on_state-StaysBound v s rmf h =
      let seen = record s { handle = record (s.handle) { latest_state = some v } } in
      let i = on_translated_state-StaysBound (to_rmf_robot_state rt io v) seen rmf h in
      ground (arith, h, i.handle, i.dropped, i.rejected)

  on_translated_state-counted :
      (r : Result (Option T)) (s : RobotScene S H) {u : Unit {0}}
      → s.handle.rmf_handle ≡ none
      → (on_translated_state rt io r s).0 ≡ ok u
      → counted (on_translated_state rt io r s).1.handle ≡ counted s.handle + 1
  unfolding on_translated_state attempt_lazy_register bind
  on_translated_state-counted (err e) s n h = ground arith
  on_translated_state-counted (ok none) s n h = rw n (omega arith)
  on_translated_state-counted (ok (some t)) s n h = ground (arith, n)

  -- A frame of a robot that is not registered is counted exactly once, as pushed, dropped or
  -- rejected, if the call returns.
  pub on_state-counted :
      (v : Value) (s : RobotScene S H) {u : Unit {0}}
      → s.handle.rmf_handle ≡ none
      → (on_state rt io v s).0 ≡ ok u
      → counted (on_state rt io v s).1.handle ≡ counted s.handle + 1
  unfolding on_state
  on_state-counted v s n h =
      let seen = record s { handle = record (s.handle) { latest_state = some v } } in
      ground (arith, n, on_translated_state-counted (to_rmf_robot_state rt io v) seen n)
