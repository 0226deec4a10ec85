-- ===== src/Door/Handle/Laws.antt =====
-- door_handle.py: what one call of `dispatch_request` or `_on_state_frame` may do.
use open_rmf_adapters_quiksy.Base.{
  ◌+◌, String, Bool, true, false, Option, ◌≡◌, refl, arith, str_eq, if◌then◌else◌,
}
use open_rmf_adapters_quiksy.Base.Exec.{Result, ok, err, translation_error, is_ok}
use open_rmf_adapters_quiksy.Python.{Value}
use open_rmf_adapters_quiksy.Python.Runtime.{Runtime}
use open_rmf_adapters_quiksy.Lift.Request.{execution_id_or}
use open_rmf_adapters_quiksy.Door.Handle.{
  TranslatedDoorRequest, DoorPorts, DoorScene, DoorStateFields, translate_door_request,
  translate_door_state, reject_door, post_door, dispatch_door_translated, dispatch_door_request,
  publish_door, on_translated_door, on_door_frame,
}
use open_rmf_adapters_quiksy.Door.Handle.RoundTrip.{
  door_message_of, IsNamedDoor, translate_door_request-door_message_of,
}

-- What a call that began in `s` may have done, by how it ended.
abbrev pub DoorAccounts : {S : Type 0} → DoorScene S → Result Bool × DoorScene S → Type 0
DoorAccounts s (ok true, t) =
    t.handle ≡ record (s.handle) { requests_dispatched = s.handle.requests_dispatched + 1 }
DoorAccounts s (ok false, t) =
    (t.ports ≡ s.ports)
    × (t.handle ≡ record (s.handle) { requests_rejected = s.handle.requests_rejected + 1 })
DoorAccounts s (err e, t) = t.handle ≡ s.handle

module _ {S : Type 0} (rt : Runtime) (io : DoorPorts S) where
  dispatch_door_translated-DoorAccounts :
      (r : Result TranslatedDoorRequest) (s : DoorScene S)
      → DoorAccounts s (dispatch_door_translated rt io r s)
  unfolding dispatch_door_translated post_door
  dispatch_door_translated-DoorAccounts (err translation_error) s = (refl, refl)
  dispatch_door_translated-DoorAccounts (err e) s = refl
  dispatch_door_translated-DoorAccounts (ok t) s = ground arith

  -- Whatever the message, a call of the door's `dispatch_request` ends in one of three ways: True,
  -- with exactly the dispatch counter one higher; False, with nothing sent and exactly the rejection
  -- counter one higher; or an exception, with all counters as they were.
  pub dispatch_door_request-DoorAccounts :
      (q : Value) (id : Option String) (fresh : String) (s : DoorScene S)
      → DoorAccounts s (dispatch_door_request rt io q id fresh s)
  unfolding dispatch_door_request
  dispatch_door_request-DoorAccounts q id fresh s =
      dispatch_door_translated-DoorAccounts (translate_door_request rt q id fresh) s

  -- A well-formed message for this door is posted with its requester and mode, under the handle's
  -- namespace; one for another door is rejected.
  pub dispatch_door_request-door_message_of :
      (t : TranslatedDoorRequest) (id : Option String) (fresh : String) (s : DoorScene S)
      → IsNamedDoor t
      → dispatch_door_request rt io (door_message_of t) id fresh s ≡ (
          if str_eq t.door_name s.handle.door_name
          then post_door rt io (record t { execution_id = execution_id_or id fresh }) s
          else reject_door s)
  unfolding dispatch_door_request dispatch_door_translated
  dispatch_door_request-door_message_of t id fresh s h =
      simp (translate_door_request-door_message_of rt t id fresh h) (ground arith)

  -- What a frame that was translated to `r` leaves.
  abbrev pub FrameOutcome : DoorScene S → Result DoorStateFields → DoorScene S → Type 0
  FrameOutcome s (err e) t = t ≡ s
  FrameOutcome s (ok f) t =
      (t.ports ≡ (io.publish_state_fields f s.ports).1)
      × (t.handle ≡ (
          if is_ok (io.publish_state_fields f s.ports).0
          then record (s.handle) { state_dispatched = s.handle.state_dispatched + 1 }
          else s.handle))

  publish_door-FrameOutcome :
      (f : DoorStateFields) (s : DoorScene S) → FrameOutcome s (ok f) (publish_door rt io f s)
  unfolding publish_door
  publish_door-FrameOutcome f s = ground arith

  on_translated_door-FrameOutcome :
      (r : Result DoorStateFields) (s : DoorScene S)
      → FrameOutcome s r (on_translated_door rt io r s)
  unfolding on_translated_door
  on_translated_door-FrameOutcome (ok f) s = publish_door-FrameOutcome f s
  on_translated_door-FrameOutcome (err e) s = refl

  -- A frame that translates is published once, and counted exactly if the publisher returned; one
  -- that does not translate changes nothing.
  pub on_door_frame-FrameOutcome :
      (frame : Value) (s : DoorScene S)
      → FrameOutcome s (translate_door_state rt frame) (on_door_frame rt io frame s)
  unfolding on_door_frame
  on_door_frame-FrameOutcome frame s =
      on_translated_door-FrameOutcome (translate_door_state rt frame) s
