-- ===== src/Door/Handle.antt =====
-- door_handle.py: the handle of one door.  The HTTP client and the ROS publisher are an interface
-- over a state of their own.
pub mod Laws
pub mod RoundTrip
mod Tests
use open_rmf_adapters_quiksy.Base.{
  ℕ, ◌+◌, String, Bool, true, false, not, Option, none, some, is_empty, str_eq, if◌then◌else◌,
}
use open_rmf_adapters_quiksy.Base.Int.{ℤ, pos}
use open_rmf_adapters_quiksy.Base.Exec.{
  Exn, Result, ok, err, translation_error, ◌>>=◌, ◌>>◌, raise_if,
}
use open_rmf_adapters_quiksy.Python.{Value, null, getattr, item, is_none, eq_number}
use open_rmf_adapters_quiksy.Python.Runtime.{Runtime, to_str, to_int}
use open_rmf_adapters_quiksy.Client.TimeConv.{Time, millis_to_time_parts}
use open_rmf_adapters_quiksy.Lift.Request.{execution_id_or}

-- The wire names "OPEN" and "CLOSED"
pub data DoorMode : Type 0 where
  door_open door_closed : DoorMode

pub record TranslatedDoorRequest : Type 0 where
  pub door_name : String
  pub requester_id : String
  pub requested_mode : DoorMode
  pub execution_id : String

pub record DoorStateFields : Type 0 where
  pub door_name : Value
  pub door_time : Time
  pub current_mode : ℤ

-- The arguments of `post_door_request`
pub record DoorPost : Type 0 where
  pub door : String
  pub requester_id : String
  pub requested_mode : DoorMode
  pub execution_id : String
  pub namespace : Option String

pub record DoorPorts (S : Type 0) : Type 0 where
  pub post_door_request : DoorPost → S → Result Value × S
  pub publish_state_fields : DoorStateFields → S → Result (Unit {0}) × S

pub record DoorHandle : Type 0 where
  pub door_name : String
  pub namespace : Option String
  pub state_dispatched : ℕ
  pub requests_dispatched : ℕ
  pub requests_rejected : ℕ

pub record DoorScene (S : Type 0) : Type 0 where
  pub handle : DoorHandle
  pub ports : S

-- The numbers of rmf_door_msgs/DoorMode; the comparison is Python's `==`.
unfoldable pub door_mode_of : Value → Result DoorMode
door_mode_of v =
    if eq_number v 2
    then ok door_open
    else if eq_number v 0
    then ok door_closed
    else err translation_error

module _ (rt : Runtime) where
  -- `_require_str` of door_handle.py
  unfoldable pub require_text : Value → Result String
  require_text v =
      if is_none v
      then err translation_error
      else if is_empty (to_str rt v)
      then err translation_error
      else ok (to_str rt v)

  -- `_translate_request`; `fresh` is what `uuid4` gives
  unfoldable pub translate_door_request :
      Value → Option String → String → Result TranslatedDoorRequest
  translate_door_request q execution_id fresh = do
    door_name ← require_text (getattr q "door_name" null)
    requester_id ← require_text (getattr q "requester_id" null)
    raise_if (is_none (getattr q "requested_mode" null)) translation_error
    raise_if (is_none (getattr (getattr q "requested_mode" null) "value" null)) translation_error
    mode ← door_mode_of (getattr (getattr q "requested_mode" null) "value" null)
    ok (record {
      door_name = door_name;
      requester_id = requester_id;
      requested_mode = mode;
      execution_id = execution_id_or execution_id fresh;
    })

  -- `translate_state`
  unfoldable pub translate_door_state : Value → Result DoorStateFields
  translate_door_state frame = do
    door_time_ms ← item frame "door_time"
    door_time ← millis_to_time_parts door_time_ms
    mode ← item frame "current_mode"
    raw ← item mode "value"
    mode_value ← to_int rt raw
    door_name ← item frame "door_name"
    ok (record { door_name = door_name; door_time = door_time; current_mode = mode_value })

module _ {S : Type 0} where
  abbrev pub reject_door : DoorScene S → Result Bool × DoorScene S
  reject_door s = (
    ok false,
    record s { handle = record (s.handle) { requests_rejected = s.handle.requests_rejected + 1 } },
  )

  abbrev pub count_door : DoorScene S → Result Bool × DoorScene S
  count_door s = (
    ok true,
    record s {
      handle = record (s.handle) { requests_dispatched = s.handle.requests_dispatched + 1 };
    },
  )

module _ {S : Type 0} (rt : Runtime) (io : DoorPorts S) where
  unfoldable pub post_door : TranslatedDoorRequest → DoorScene S → Result Bool × DoorScene S
  post_door t s =
      let (r, ports') =
        io.post_door_request
          (record {
            door = s.handle.door_name;
            requester_id = t.requester_id;
            requested_mode = t.requested_mode;
            execution_id = t.execution_id;
            namespace = s.handle.namespace;
          })
          s.ports in
      elim r [
        | ok _ ↦ count_door (record s { ports = ports' })
        | err e ↦ (err e, record s { ports = ports' })
      ]

  unfoldable pub dispatch_door_translated :
      Result TranslatedDoorRequest → DoorScene S → Result Bool × DoorScene S
  dispatch_door_translated (err translation_error) s = reject_door s
  dispatch_door_translated (err e) s = (err e, s)
  dispatch_door_translated (ok t) s =
      if not (str_eq t.door_name s.handle.door_name) then reject_door s else post_door t s

  unfoldable pub dispatch_door_request :
      Value → Option String → String → DoorScene S → Result Bool × DoorScene S
  dispatch_door_request q execution_id fresh s =
      dispatch_door_translated (translate_door_request rt q execution_id fresh) s

  unfoldable pub publish_door : DoorStateFields → DoorScene S → DoorScene S
  publish_door fields s =
      let (r, ports') = io.publish_state_fields fields s.ports in
      let t = record s { ports = ports' } in
      elim r [
        | ok _ ↦ record t {
          handle = record (s.handle) { state_dispatched = s.handle.state_dispatched + 1 };
        }
        | err e ↦ t
      ]

  unfoldable pub on_translated_door : Result DoorStateFields → DoorScene S → DoorScene S
  on_translated_door (ok fields) s = publish_door fields s
  on_translated_door (err e) s = s

  -- `_on_state_frame`
  unfoldable pub on_door_frame : Value → DoorScene S → DoorScene S
  on_door_frame frame s = on_translated_door (translate_door_state rt frame) s
