-- ===== src/Lift/Handle.antt =====
-- packages/lift_adapter_quiksync/lift_adapter_quiksync/lift_handle.py: the handle of one lift.  The
-- HTTP client and the ROS publisher are an interface over a state of their own.
pub mod Laws
pub mod Requests
pub mod Frames
pub mod Isolation
mod Tests
use open_rmf_adapters_quiksy.Base.{
  ℕ, ◌+◌, String, Bool, true, false, not, Option, none, some, str_eq, if◌then◌else◌,
}
use open_rmf_adapters_quiksy.Base.Int.{ℤ, pos, eq_ℤ}
use open_rmf_adapters_quiksy.Base.Exec.{Exn, Result, ok, err, translation_error, type_error}
use open_rmf_adapters_quiksy.Python.{
  Value, null, bool, int, float, str, list, dict, object, getattr, is_none,
}
use open_rmf_adapters_quiksy.Python.Runtime.{Runtime}
use open_rmf_adapters_quiksy.Lift.Session.{
  SessionManager, try_acquire, release, observe_server_state,
}
use open_rmf_adapters_quiksy.Lift.Request.{
  RequestType, end_session, agv_mode, human_mode, DoorGoal, TranslatedLiftRequest,
  request_no_request, as_int, translate_request,
}
use open_rmf_adapters_quiksy.Lift.State.{LiftFrame, LiftStateFields, translate_state}

-- The arguments of `post_lift_request`
pub record LiftPost : Type 0 where
  pub lift : String
  pub session_id : String
  pub request_type : RequestType
  pub destination_floor : String
  pub door_state : DoorGoal
  pub execution_id : String
  pub namespace : Option String

-- What the handle calls: the client and the publisher, over their own state `S`.
pub record LiftPorts (S : Type 0) : Type 0 where
  pub post_lift_request : LiftPost → S → Result Value × S
  pub publish_state_fields : LiftStateFields → S → Result (Unit {0}) × S

pub record LiftHandle : Type 0 where
  pub lift_name : String
  pub namespace : Option String
  pub state_dispatched : ℕ
  pub requests_dispatched : ℕ
  pub requests_rejected : ℕ

-- The handle with what it shares with the other handles.
pub record LiftScene (S : Type 0) : Type 0 where
  pub handle : LiftHandle
  pub manager : SessionManager
  pub ports : S

abbrev pub LiftAction : Type 0 → Type 0 → Type 0
LiftAction S A = LiftScene S → Result A × LiftScene S

-- What `dispatch_request` is given besides the request: the keyword argument, the identifier that
-- `uuid4` gives, and the readings of the clock.
pub record DispatchInputs : Type 0 where
  pub execution_id : Option String
  pub fresh : String
  pub now : ℕ
  pub later : ℕ

module _ {S : Type 0} where
  -- `self._requests_rejected += 1; return False`
  abbrev pub reject : LiftAction S Bool
  reject s = (
    ok false,
    record s { handle = record (s.handle) { requests_rejected = s.handle.requests_rejected + 1 } },
  )

  -- `self._requests_dispatched += 1; return True`
  abbrev pub count_dispatched : LiftAction S Bool
  count_dispatched s = (
    ok true,
    record s {
      handle = record (s.handle) { requests_dispatched = s.handle.requests_dispatched + 1 };
    },
  )

  -- END_SESSION and HUMAN_MODE release the lock after the POST.
  abbrev pub after_post : TranslatedLiftRequest → LiftScene S → LiftScene S
  after_post t s = elim t.request_type [
    | agv_mode ↦ s
    | _ ↦ record s { manager = (release s.manager s.handle.lift_name t.session_id).1 }
  ]

module _ {S : Type 0} (rt : Runtime) (io : LiftPorts S) where
  unfoldable pub post_translated : TranslatedLiftRequest → LiftAction S Bool
  post_translated t s =
      let (r, ports') =
        io.post_lift_request
          (record {
            lift = s.handle.lift_name;
            session_id = t.session_id;
            request_type = t.request_type;
            destination_floor = t.destination_floor;
            door_state = t.door_state;
            execution_id = t.execution_id;
            namespace = s.handle.namespace;
          })
          s.ports in
      elim r [
        | ok _ ↦ count_dispatched (after_post t (record s { ports = ports' }))
        | err e ↦ (err e, record s { ports = ports' })
      ]

  -- The session gate: only AGV_MODE takes the lock, before the POST.
  unfoldable pub gate : TranslatedLiftRequest → ℕ → ℕ → LiftAction S Bool
  gate t now later s = elim t.request_type [
    | agv_mode ↦
        (let (acquired, m) = try_acquire s.manager s.handle.lift_name t.session_id now later in
          if acquired
          then post_translated t (record s { manager = m })
          else reject (record s { manager = m }))
    | _ ↦ post_translated t s
  ]

  unfoldable pub dispatch_translated :
      Result TranslatedLiftRequest → DispatchInputs → LiftAction S Bool
  dispatch_translated (err translation_error) d s = reject s
  dispatch_translated (err e) d s = (err e, s)
  dispatch_translated (ok t) d s =
      if not (str_eq t.lift_name s.handle.lift_name) then reject s else gate t d.now d.later s

  -- What follows the first look at `request_type`.
  unfoldable pub dispatch_typed : Result ℤ → Value → DispatchInputs → LiftAction S Bool
  dispatch_typed (err translation_error) q d s = reject s
  dispatch_typed (err e) q d s = (err e, s)
  dispatch_typed (ok z) q d s =
      if eq_ℤ z request_no_request
      then (ok false, s)
      else dispatch_translated (translate_request rt q d.execution_id d.fresh) d s

  unfoldable pub dispatch_request : Value → DispatchInputs → LiftAction S Bool
  dispatch_request q d s =
      let raw = getattr q "request_type" null in
      if is_none raw
      then dispatch_translated (translate_request rt q d.execution_id d.fresh) d s
      else dispatch_typed (as_int rt raw) q d s

  unfoldable pub publish_fields : LiftStateFields → LiftScene S → LiftScene S
  publish_fields fields s =
      let (r, ports') = io.publish_state_fields fields s.ports in
      let t = record s { ports = ports' } in
      elim r [
        | ok _ ↦ record t {
          handle = record (s.handle) { state_dispatched = s.handle.state_dispatched + 1 };
        }
        | err e ↦ t
      ]

  -- The manager is told before the publisher.
  unfoldable pub sync_and_publish : String → LiftStateFields → ℕ → LiftScene S → LiftScene S
  sync_and_publish session_id fields now s =
      publish_fields fields
        (record s { manager = observe_server_state s.manager s.handle.lift_name session_id now })

  unfoldable pub on_translated : Result LiftStateFields → ℕ → LiftScene S → LiftScene S
  on_translated (err e) now s = s
  on_translated (ok fields) now s = sync_and_publish fields.session_id fields now s

  unfoldable pub on_state_frame : LiftFrame → ℕ → LiftScene S → LiftScene S
  on_state_frame frame now s = on_translated (translate_state rt frame) now s
