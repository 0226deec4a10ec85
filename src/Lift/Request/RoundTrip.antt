-- ===== src/Lift/Request/RoundTrip.antt =====
-- lift_handle.py: a well-formed ROS message is translated to exactly its fields, and what is
-- translated is well formed.
use open_rmf_adapters_quiksy.Base.{ℕ, String, false, Option, ◌≡◌, refl, arith, is_empty, str_eq}
use open_rmf_adapters_quiksy.Base.Int.{ℤ, pos}
use open_rmf_adapters_quiksy.Base.Exec.{Result, ok, err}
use open_rmf_adapters_quiksy.Python.{Value, null, int, str, object, end, field, getattr, find}
use open_rmf_adapters_quiksy.Python.Runtime.{Runtime, to_str, to_int}
use open_rmf_adapters_quiksy.Lift.Request.{
  RequestType, end_session, agv_mode, human_mode, DoorGoal, open_door, closed_door,
  TranslatedLiftRequest, request_type_of, door_goal_of, execution_id_or, require_str, as_int,
  translate_request,
}

-- The constants of rmf_lift_msgs/LiftRequest
abbrev pub type_number : RequestType → ℕ
type_number end_session = 1
type_number agv_mode = 2
type_number human_mode = 3

abbrev pub door_number : DoorGoal → ℕ
door_number open_door = 2
door_number closed_door = 0

-- A rmf_lift_msgs/LiftRequest with these fields
abbrev pub message : (lift session floor : String) → ℕ → ℕ → Value
message lift session floor type door = object (
    field "lift_name" (str lift) (
      field "session_id" (str session) (
        field "destination_floor" (str floor)
          (field "request_type" (int (pos type)) (field "door_state" (int (pos door)) end)))))

abbrev pub message_of : TranslatedLiftRequest → Value
message_of t =
    message t.lift_name t.session_id t.destination_floor (type_number t.request_type)
      (door_number t.door_state)

pub record IsNamed (t : TranslatedLiftRequest) : Type 0 where
  pub lift : is_empty t.lift_name ≡ false
  pub session : is_empty t.session_id ≡ false
  pub floor : is_empty t.destination_floor ≡ false

-- A result, if there is one, is not empty.
abbrev HasText : Result String → Type 0
HasText (ok s) = is_empty s ≡ false
HasText (err e) = Unit

module _ (rt : Runtime) where
  require_str_text : (s : String) → is_empty s ≡ false → require_str rt (str s) ≡ ok s
  unfolding require_str to_str
  require_str_text s h = ground arith

  require_str-HasText : (v : Value) → HasText (require_str rt v)
  unfolding require_str
  require_str-HasText v = ground arith

  module _ (lift session floor : String) (type door : ℕ) where
    attr_lift : getattr (message lift session floor type door) "lift_name" null ≡ str lift
    unfolding getattr find str_eq
    attr_lift = refl

    attr_session : getattr (message lift session floor type door) "session_id" null ≡ str session
    unfolding getattr find str_eq
    attr_session = refl

    attr_floor : getattr (message lift session floor type door) "destination_floor" null ≡ str floor
    unfolding getattr find str_eq
    attr_floor = refl

    pub attr_type :
        getattr (message lift session floor type door) "request_type" null ≡ int (pos type)
    unfolding getattr find str_eq
    attr_type = refl

    attr_door : getattr (message lift session floor type door) "door_state" null ≡ int (pos door)
    unfolding getattr find str_eq
    attr_door = refl

  request_type_of_number : (t : RequestType) → request_type_of (pos (type_number t)) ≡ ok t
  unfolding request_type_of
  request_type_of_number end_session = refl
  request_type_of_number agv_mode = refl
  request_type_of_number human_mode = refl

  door_goal_of_number : (g : DoorGoal) → door_goal_of (pos (door_number g)) ≡ ok g
  unfolding door_goal_of
  door_goal_of_number open_door = refl
  door_goal_of_number closed_door = refl

  pub as_int_int : (z : ℤ) → as_int rt (int z) ≡ ok z
  unfolding as_int to_int
  as_int_int z = refl

  getattr_int : (z : ℤ) (name : String) (v : Value) → getattr (int z) name v ≡ v
  unfolding getattr
  getattr_int z name v = refl

  -- The ROS message of a request with non-empty names is translated back to that request, with the
  -- given execution identifier or a fresh one.
  pub translate_request-message_of :
      (t : TranslatedLiftRequest) (id : Option String) (fresh : String)
      → IsNamed t
      → translate_request rt (message_of t) id fresh
        ≡ ok (record t { execution_id = execution_id_or id fresh })
  unfolding translate_request
  translate_request-message_of t id fresh h = simp (
    attr_lift,
    attr_session,
    attr_floor,
    attr_type,
    attr_door,
    getattr_int,
    as_int_int,
    request_type_of_number,
    door_goal_of_number,
    require_str_text t.lift_name h.lift,
    require_str_text t.session_id h.session,
    require_str_text t.destination_floor h.floor,
  )

  -- Whatever the message, a translated request has non-empty names.
  pub translate_request-IsNamed :
      (q : Value) (id : Option String) (fresh : String) {t : TranslatedLiftRequest}
      → translate_request rt q id fresh ≡ ok t
      → IsNamed t
  unfolding translate_request
  translate_request-IsNamed q id fresh h = ground (
    arith,
    require_str-HasText (getattr q "lift_name" null),
    require_str-HasText (getattr q "session_id" null),
    require_str-HasText (getattr q "destination_floor" null),
  )
