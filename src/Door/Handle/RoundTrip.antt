-- ===== src/Door/Handle/RoundTrip.antt =====
-- door_handle.py: a well-formed ROS message is translated to exactly its fields.
use open_rmf_adapters_quiksy.Base.{ℕ, String, false, Option, ◌≡◌, refl, arith, is_empty, str_eq}
use open_rmf_adapters_quiksy.Base.Int.{pos}
use open_rmf_adapters_quiksy.Base.Exec.{Result, ok, err}
use open_rmf_adapters_quiksy.Python.{
  Value, null, int, str, object, end, field, getattr, find, eq_number,
}
use open_rmf_adapters_quiksy.Python.Runtime.{Runtime, to_str}
use open_rmf_adapters_quiksy.Lift.Request.{execution_id_or}
use open_rmf_adapters_quiksy.Door.Handle.{
  DoorMode, door_open, door_closed, TranslatedDoorRequest, door_mode_of, require_text,
  translate_door_request,
}

abbrev pub mode_number : DoorMode → ℕ
mode_number door_open = 2
mode_number door_closed = 0

-- A rmf_door_msgs/DoorRequest with these fields
abbrev pub door_message : String → String → ℕ → Value
door_message door requester mode = object (
    field "door_name" (str door) (
      field "requester_id" (str requester)
        (field "requested_mode" (object (field "value" (int (pos mode)) end)) end)))

abbrev pub door_message_of : TranslatedDoorRequest → Value
door_message_of t = door_message t.door_name t.requester_id (mode_number t.requested_mode)

pub record IsNamedDoor (t : TranslatedDoorRequest) : Type 0 where
  pub door : is_empty t.door_name ≡ false
  pub requester : is_empty t.requester_id ≡ false

abbrev HasDoorText : Result String → Type 0
HasDoorText (ok s) = is_empty s ≡ false
HasDoorText (err e) = Unit

module _ (rt : Runtime) where
  require_text_text : (s : String) → is_empty s ≡ false → require_text rt (str s) ≡ ok s
  unfolding require_text to_str
  require_text_text s h = ground arith

  require_text-HasDoorText : (v : Value) → HasDoorText (require_text rt v)
  unfolding require_text
  require_text-HasDoorText v = ground arith

  module _ (door requester : String) (mode : ℕ) where
    pub door_at : getattr (door_message door requester mode) "door_name" null ≡ str door
    unfolding getattr find str_eq
    door_at = refl

    requester_at : getattr (door_message door requester mode) "requester_id" null ≡ str requester
    unfolding getattr find str_eq
    requester_at = refl

    mode_at :
        getattr (door_message door requester mode) "requested_mode" null
        ≡ object (field "value" (int (pos mode)) end)
    unfolding getattr find str_eq
    mode_at = refl

  value_at :
      (mode : ℕ)
      → getattr (object (field "value" (int (pos mode)) end)) "value" null ≡ int (pos mode)
  unfolding getattr find str_eq
  value_at mode = refl

  door_mode_of_number : (m : DoorMode) → door_mode_of (int (pos (mode_number m))) ≡ ok m
  unfolding door_mode_of eq_number
  door_mode_of_number door_open = refl
  door_mode_of_number door_closed = refl

  -- The ROS message of a request with non-empty names is translated back to that request, with the
  -- given execution identifier or a fresh one.
  pub translate_door_request-door_message_of :
      (t : TranslatedDoorRequest) (id : Option String) (fresh : String)
      → IsNamedDoor t
      → translate_door_request rt (door_message_of t) id fresh
        ≡ ok (record t { execution_id = execution_id_or id fresh })
  unfolding translate_door_request
  translate_door_request-door_message_of t id fresh h = simp (
    door_at,
    requester_at,
    mode_at,
    value_at,
    door_mode_of_number,
    require_text_text t.door_name h.door,
    require_text_text t.requester_id h.requester,
  )

  -- Whatever the message, a translated request has non-empty names.
  pub translate_door_request-IsNamedDoor :
      (q : Value) (id : Option String) (fresh : String) {t : TranslatedDoorRequest}
      → translate_door_request rt q id fresh ≡ ok t
      → IsNamedDoor t
  unfolding translate_door_request
  translate_door_request-IsNamedDoor q id fresh h = ground (
    arith,
    require_text-HasDoorText (getattr q "door_name" null),
    require_text-HasDoorText (getattr q "requester_id" null),
  )
