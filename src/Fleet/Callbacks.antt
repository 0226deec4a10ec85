-- ===== src/Fleet/Callbacks.antt =====
-- packages/fleet_adapter_quiksync/fleet_adapter_quiksync/callbacks.py: what Open-RMF calls to move a
-- robot.  The HTTP client is an interface over a state of its own; the log calls are not modelled.
pub mod Laws
mod Tests
use open_rmf_adapters_quiksy.Base.{
  ℕ, zero, suc, String, Bool, true, false, not, ◌&&◌, Option, none, some, if◌then◌else◌, is_empty,
  leb,
}
use open_rmf_adapters_quiksy.Base.Int.{ℤ, pos, negsuc, ltb_ℤ}
use open_rmf_adapters_quiksy.Base.Exec.{
  Exn, Result, ok, err, ◌>>=◌, attribute_error, index_error, key_error, type_error, value_error,
  client_error, server_error, connection_error,
}
use open_rmf_adapters_quiksy.Python.{
  Value, Items, Float, finite, infinite, nan, nil, cons, null, bool, int, float, str, list, dict,
  object, characters, getattr, hasattr,
}
use open_rmf_adapters_quiksy.Python.Runtime.{Runtime, to_float}
use open_rmf_adapters_quiksy.Fleet.Robot.{RobotHandle, set_current_activity}

-- The dict `{"x", "y", "yaw", "map_name"}`
pub record Destination : Type 0 where
  pub x : Float
  pub y : Float
  pub yaw : Float
  pub map_name : String

-- `v[i]` for a number; the keys of a dict are texts here
unfoldable pub at_index : Items → ℕ → Result Value
at_index nil i = err index_error
at_index (cons v vs) zero = ok v
at_index (cons v vs) (suc i) = at_index vs i

abbrev pub index : Value → ℕ → Result Value
index (list vs) i = at_index vs i
index (str s) i = at_index (characters s) i
index (dict fs) i = err key_error
index _ i = err type_error

-- The `except` clauses: around the third coordinate, and around all of the translation.
abbrev pub yaw_or_zero : Result Float → Result Float
yaw_or_zero (err index_error) = ok (finite (pos 0) 0)
yaw_or_zero (err type_error) = ok (finite (pos 0) 0)
yaw_or_zero r = r

abbrev pub unusable : Result Destination → Result (Option Destination)
unusable (ok d) = ok (some d)
unusable (err attribute_error) = ok none
unusable (err index_error) = ok none
unusable (err type_error) = ok none
unusable (err value_error) = ok none
unusable (err e) = err e

module _ (rt : Runtime) where
  -- `float(getattr(position, name) if hasattr(position, name) else position[i])`
  unfoldable pub coordinate : Value → String → ℕ → Result Float
  coordinate position name i =
      if hasattr position name
      then to_float rt (getattr position name null)
      else index position i >>= to_float rt

  unfoldable pub yaw_of : Value → Result Float
  yaw_of position =
      if hasattr position "yaw"
      then to_float rt (getattr position "yaw" null)
      else yaw_or_zero (index position 2 >>= to_float rt)

  unfoldable pub destination_at : String → Value → Result Destination
  destination_at map_name position = do
    x ← coordinate position "x" 0
    y ← coordinate position "y" 1
    yaw ← yaw_of position
    ok (record { x = x; y = y; yaw = yaw; map_name = map_name })

  unfoldable pub with_position : String → Value → Result (Option Destination)
  with_position map_name null = ok none
  with_position map_name position = unusable (destination_at map_name position)

  -- `_extract_destination`
  unfoldable pub extract_destination : Value → Result (Option Destination)
  extract_destination destination = elim (getattr destination "map" null) [
    | str map_name ↦
        if is_empty map_name
        then ok none
        else with_position map_name (getattr destination "position" null)
    | _ ↦ ok none
  ]

-- `_dock_name`
unfoldable pub dock_name : Value → Option String
dock_name destination = elim (getattr destination "dock" null) [
  | str dock ↦ if is_empty dock then none else some dock
  | _ ↦ none
]

-- `limit > 0`, of a number
unfoldable pub is_positive : Value → Bool
is_positive (bool b) = b
is_positive (int z) = ltb_ℤ (pos 0) z
is_positive (float (finite m e)) = ltb_ℤ (pos 0) m
is_positive (float (infinite negative)) = not negative
is_positive _ = false

-- `_speed_limit`
unfoldable pub speed_limit : Runtime → Value → Result (Option Float)
speed_limit rt destination =
    let limit = getattr destination "speed_limit" null in
    if is_positive limit then (to_float rt limit >>= λ x. ok (some x)) else ok none

-- `_activity_identifier`
unfoldable pub activity_identifier : Value → Value
activity_identifier execution = elim (getattr execution "identifier" null) [
  | null ↦ (elim (getattr execution "activity" null) [
    | null ↦ getattr execution "activity_identifier" null
    | found ↦ found
  ])
  | found ↦ found
]

-- What the callbacks call.  The fleet and the namespace, which each callback hands on as they were
-- given when it was made, are part of the ports; the robot is the one that its handle names.
pub record CommandPorts (S : Type 0) : Type 0 where
  pub post_navigate :
      String → String → Destination → Option String → Option Float → S → Result Value × S
  pub post_stop : String → String → S → Result Value × S
  pub post_perform_action : String → String → String → Value → S → Result Value × S

pub record CommandScene (S H : Type 0) : Type 0 where
  pub handle : RobotHandle H
  pub world : S

-- `except QuikSyncClientError` and `except (QuikSyncServerError, QuikSyncConnectionError)`
abbrev pub is_logged : Exn → Bool
is_logged (client_error status code) = true
is_logged (server_error status) = true
is_logged connection_error = true
is_logged _ = false

module _ {S H : Type 0} where
  -- The three `except` clauses and what follows a call that returns.
  unfoldable pub after_post :
      (RobotHandle H → RobotHandle H)
      → Result Value × S
      → RobotHandle H
      → Result (Unit {0}) × CommandScene S H
  after_post then_do (ok response, world') h =
      (ok tt, record { handle = then_do h; world = world' })
  after_post then_do (err e, world') h =
      (if is_logged e then ok tt else err e, record { handle = h; world = world' })

module _ {S H : Type 0} (rt : Runtime) (io : CommandPorts S) where
  -- The keyword arguments of `post_navigate` are evaluated in the `try`, which catches none of their
  -- exceptions.
  unfoldable pub navigate_to :
      Option Destination
      → Value
      → Value
      → String
      → CommandScene S H
      → Result (Unit {0}) × CommandScene S H
  navigate_to none destination execution execution_id s = (ok tt, s)
  navigate_to (some body) destination execution execution_id s = elim (speed_limit rt destination) [
    | ok limit ↦
        after_post (set_current_activity (activity_identifier execution))
          (io.post_navigate s.handle.robot_name execution_id body (dock_name destination) limit
            s.world)
          s.handle
    | err e ↦ (err e, s)
  ]

  unfoldable pub navigate :
      Value → Value → String → CommandScene S H → Result (Unit {0}) × CommandScene S H
  navigate destination execution execution_id s = elim (extract_destination rt destination) [
    | ok body ↦ navigate_to body destination execution execution_id s
    | err e ↦ (err e, s)
  ]

  unfoldable pub stop : String → CommandScene S H → Result (Unit {0}) × CommandScene S H
  stop execution_id s =
      after_post (λ h. h) (io.post_stop s.handle.robot_name execution_id s.world) s.handle

  unfoldable pub action_executor :
      String → Value → Value → String → CommandScene S H → Result (Unit {0}) × CommandScene S H
  action_executor category description execution execution_id s =
      after_post (set_current_activity (activity_identifier execution))
        (io.post_perform_action s.handle.robot_name execution_id category description s.world)
        s.handle
