-- ===== src/Client/Http/Endpoints.antt =====
-- http.py: the endpoints.  Each method is a call of `_request_json` with one of these requests.
use Prim.Native.String.{◌++◌ as concat}
use mathlib.Core.Option
use open_rmf_adapters_quiksy.Base.{String, Option, none, some, [], ◌∷◌, is_empty, if◌then◌else◌}
use open_rmf_adapters_quiksy.Base.Int.{ℤ}
use open_rmf_adapters_quiksy.Base.Dict.{Dict}
use open_rmf_adapters_quiksy.Python.{Value, Float, Fields, str, int, float, dict, end, field}
use open_rmf_adapters_quiksy.Client.Net.{Request, get_method, post_method, delete_method}

-- `_ns_params`
unfoldable pub ns_params : Option String → Option (Dict String)
ns_params none = none
ns_params (some namespace) =
    if is_empty namespace then none else some (("namespace", namespace) ∷ [])

abbrev pub base_path : String
base_path = "/api/v1/connector/open-rmf/"

-- `body[key] = value` where the value is not None
abbrev pub optional : String → Option Value → Fields → Fields
optional key none rest = rest
optional key (some v) rest = field key v rest

abbrev pub getting : String → Option String → Request
getting path namespace = record {
  method = get_method;
  path = path;
  body = none;
  params = ns_params namespace;
}

abbrev pub posting : String → Fields → Option String → Request
posting path body namespace = record {
  method = post_method;
  path = path;
  body = some (dict body);
  params = ns_params namespace;
}

unfoldable pub get_discovery : Option String → Request
get_discovery namespace = getting (concat base_path "discovery") namespace

unfoldable pub get_building_map : Option String → Request
get_building_map namespace = getting (concat base_path "building_map") namespace

-- `f"{kind}/{name}/{rest}"` under the base path
abbrev pub resource : String → String → String → String
resource kind name rest =
    concat base_path (concat kind (concat "/" (concat name (concat "/" rest))))

abbrev pub robot_path : String → String → String → String
robot_path fleet robot rest =
    resource "fleets" fleet (concat "robots/" (concat robot (concat "/" rest)))

unfoldable pub get_fleet_state : String → Option String → Request
get_fleet_state fleet namespace = getting (resource "fleets" fleet "state") namespace

unfoldable pub post_navigate :
    (fleet robot execution_id : String) (destination : Value) (dock_name : Option String)
    (speed_limit : Option Float) (deadline_unix_millis : Option ℤ) (namespace : Option String)
    → Request
post_navigate fleet robot execution_id destination dock_name speed_limit deadline namespace =
    posting (robot_path fleet robot "navigate")
      (field "execution_id" (str execution_id) (
        field "destination" destination (
          optional "dock_name" (Option.map str dock_name) (
            optional "speed_limit" (Option.map float speed_limit)
              (optional "deadline_unix_millis" (Option.map int deadline) end)))))
      namespace

unfoldable pub post_stop : (fleet robot execution_id : String) (namespace : Option String) → Request
post_stop fleet robot execution_id namespace =
    posting (robot_path fleet robot "stop") (field "execution_id" (str execution_id) end) namespace

unfoldable pub post_perform_action :
    (fleet robot execution_id category : String) (description : Value)
    (deadline_unix_millis : Option ℤ) (namespace : Option String)
    → Request
post_perform_action fleet robot execution_id category description deadline namespace =
    posting (robot_path fleet robot "perform_action")
      (field "execution_id" (str execution_id) (
        field "category" (str category) (
          field "description" description
            (optional "deadline_unix_millis" (Option.map int deadline) end))))
      namespace

unfoldable pub get_task_state : String → Request
get_task_state task_id = getting (resource "tasks" task_id "state") none

unfoldable pub get_door_state : String → Option String → Request
get_door_state door namespace = getting (resource "doors" door "state") namespace

unfoldable pub post_door_request :
    (door requester_id requested_mode execution_id : String) (namespace : Option String) → Request
post_door_request door requester_id requested_mode execution_id namespace =
    posting (resource "doors" door "request")
      (field "requester_id" (str requester_id)
        (field "requested_mode" (str requested_mode) (field "execution_id" (str execution_id) end)))
      namespace

unfoldable pub get_lift_state : String → Option String → Request
get_lift_state lift namespace = getting (resource "lifts" lift "state") namespace

unfoldable pub post_lift_request :
    (lift session_id request_type destination_floor door_state execution_id : String)
    (namespace : Option String)
    → Request
post_lift_request lift session_id request_type destination_floor door_state execution_id namespace =
    posting (resource "lifts" lift "request")
      (field "session_id" (str session_id) (
        field "request_type" (str request_type) (
          field "destination_floor" (str destination_floor)
            (field "door_state" (str door_state) (field "execution_id" (str execution_id) end)))))
      namespace

unfoldable pub delete_lift_session : String → Option String → Request
delete_lift_session lift namespace = record {
  method = delete_method;
  path = resource "lifts" lift "session";
  body = none;
  params = ns_params namespace;
}
