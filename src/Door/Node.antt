-- ===== src/Door/Node.antt =====
-- packages/door_adapter_quiksync/door_adapter_quiksync/node.py: the node that owns the doors.  Its
-- start and stop are in Lifecycle.
pub mod Routing
pub mod Lifecycle
mod Tests
use open_rmf_adapters_quiksy.Base.{
  ℕ, ◌+◌, String, Bool, true, false, Option, none, some, List, [], ◌∷◌, str_eq, if◌then◌else◌,
}
use open_rmf_adapters_quiksy.Base.Dict.{Dict, get, put}
use open_rmf_adapters_quiksy.Base.Exec.{Exn, Result, ok, err, type_error}
use open_rmf_adapters_quiksy.Python.{Value, null, str, list, dict, getattr}
use open_rmf_adapters_quiksy.Python.Runtime.{Runtime}
use open_rmf_adapters_quiksy.Door.Handle.{DoorHandle, DoorPorts, DoorScene, dispatch_door_request}

-- The node with the state of the client and of the publisher, which its handles share.
pub record DoorNode (S : Type 0) : Type 0 where
  pub handles : Dict DoorHandle
  pub ports : S

abbrev pub new_door : String → Option String → DoorHandle
new_door name namespace = record {
  door_name = name;
  namespace = namespace;
  state_dispatched = 0;
  requests_dispatched = 0;
  requests_rejected = 0;
}

-- the dict comprehension of `__init__`
unfoldable pub handles_for : List String → Option String → Dict DoorHandle → Dict DoorHandle
handles_for [] namespace handles = handles
handles_for (name ∷ names) namespace handles =
    handles_for names namespace (put handles name (new_door name namespace))

unfoldable pub new_node : {S : Type 0} → List String → Option String → S → DoorNode S
new_node names namespace ports = record { handles = handles_for names namespace []; ports = ports }

-- `*_total`: the sum of one counter over the handles
unfoldable pub total : (DoorHandle → ℕ) → Dict DoorHandle → ℕ
total count [] = 0
total count ((name, h) ∷ handles) = count h + total count handles

module _ {S : Type 0} (rt : Runtime) (io : DoorPorts S) where
  -- `handle.dispatch_request(ros_request)`, of the handle under that name
  unfoldable pub dispatch_to :
      String → DoorHandle → Value → String → DoorNode S → Result Bool × DoorNode S
  dispatch_to name h q fresh n =
      let (r, t) =
        dispatch_door_request rt io q none fresh (record { handle = h; ports = n.ports }) in
      (r, record { handles = put n.handles name (t.handle); ports = t.ports })

  unfoldable pub route_to : String → Value → String → DoorNode S → Result Bool × DoorNode S
  route_to name q fresh n = elim (get n.handles name) [
    | some h ↦ dispatch_to name h q fresh n
    | none ↦ (ok false, n)
  ]

  -- A name that is no text is no key of the handles, and a list or a dict cannot be looked up at all.
  unfoldable pub route_named : Value → Value → String → DoorNode S → Result Bool × DoorNode S
  route_named (str name) q fresh n = route_to name q fresh n
  route_named (list vs) q fresh n = (err type_error, n)
  route_named (dict fs) q fresh n = (err type_error, n)
  route_named _ q fresh n = (ok false, n)

  unfoldable pub route_request : Value → String → DoorNode S → Result Bool × DoorNode S
  route_request q fresh n = route_named (getattr q "door_name" null) q fresh n
