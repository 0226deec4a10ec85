-- ===== src/Lift/Node.antt =====
-- packages/lift_adapter_quiksync/lift_adapter_quiksync/node.py: the node that owns the lifts.  The
-- asyncio thread and the pumps it starts and stops are left out.
pub mod Routing
mod Tests
use open_rmf_adapters_quiksy.Base.{
  ℕ, ◌+◌, String, Bool, true, false, Option, none, some, List, [], ◌∷◌,
}
use open_rmf_adapters_quiksy.Base.Int.{ℤ}
use open_rmf_adapters_quiksy.Base.Dict.{Dict, get, put}
use open_rmf_adapters_quiksy.Base.Exec.{Exn, Result, ok, err, type_error}
use open_rmf_adapters_quiksy.Python.{Value, null, str, list, dict, getattr}
use open_rmf_adapters_quiksy.Python.Runtime.{Runtime}
use open_rmf_adapters_quiksy.Lift.Session.{SessionManager, new}
use open_rmf_adapters_quiksy.Lift.Handle.{
  LiftHandle, LiftPorts, LiftScene, DispatchInputs, dispatch_request,
}

-- The node with the session manager and with the state of the client and of the publisher, which its
-- handles share.
pub record LiftNode (S : Type 0) : Type 0 where
  pub handles : Dict LiftHandle
  pub manager : SessionManager
  pub ports : S

abbrev pub new_lift : String → Option String → LiftHandle
new_lift name namespace = record {
  lift_name = name;
  namespace = namespace;
  state_dispatched = 0;
  requests_dispatched = 0;
  requests_rejected = 0;
}

-- the dict comprehension of `__init__`
unfoldable pub lift_handles : List String → Option String → Dict LiftHandle → Dict LiftHandle
lift_handles [] namespace handles = handles
lift_handles (name ∷ names) namespace handles =
    lift_handles names namespace (put handles name (new_lift name namespace))

unfoldable pub new_lift_node :
    {S : Type 0} → List String → Option String → SessionManager → S → LiftNode S
new_lift_node names namespace manager ports = record {
  handles = lift_handles names namespace [];
  manager = manager;
  ports = ports;
}

-- `*_total`: the sum of one counter over the handles
unfoldable pub lift_total : (LiftHandle → ℕ) → Dict LiftHandle → ℕ
lift_total count [] = 0
lift_total count ((name, h) ∷ handles) = count h + lift_total count handles

module _ {S : Type 0} (rt : Runtime) (io : LiftPorts S) where
  -- `handle.dispatch_request(ros_request)`, of the handle under that name
  unfoldable pub dispatch_to_lift :
      String → LiftHandle → Value → DispatchInputs → LiftNode S → Result Bool × LiftNode S
  dispatch_to_lift name h q d n =
      let (r, t) =
        dispatch_request rt io q (record d { execution_id = none })
          (record { handle = h; manager = n.manager; ports = n.ports }) in
      (r, record { handles = put n.handles name (t.handle); manager = t.manager; ports = t.ports })

  unfoldable pub route_to_lift :
      String → Value → DispatchInputs → LiftNode S → Result Bool × LiftNode S
  route_to_lift name q d n = elim (get n.handles name) [
    | some h ↦ dispatch_to_lift name h q d n
    | none ↦ (ok false, n)
  ]

  -- A name that is no text is no key of the handles, and a list or a dict cannot be looked up at all.
  unfoldable pub route_named_lift :
      Value → Value → DispatchInputs → LiftNode S → Result Bool × LiftNode S
  route_named_lift (str name) q d n = route_to_lift name q d n
  route_named_lift (list vs) q d n = (err type_error, n)
  route_named_lift (dict fs) q d n = (err type_error, n)
  route_named_lift _ q d n = (ok false, n)

  unfoldable pub route_lift_request : Value → DispatchInputs → LiftNode S → Result Bool × LiftNode S
  route_lift_request q d n = route_named_lift (getattr q "lift_name" null) q d n
