-- ===== src/Lift/Node/Routing.antt =====
-- node.py of the lift adapter: what routing a message changes.
use open_rmf_adapters_quiksy.Base.{
  String, Bool, true, false, Option, none, some, List, [], ◌∷◌, ◌≡◌, ◌≢◌, ◌∙◌, sym, ap, refl, arith,
  inl, inr, Option-cases, str_eq_iff,
}
use open_rmf_adapters_quiksy.Base.Dict.{Dict, get, put, get-put}
use open_rmf_adapters_quiksy.Base.Exec.{Result, ok, err}
use open_rmf_adapters_quiksy.Python.{Value, null, str, getattr}
use open_rmf_adapters_quiksy.Python.Runtime.{Runtime}
use open_rmf_adapters_quiksy.Lift.Session.{SessionManager}
use open_rmf_adapters_quiksy.Lift.Session.Valid.{IsValid}
use open_rmf_adapters_quiksy.Lift.Session.Lock.{lock_of}
use open_rmf_adapters_quiksy.Lift.Handle.{
  LiftHandle, LiftPorts, LiftScene, DispatchInputs, dispatch_request,
}
use open_rmf_adapters_quiksy.Lift.Handle.Laws.{Accounts, dispatch_request-Accounts}
use open_rmf_adapters_quiksy.Lift.Handle.Frames.{dispatch_request-IsValid}
use open_rmf_adapters_quiksy.Lift.Handle.Isolation.{dispatch_request-others}
use open_rmf_adapters_quiksy.Lift.Node.{
  LiftNode, new_lift, lift_handles, new_lift_node, dispatch_to_lift, route_to_lift,
  route_named_lift, route_lift_request,
}

-- Each handle stands under its own name, and the session manager is well formed.
pub record IsLiftNode {S : Type 0} (n : LiftNode S) : Type 0 where
  pub keyed : (k : String) (h : LiftHandle) → get n.handles k ≡ some h → h.lift_name ≡ k
  pub manager : IsValid n.manager

-- Each handle stands under its own name.
abbrev IsKeyedLift : Dict LiftHandle → Type 0
IsKeyedLift handles = (k : String) (h : LiftHandle) → get handles k ≡ some h → h.lift_name ≡ k

lift_handles-IsKeyedLift :
    (names : List String) (namespace : Option String) (handles : Dict LiftHandle)
    → IsKeyedLift handles
    → IsKeyedLift (lift_handles names namespace handles)
unfolding lift_handles
lift_handles-IsKeyedLift [] namespace handles v = v
lift_handles-IsKeyedLift (name ∷ names) namespace handles v =
    lift_handles-IsKeyedLift names namespace (put handles name (new_lift name namespace)) λ k h e.
      grind (arith, get-put handles name k (new_lift name namespace), v k h, e, str_eq_iff name k)

-- A new node with a well-formed session manager is of that form.
pub new_lift_node-IsLiftNode :
    {S : Type 0} (names : List String) (namespace : Option String) (manager : SessionManager)
    (ports : S)
    → IsValid manager
    → IsLiftNode (new_lift_node names namespace manager ports)
unfolding new_lift_node get
new_lift_node-IsLiftNode names namespace manager ports v = record {
  keyed = lift_handles-IsKeyedLift names namespace [] (λ k h e. ground arith);
  manager = v;
}

Accounts-name :
    {S : Type 0} (s t : LiftScene S) (r : Result Bool)
    → Accounts s (r, t)
    → t.handle.lift_name ≡ s.handle.lift_name
Accounts-name s t (ok true) a = ap (λ h. h.lift_name) a
Accounts-name s t (ok false) (p, inl a) = ap (λ h. h.lift_name) a
Accounts-name s t (ok false) (p, inr a) = ap (λ h. h.lift_name) a
Accounts-name s t (err e) a = ap (λ h. h.lift_name) a

-- A message for the lift `name`, or for no lift that is named by a text, leaves a node of this form
-- and the locks of all other lifts.
pub record IsRoutedLift {S : Type 0} (name : Value) (n m : LiftNode S) : Type 0 where
  pub node : IsLiftNode m
  pub others :
      (other : String) → name ≢ str other → lock_of m.manager other ≡ lock_of n.manager other

module _ {S : Type 0} (rt : Runtime) (io : LiftPorts S) where
  dispatch_to_lift-IsRoutedLift :
      (name : String) (h : LiftHandle) (q : Value) (d : DispatchInputs) (n : LiftNode S)
      → IsLiftNode n
      → get n.handles name ≡ some h
      → IsRoutedLift (str name) n (dispatch_to_lift rt io name h q d n).1
  unfolding dispatch_to_lift
  dispatch_to_lift-IsRoutedLift name h q d n v e =
      let s : LiftScene S = record { handle = h; manager = n.manager; ports = n.ports } in
      let inputs : DispatchInputs = record d { execution_id = none } in
      let (r, t) = dispatch_request rt io q inputs s in
      let same = Accounts-name s t r (dispatch_request-Accounts rt io q inputs s) in
      record {
        node = record {
          keyed = λ k g found. grind (
            arith,
            get-put n.handles name k t.handle,
            v.keyed k g,
            v.keyed name h,
            same,
            e,
            found,
            str_eq_iff name k,
          );
          manager = dispatch_request-IsValid rt io q inputs s v.manager;
        };
        others = λ other ne.
            dispatch_request-others rt io other q inputs s v.manager
              (λ own. ne (ap (λ k. str k) (sym (v.keyed name h e) ∙ own)));
      }

  route_to_lift-IsRoutedLift :
      (name : String) (q : Value) (d : DispatchInputs) (n : LiftNode S)
      → IsLiftNode n
      → IsRoutedLift (str name) n (route_to_lift rt io name q d n).1
  unfolding route_to_lift
  route_to_lift-IsRoutedLift name q d n v = elim (Option-cases (get n.handles name)) [
    | inl e ↦ rw (e, route_to_lift) (record { node = v; others = λ other ne. refl })
    | inr (h, e) ↦ rw (e, route_to_lift) (dispatch_to_lift-IsRoutedLift name h q d n v e)
  ]

  route_named_lift-IsRoutedLift :
      (name q : Value) (d : DispatchInputs) (n : LiftNode S)
      → IsLiftNode n
      → IsRoutedLift name n (route_named_lift rt io name q d n).1
  unfolding route_named_lift
  route_named_lift-IsRoutedLift (str name) q d n v = route_to_lift-IsRoutedLift name q d n v
  route_named_lift-IsRoutedLift _ q d n v = record { node = v; others = λ other ne. refl }

  -- In a node with every handle under its own name and a well-formed session manager, whatever a
  -- message says, routing it keeps both, and moves no lock but that of the lift that the message
  -- names.
  pub route_lift_request-IsRoutedLift :
      (q : Value) (d : DispatchInputs) (n : LiftNode S)
      → IsLiftNode n
      → IsRoutedLift (getattr q "lift_name" null) n (route_lift_request rt io q d n).1
  unfolding route_lift_request
  route_lift_request-IsRoutedLift q d n v =
      route_named_lift-IsRoutedLift (getattr q "lift_name" null) q d n v
