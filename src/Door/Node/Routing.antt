-- ===== src/Door/Node/Routing.antt =====
-- node.py: the handles under their names, and what routing a message changes.
use open_rmf_adapters_quiksy.Base.{
  Option-cases, inl, inr, ℕ, ◌+◌, String, Bool, true, false, Option, none, some, List, [], ◌∷◌, ◌≡◌,
  ◌∙◌, ap, refl, arith, str_eq_iff,
}
use open_rmf_adapters_quiksy.Base.Dict.{Dict, get, put, get-put}
use open_rmf_adapters_quiksy.Base.Exec.{Result, ok, err}
use open_rmf_adapters_quiksy.Python.{Value, null, str, getattr}
use open_rmf_adapters_quiksy.Python.Runtime.{Runtime}
use open_rmf_adapters_quiksy.Door.Handle.{
  DoorHandle, DoorPorts, DoorScene, TranslatedDoorRequest, dispatch_door_request, post_door,
}
use open_rmf_adapters_quiksy.Door.Handle.Laws.{
  DoorAccounts, dispatch_door_request-DoorAccounts, dispatch_door_request-door_message_of,
}
use open_rmf_adapters_quiksy.Door.Handle.RoundTrip.{
  door_message_of, mode_number, door_at, IsNamedDoor,
}
use open_rmf_adapters_quiksy.Door.Node.{
  DoorNode, new_door, handles_for, new_node, total, dispatch_to, route_to, route_named,
  route_request,
}

-- Each handle stands under its own name.
abbrev pub IsKeyed : Dict DoorHandle → Type 0
IsKeyed handles = (k : String) (h : DoorHandle) → get handles k ≡ some h → h.door_name ≡ k

put-IsKeyed :
    (handles : Dict DoorHandle) (name : String) (h : DoorHandle)
    → IsKeyed handles
    → h.door_name ≡ name
    → IsKeyed (put handles name h)
put-IsKeyed handles name h v e k g q =
    grind (arith, get-put handles name k h, v k g, str_eq_iff name k)

handles_for-IsKeyed :
    (names : List String) (namespace : Option String) (handles : Dict DoorHandle)
    → IsKeyed handles
    → IsKeyed (handles_for names namespace handles)
unfolding handles_for
handles_for-IsKeyed [] namespace handles v = v
handles_for-IsKeyed (name ∷ names) namespace handles v =
    handles_for-IsKeyed names namespace (put handles name (new_door name namespace))
      (put-IsKeyed handles name (new_door name namespace) v refl)

-- A new node has each handle under its own name, also where a name is given twice.
pub new_node-IsKeyed :
    {S : Type 0} (names : List String) (namespace : Option String) (ports : S)
    → IsKeyed (new_node names namespace ports).handles
unfolding new_node get
new_node-IsKeyed names namespace ports =
    handles_for-IsKeyed names namespace [] (λ k h e. ground arith)

module _ (count : DoorHandle → ℕ) where
  total-put :
      (handles : Dict DoorHandle) (k : String) (old h : DoorHandle)
      → get handles k ≡ some old
      → total count (put handles k h) + count old ≡ total count handles + count h
  unfolding total put get
  total-put [] k old h e = ground arith
  total-put ((j, w) ∷ d) k old h e = grind (arith, total-put d k old h)

-- the dispatches that an outcome of `dispatch_request` stands for
abbrev pub successes : Result Bool → ℕ
successes (ok true) = 1
successes _ = 0

DoorAccounts-counts :
    {S : Type 0} (s t : DoorScene S) (r : Result Bool)
    → DoorAccounts s (r, t)
    → (t.handle.requests_dispatched ≡ s.handle.requests_dispatched + successes r)
      × (t.handle.door_name ≡ s.handle.door_name)
DoorAccounts-counts s t (ok true) a = (ap (λ h. h.requests_dispatched) a, ap (λ h. h.door_name) a)
DoorAccounts-counts s t (ok false) a =
    (ap (λ h. h.requests_dispatched) a.1 ∙ omega arith, ap (λ h. h.door_name) a.1)
DoorAccounts-counts s t (err e) a =
    (ap (λ h. h.requests_dispatched) a ∙ omega arith, ap (λ h. h.door_name) a)

-- What a routed message leaves of a node, by how the call ended.
pub record IsRouted {S : Type 0} (n : DoorNode S) (r : Result Bool) (m : DoorNode S) : Type 0 where
  pub keyed : IsKeyed m.handles
  pub dispatched :
      total (λ h. h.requests_dispatched) m.handles
      ≡ total (λ h. h.requests_dispatched) n.handles + successes r

module _ {S : Type 0} (rt : Runtime) (io : DoorPorts S) where
  dispatch_to-IsRouted :
      (name : String) (h : DoorHandle) (q : Value) (fresh : String) (n : DoorNode S)
      → IsKeyed n.handles
      → get n.handles name ≡ some h
      → IsRouted n (dispatch_to rt io name h q fresh n).0 (dispatch_to rt io name h q fresh n).1
  unfolding dispatch_to
  dispatch_to-IsRouted name h q fresh n v e =
      let s : DoorScene S = record { handle = h; ports = n.ports } in
      let (r, t) = dispatch_door_request rt io q none fresh s in
      let c = DoorAccounts-counts s t r (dispatch_door_request-DoorAccounts rt io q none fresh s) in
      record {
        keyed = put-IsKeyed n.handles name t.handle v (c.1 ∙ v name h e);
        dispatched =
            omega (arith, total-put (λ k. k.requests_dispatched) n.handles name h t.handle e, c.0);
      }

  route_to-IsRouted :
      (name : String) (q : Value) (fresh : String) (n : DoorNode S)
      → IsKeyed n.handles
      → IsRouted n (route_to rt io name q fresh n).0 (route_to rt io name q fresh n).1
  unfolding route_to
  route_to-IsRouted name q fresh n v = elim (Option-cases (get n.handles name)) [
    | inl e ↦ rw (e, route_to) (record { keyed = v; dispatched = omega arith })
    | inr (h, e) ↦ rw (e, route_to) (dispatch_to-IsRouted name h q fresh n v e)
  ]

  route_named-IsRouted :
      (name q : Value) (fresh : String) (n : DoorNode S)
      → IsKeyed n.handles
      → IsRouted n (route_named rt io name q fresh n).0 (route_named rt io name q fresh n).1
  unfolding route_named
  route_named-IsRouted (str name) q fresh n v = route_to-IsRouted name q fresh n v
  route_named-IsRouted _ q fresh n v = record { keyed = v; dispatched = omega arith }

  -- In a node with every handle under its own name, whatever a message says, routing it keeps every
  -- handle under its own name, and the node's total of dispatched requests is one higher if the
  -- call returned True and as it was otherwise.
  pub route_request-IsRouted :
      (q : Value) (fresh : String) (n : DoorNode S)
      → IsKeyed n.handles
      → IsRouted n (route_request rt io q fresh n).0 (route_request rt io q fresh n).1
  unfolding route_request
  route_request-IsRouted q fresh n v = route_named-IsRouted (getattr q "door_name" null) q fresh n v

  posted :
      (t : TranslatedDoorRequest) (fresh : String) (n : DoorNode S) (h : DoorHandle)
      → h.door_name ≡ t.door_name
      → IsNamedDoor t
      → dispatch_to rt io t.door_name h (door_message_of t) fresh n ≡ (
          let (r, s) =
            post_door rt io
              (record t { execution_id = fresh })
              (record { handle = h; ports = n.ports }) in
          (r, record { handles = put n.handles t.door_name s.handle; ports = s.ports }))
  unfolding dispatch_to
  posted t fresh n h own named =
      let s : DoorScene S = record { handle = h; ports = n.ports } in
      ground (
        arith,
        own,
        str_eq_iff t.door_name h.door_name,
        dispatch_door_request-door_message_of rt io t none fresh s named,
      )

  -- The POST of a request by the handle of its door, and how it ends by the answer
  abbrev pub posted_by :
      TranslatedDoorRequest → String → DoorHandle → DoorNode S → Result Bool × DoorNode S
  posted_by t fresh h n =
      let (r, ports') =
        io.post_door_request
          (record {
            door = t.door_name;
            requester_id = t.requester_id;
            requested_mode = t.requested_mode;
            execution_id = fresh;
            namespace = h.namespace;
          })
          n.ports in
      elim r [
        | ok _ ↦ (
          ok true,
          record {
            handles =
                put n.handles t.door_name
                  (record h { requests_dispatched = h.requests_dispatched + 1 });
            ports = ports';
          },
        )
        | err e ↦ (err e, record { handles = put n.handles t.door_name h; ports = ports' })
      ]

  post_door-posted_by :
      (t : TranslatedDoorRequest) (fresh : String) (n : DoorNode S) (h : DoorHandle)
      → h.door_name ≡ t.door_name
      → (let (r, s) =
            post_door rt io
              (record t { execution_id = fresh })
              (record { handle = h; ports = n.ports }) in
          Path
            (Result Bool × DoorNode S)
            (r, record { handles = put n.handles t.door_name s.handle; ports = s.ports })
            (posted_by t fresh h n))
  unfolding post_door
  post_door-posted_by t fresh n h own = rw own (ground arith)

  -- In a node with every handle under its own name, a message with a door, a requester and a mode, the
  -- two names not empty: where the node has no handle of that door, it is passed over with False and
  -- the node stays as it is.  Otherwise the client is called with that door, requester and mode, the
  -- fresh identifier and the namespace of the handle; where the call returns, the handle has counted
  -- one dispatch more and the answer is True; where it raises, that goes on and nothing is counted.
  pub route_request-door_message_of :
      (t : TranslatedDoorRequest) (fresh : String) (n : DoorNode S)
      → IsKeyed n.handles
      → IsNamedDoor t
      → route_request rt io (door_message_of t) fresh n ≡ (elim (get n.handles t.door_name) [
        | none ↦ (ok false, n)
        | some h ↦ posted_by t fresh h n
      ])
  unfolding route_request route_named route_to dispatch_to
  route_request-door_message_of t fresh n v named =
      rw (door_at rt t.door_name t.requester_id (mode_number t.requested_mode), route_named)
        (elim (Option-cases (get n.handles t.door_name)) [
          | inl e ↦ rw (e, route_to) refl
          | inr (h, e) ↦
              rw (e, route_to)
                (posted t fresh n h (v t.door_name h e) named
                  ∙ post_door-posted_by t fresh n h (v t.door_name h e))
        ])
