-- ===== src/Lift/Handle/Requests.antt =====
-- lift_handle.py: what `dispatch_request` does with a well-formed message for its own lift.
use open_rmf_adapters_quiksy.Base.{
  ℕ, ◌+◌, ◌≤◌, String, true, false, none, some, [], ◌≡◌, ◌≢◌, arith, str_eq, str_eq_iff,
  if◌then◌else◌,
}
use open_rmf_adapters_quiksy.Base.Exec.{Exn, ok, err}
use open_rmf_adapters_quiksy.Python.{Value}
use open_rmf_adapters_quiksy.Python.Runtime.{Runtime}
use open_rmf_adapters_quiksy.Lift.Session.{try_acquire}
use open_rmf_adapters_quiksy.Lift.Session.Valid.{IsValid}
use open_rmf_adapters_quiksy.Lift.Session.Lock.{lock_of, acquire, finish, call, requester}
use open_rmf_adapters_quiksy.Lift.Session.Refine.{call-Implements, run}
use open_rmf_adapters_quiksy.Lift.Session.Exclusion.{IsHeld, InTime, exclusive, call-IsHeld}
use open_rmf_adapters_quiksy.Lift.Request.{
  end_session, agv_mode, TranslatedLiftRequest, execution_id_or,
}
use open_rmf_adapters_quiksy.Lift.Request.RoundTrip.{
  message_of, IsNamed, type_number, door_number, attr_type, as_int_int,
  translate_request-message_of,
}
use open_rmf_adapters_quiksy.Lift.Handle.{
  LiftPost, LiftPorts, LiftScene, DispatchInputs, reject, post_translated, gate,
  dispatch_translated, dispatch_typed, dispatch_request,
}

module _ {S : Type 0} (rt : Runtime) (io : LiftPorts S) where
  -- A message with non-empty names goes through the translation to the session gate if it names
  -- this lift, and is rejected if it names another.
  pub dispatch_request-message_of :
      (t : TranslatedLiftRequest) (d : DispatchInputs) (s : LiftScene S)
      → IsNamed t
      → dispatch_request rt io (message_of t) d s ≡ (
          if str_eq t.lift_name s.handle.lift_name
          then gate rt io
              (record t { execution_id = execution_id_or d.execution_id d.fresh })
              d.now
              d.later
              s
          else reject s)
  unfolding dispatch_request dispatch_typed dispatch_translated
  dispatch_request-message_of t d s h =
      simp
        (
          attr_type rt t.lift_name t.session_id t.destination_floor (type_number t.request_type)
              (door_number t.door_state),
          as_int_int,
          translate_request-message_of rt t d.execution_id d.fresh h,
        )
        (ground arith)

  -- With a well-formed session manager in which another session holds the lift and its request is
  -- not too old, a well-formed AGV_MODE request for this lift is rejected: nothing is sent, one
  -- rejection is counted, and the lift stays with its holder.
  pub rival_request_rejected :
      (t : TranslatedLiftRequest) (d : DispatchInputs) (s : LiftScene S) (a : String) (since : ℕ)
      → IsNamed t
      → t.request_type ≡ agv_mode
      → t.lift_name ≡ s.handle.lift_name
      → IsValid s.manager
      → IsHeld (lock_of s.manager s.handle.lift_name) a since
      → t.session_id ≢ a
      → InTime s.manager.ttl_seconds since d.now
      → since ≤ d.later
      → let (r, after) = dispatch_request rt io (message_of t) d s in
        (r ≡ ok false)
        × (after.ports ≡ s.ports)
        × (after.handle.requests_rejected ≡ s.handle.requests_rejected + 1)
        × IsHeld (lock_of after.manager s.handle.lift_name) a since
  unfolding gate call run
  rival_request_rejected t d s a since h ty own v held ne time l =
      let lift = s.handle.lift_name in
      let denied =
        exclusive s.manager lift a since [] v held tt t.session_id d.now d.later h.session time l in
      let kept =
        call-IsHeld s.manager lift a since (acquire t.session_id d.now d.later) v held (time, l) in
      ground (
        arith,
        dispatch_request-message_of t d s h,
        denied,
        kept,
        str_eq_iff t.lift_name lift,
        str_eq_iff a t.session_id,
      )

  -- What is posted for a request.
  abbrev post_of : TranslatedLiftRequest → DispatchInputs → LiftScene S → LiftPost
  post_of t d s = record {
    lift = s.handle.lift_name;
    session_id = t.session_id;
    request_type = t.request_type;
    destination_floor = t.destination_floor;
    door_state = t.door_state;
    execution_id = execution_id_or d.execution_id d.fresh;
    namespace = s.handle.namespace;
  }

  -- A well-formed AGV_MODE request for this lift that a well-formed manager grants keeps its lock
  -- when the POST raises: the exception comes back and the counters are as they were, but the
  -- session's request stands with its new time.
  pub failed_post_keeps_lock :
      (t : TranslatedLiftRequest) (d : DispatchInputs) (s : LiftScene S) {e : Exn}
      → IsNamed t
      → t.request_type ≡ agv_mode
      → t.lift_name ≡ s.handle.lift_name
      → IsValid s.manager
      → (try_acquire s.manager s.handle.lift_name t.session_id d.now d.later).0 ≡ true
      → ((p : LiftPost) → (io.post_lift_request p s.ports).0 ≡ err e)
      → let (r, after) = dispatch_request rt io (message_of t) d s in
        (r ≡ err e)
        × (after.handle ≡ s.handle)
        × ((lock_of after.manager s.handle.lift_name).request ≡ some (t.session_id, d.later))
  unfolding gate post_translated call
  failed_post_keeps_lock t d s h ty own v granted fails =
      let lift = s.handle.lift_name in
      let i = call-Implements s.manager lift (acquire t.session_id d.now d.later) v in
      ground (
        arith,
        dispatch_request-message_of t d s h,
        i.answer,
        i.lock,
        h.session,
        str_eq_iff t.lift_name lift,
        fails (post_of t d s),
      )

  -- A well-formed END_SESSION for this lift that the server takes frees the lift, in a well-formed
  -- manager, if its session is the one that asked for it last: the request is gone, True comes back
  -- and one dispatch is counted.
  pub end_session_releases :
      (t : TranslatedLiftRequest) (d : DispatchInputs) (s : LiftScene S) {reply : Value}
      → IsNamed t
      → t.request_type ≡ end_session
      → t.lift_name ≡ s.handle.lift_name
      → IsValid s.manager
      → requester (lock_of s.manager s.handle.lift_name).request ≡ t.session_id
      → ((p : LiftPost) → (io.post_lift_request p s.ports).0 ≡ ok reply)
      → let (r, after) = dispatch_request rt io (message_of t) d s in
        (r ≡ ok true)
        × (after.handle.requests_dispatched ≡ s.handle.requests_dispatched + 1)
        × ((lock_of after.manager s.handle.lift_name).request ≡ none)
  unfolding gate post_translated call
  end_session_releases t d s h ty own v holds works =
      let lift = s.handle.lift_name in
      let i = call-Implements s.manager lift (finish t.session_id) v in
      ground (
        arith,
        dispatch_request-message_of t d s h,
        i.answer,
        i.lock,
        h.session,
        str_eq_iff t.lift_name lift,
        str_eq_iff (requester (lock_of s.manager lift).request) t.session_id,
        works (post_of t d s),
      )
