-- ===== src/Lift/Handle/Frames.antt =====
-- lift_handle.py: what a state frame does, and the invariant over every event of a handle.
use open_rmf_adapters_quiksy.Base.{ℕ, String, none, some, List, [], ◌∷◌, ◌≡◌, ◌⊎◌, arith}
use open_rmf_adapters_quiksy.Base.Exec.{Exn, Result, ok, err, translation_error}
use open_rmf_adapters_quiksy.Base.Int.{ℤ}
use open_rmf_adapters_quiksy.Python.{Value, null, getattr}
use open_rmf_adapters_quiksy.Python.Runtime.{Runtime}
use open_rmf_adapters_quiksy.Lift.Session.{try_acquire}
use open_rmf_adapters_quiksy.Lift.Session.Valid.{
  IsValid, try_acquire-IsValid, release-IsValid, observe_server_state-IsValid,
}
use open_rmf_adapters_quiksy.Lift.Session.Lock.{lock_of, requester}
use open_rmf_adapters_quiksy.Lift.Session.Reports.{observe_reconciles}
use open_rmf_adapters_quiksy.Lift.Request.{TranslatedLiftRequest, as_int, translate_request}
use open_rmf_adapters_quiksy.Lift.State.{LiftFrame, LiftStateFields, translate_state}
use open_rmf_adapters_quiksy.Lift.Handle.{
  LiftPorts, LiftScene, DispatchInputs, post_translated, gate, dispatch_translated, dispatch_typed,
  dispatch_request, publish_fields, sync_and_publish, on_translated, on_state_frame,
}

module _ {S : Type 0} (rt : Runtime) (io : LiftPorts S) where
  publish_fields-manager :
      (f : LiftStateFields) (s : LiftScene S) → (publish_fields rt io f s).manager ≡ s.manager
  unfolding publish_fields
  publish_fields-manager f s = ground arith

  -- With a well-formed manager, a frame that translates and names its session by a text moves the
  -- lock of this lift to what the frame reports, also where the publisher raises: the adapter's
  -- request is gone or is the reported session.
  pub on_state_frame_reconciles :
      (frame : LiftFrame) (now : ℕ) (s : LiftScene S) {f : LiftStateFields} {r : String}
      → IsValid s.manager
      → translate_state rt frame ≡ ok f
      → f.session_id ≡ r
      → let k = lock_of (on_state_frame rt io frame now s).manager s.handle.lift_name in
        ((k.request ≡ none) ⊎ (requester k.request ≡ r)) × (k.holder ≡ some r)
  unfolding on_state_frame on_translated sync_and_publish
  on_state_frame_reconciles frame now s {f} {r} v e text =
      rw (e, on_translated)
        (rw (text, sync_and_publish)
          (rw publish_fields-manager (observe_reconciles s.manager s.handle.lift_name r now v)))

  -- A frame that does not translate changes nothing.
  pub malformed_frame_ignored :
      (frame : LiftFrame) (now : ℕ) (s : LiftScene S) {e : Exn}
      → translate_state rt frame ≡ err e
      → on_state_frame rt io frame now s ≡ s
  unfolding on_state_frame on_translated
  malformed_frame_ignored frame now s h = rw (h, on_translated)

  post_translated-IsValid :
      (t : TranslatedLiftRequest) (s : LiftScene S)
      → IsValid s.manager
      → IsValid (post_translated rt io t s).1.manager
  unfolding post_translated
  post_translated-IsValid t s v =
      ground (arith, release-IsValid s.manager s.handle.lift_name t.session_id v)

  gate-IsValid :
      (t : TranslatedLiftRequest) (now later : ℕ) (s : LiftScene S)
      → IsValid s.manager
      → IsValid (gate rt io t now later s).1.manager
  unfolding gate
  gate-IsValid t now later s v =
      let m = (try_acquire s.manager s.handle.lift_name t.session_id now later).1 in
      let w = try_acquire-IsValid s.manager s.handle.lift_name t.session_id now later v in
      ground (
        arith,
        w,
        post_translated-IsValid t s v,
        post_translated-IsValid t (record s { manager = m }) w,
      )

  dispatch_translated-IsValid :
      (r : Result TranslatedLiftRequest) (d : DispatchInputs) (s : LiftScene S)
      → IsValid s.manager
      → IsValid (dispatch_translated rt io r d s).1.manager
  unfolding dispatch_translated
  dispatch_translated-IsValid (err translation_error) d s v = v
  dispatch_translated-IsValid (err e) d s v = v
  dispatch_translated-IsValid (ok t) d s v = ground (arith, gate-IsValid t d.now d.later s v)

  dispatch_typed-IsValid :
      (r : Result ℤ) (q : Value) (d : DispatchInputs) (s : LiftScene S)
      → IsValid s.manager
      → IsValid (dispatch_typed rt io r q d s).1.manager
  unfolding dispatch_typed
  dispatch_typed-IsValid (err translation_error) q d s v = v
  dispatch_typed-IsValid (err e) q d s v = v
  dispatch_typed-IsValid (ok z) q d s v =
      ground (
        arith,
        v,
        dispatch_translated-IsValid (translate_request rt q d.execution_id d.fresh) d s v,
      )

  pub dispatch_request-IsValid :
      (q : Value) (d : DispatchInputs) (s : LiftScene S)
      → IsValid s.manager
      → IsValid (dispatch_request rt io q d s).1.manager
  unfolding dispatch_request
  dispatch_request-IsValid q d s v = ground (
    arith,
    dispatch_translated-IsValid (translate_request rt q d.execution_id d.fresh) d s v,
    dispatch_typed-IsValid (as_int rt (getattr q "request_type" null)) q d s v,
  )

  sync_and_publish-IsValid :
      (r : String) (f : LiftStateFields) (now : ℕ) (s : LiftScene S)
      → IsValid s.manager
      → IsValid (sync_and_publish rt io r f now s).manager
  unfolding sync_and_publish
  sync_and_publish-IsValid r f now s v =
      rw publish_fields-manager (observe_server_state-IsValid s.manager s.handle.lift_name r now v)

  on_translated-IsValid :
      (r : Result LiftStateFields) (now : ℕ) (s : LiftScene S)
      → IsValid s.manager
      → IsValid (on_translated rt io r now s).manager
  unfolding on_translated
  on_translated-IsValid (err e) now s v = v
  on_translated-IsValid (ok f) now s v = sync_and_publish-IsValid f.session_id f now s v

  on_state_frame-IsValid :
      (frame : LiftFrame) (now : ℕ) (s : LiftScene S)
      → IsValid s.manager
      → IsValid (on_state_frame rt io frame now s).manager
  unfolding on_state_frame
  on_state_frame-IsValid frame now s v = on_translated-IsValid (translate_state rt frame) now s v

-- What reaches a handle: a ROS message on one thread, a frame of the server on the other.  Each is
-- one step here.
pub data LiftEvent : Type 0 where
  request : Value → DispatchInputs → LiftEvent
  frame : LiftFrame → ℕ → LiftEvent

module _ {S : Type 0} (rt : Runtime) (io : LiftPorts S) where
  unfoldable pub handle_events : LiftScene S → List LiftEvent → LiftScene S
  handle_events s [] = s
  handle_events s (request q d ∷ es) = handle_events (dispatch_request rt io q d s).1 es
  handle_events s (frame f now ∷ es) = handle_events (on_state_frame rt io f now s) es

  -- From a well-formed session manager, no sequence of messages and frames, with a client and a
  -- publisher that do what they will, breaks its invariant.  Messages may be any values; a frame has a
  -- text for its session or none, and may be any value otherwise.
  pub handle_events-IsValid :
      (s : LiftScene S) (es : List LiftEvent)
      → IsValid s.manager
      → IsValid (handle_events s es).manager
  unfolding handle_events
  handle_events-IsValid s [] v = v
  handle_events-IsValid s (request q d ∷ es) v =
      handle_events-IsValid (dispatch_request rt io q d s).1 es
        (dispatch_request-IsValid rt io q d s v)
  handle_events-IsValid s (frame f now ∷ es) v =
      handle_events-IsValid (on_state_frame rt io f now s) es
        (on_state_frame-IsValid rt io f now s v)
