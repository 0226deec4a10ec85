-- ===== src/Lift/Handle/Isolation.antt =====
-- lift_handle.py: what a request at one handle leaves of the other lifts, whose locks stand in the
-- same session manager.
use open_rmf_adapters_quiksy.Base.{ℕ, String, ◌≡◌, ◌≢◌, refl, arith, str_eq_iff}
use open_rmf_adapters_quiksy.Base.Int.{ℤ}
use open_rmf_adapters_quiksy.Base.Exec.{Result, ok, err, translation_error}
use open_rmf_adapters_quiksy.Python.{Value, null, getattr}
use open_rmf_adapters_quiksy.Python.Runtime.{Runtime}
use open_rmf_adapters_quiksy.Lift.Session.{SessionManager, try_acquire, release}
use open_rmf_adapters_quiksy.Lift.Session.Valid.{IsValid, try_acquire-IsValid}
use open_rmf_adapters_quiksy.Lift.Session.Lock.{lock_of, acquire, finish, call}
use open_rmf_adapters_quiksy.Lift.Session.Refine.{call-lock}
use open_rmf_adapters_quiksy.Lift.Request.{TranslatedLiftRequest, as_int, translate_request}
use open_rmf_adapters_quiksy.Lift.Handle.{
  LiftPorts, LiftScene, DispatchInputs, post_translated, gate, dispatch_translated, dispatch_typed,
  dispatch_request,
}

try_acquire-others :
    (m : SessionManager) (lift other r : String) (now later : ℕ)
    → IsValid m
    → lift ≢ other
    → lock_of (try_acquire m lift r now later).1 other ≡ lock_of m other
unfolding call
try_acquire-others m lift other r now later v ne =
    ground (arith, call-lock m lift other (acquire r now later) v, str_eq_iff lift other)

release-others :
    (m : SessionManager) (lift other r : String)
    → IsValid m
    → lift ≢ other
    → lock_of (release m lift r).1 other ≡ lock_of m other
unfolding call
release-others m lift other r v ne =
    ground (arith, call-lock m lift other (finish r) v, str_eq_iff lift other)

module _ {S : Type 0} (rt : Runtime) (io : LiftPorts S) (other : String) where
  post_translated-others :
      (t : TranslatedLiftRequest) (s : LiftScene S)
      → IsValid s.manager
      → s.handle.lift_name ≢ other
      → lock_of (post_translated rt io t s).1.manager other ≡ lock_of s.manager other
  unfolding post_translated
  post_translated-others t s v ne =
      ground (arith, release-others s.manager s.handle.lift_name other t.session_id v ne)

  gate-others :
      (t : TranslatedLiftRequest) (now later : ℕ) (s : LiftScene S)
      → IsValid s.manager
      → s.handle.lift_name ≢ other
      → lock_of (gate rt io t now later s).1.manager other ≡ lock_of s.manager other
  unfolding gate
  gate-others t now later s v ne =
      let m = (try_acquire s.manager s.handle.lift_name t.session_id now later).1 in
      let w = try_acquire-IsValid s.manager s.handle.lift_name t.session_id now later v in
      ground (
        arith,
        try_acquire-others s.manager s.handle.lift_name other t.session_id now later v ne,
        post_translated-others t s v ne,
        post_translated-others t (record s { manager = m }) w ne,
      )

  dispatch_translated-others :
      (r : Result TranslatedLiftRequest) (d : DispatchInputs) (s : LiftScene S)
      → IsValid s.manager
      → s.handle.lift_name ≢ other
      → lock_of (dispatch_translated rt io r d s).1.manager other ≡ lock_of s.manager other
  unfolding dispatch_translated
  dispatch_translated-others (err translation_error) d s v ne = refl
  dispatch_translated-others (err e) d s v ne = refl
  dispatch_translated-others (ok t) d s v ne = ground (arith, gate-others t d.now d.later s v ne)

  dispatch_typed-others :
      (r : Result ℤ) (q : Value) (d : DispatchInputs) (s : LiftScene S)
      → IsValid s.manager
      → s.handle.lift_name ≢ other
      → lock_of (dispatch_typed rt io r q d s).1.manager other ≡ lock_of s.manager other
  unfolding dispatch_typed
  dispatch_typed-others (err translation_error) q d s v ne = refl
  dispatch_typed-others (err e) q d s v ne = refl
  dispatch_typed-others (ok z) q d s v ne =
      ground
        (arith, dispatch_translated-others (translate_request rt q d.execution_id d.fresh) d s v ne)

  -- No message at the handle of one lift, well formed or not, moves the lock of another lift.
  pub dispatch_request-others :
      (q : Value) (d : DispatchInputs) (s : LiftScene S)
      → IsValid s.manager
      → s.handle.lift_name ≢ other
      → lock_of (dispatch_request rt io q d s).1.manager other ≡ lock_of s.manager other
  unfolding dispatch_request
  dispatch_request-others q d s v ne = ground (
    arith,
    dispatch_translated-others (translate_request rt q d.execution_id d.fresh) d s v ne,
    dispatch_typed-others (as_int rt (getattr q "request_type" null)) q d s v ne,
  )
