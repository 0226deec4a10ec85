-- ===== src/Lift/Handle/Laws.antt =====
-- lift_handle.py: what one call of `dispatch_request` or `_on_state_frame` may do.
use open_rmf_adapters_quiksy.Base.{ℕ, ◌+◌, Bool, true, false, ◌≡◌, ◌⊎◌, arith}
use open_rmf_adapters_quiksy.Base.Int.{ℤ}
use open_rmf_adapters_quiksy.Base.Exec.{Result, ok, err, translation_error}
use open_rmf_adapters_quiksy.Python.{Value, null, getattr}
use open_rmf_adapters_quiksy.Python.Runtime.{Runtime}
use open_rmf_adapters_quiksy.Lift.Session.{SessionManager, try_acquire}
use open_rmf_adapters_quiksy.Lift.Request.{TranslatedLiftRequest, as_int, translate_request}
use open_rmf_adapters_quiksy.Lift.Handle.{
  LiftPorts, LiftScene, DispatchInputs, post_translated, gate, dispatch_translated, dispatch_typed,
  dispatch_request,
}

-- What a call that began in `s` may have done, by how it ended: it returned True and counted one
-- dispatch; or it returned False without a call of the client or the publisher, and counted at most
-- one rejection; or it raised and counted nothing.
abbrev pub Accounts : {S : Type 0} → LiftScene S → Result Bool × LiftScene S → Type 0
Accounts s (ok true, t) =
    t.handle ≡ record (s.handle) { requests_dispatched = s.handle.requests_dispatched + 1 }
Accounts s (ok false, t) =
    (t.ports ≡ s.ports)
    × ((t.handle ≡ s.handle)
        ⊎ (t.handle ≡ record (s.handle) { requests_rejected = s.handle.requests_rejected + 1 }))
Accounts s (err e, t) = t.handle ≡ s.handle

module _ {S : Type 0} (rt : Runtime) (io : LiftPorts S) where
  post_translated-Accounts :
      (t : TranslatedLiftRequest) (s : LiftScene S) (m : SessionManager)
      → Accounts s (post_translated rt io t (record s { manager = m }))
  unfolding post_translated
  post_translated-Accounts t s m = ground arith

  gate-Accounts :
      (t : TranslatedLiftRequest) (now later : ℕ) (s : LiftScene S)
      → Accounts s (gate rt io t now later s)
  unfolding gate
  gate-Accounts t now later s = ground (
    arith,
    post_translated-Accounts t s s.manager,
    post_translated-Accounts t s
        (try_acquire s.manager s.handle.lift_name t.session_id now later).1,
  )

  dispatch_translated-Accounts :
      (r : Result TranslatedLiftRequest) (d : DispatchInputs) (s : LiftScene S)
      → Accounts s (dispatch_translated rt io r d s)
  unfolding dispatch_translated
  dispatch_translated-Accounts (err translation_error) d s = ground arith
  dispatch_translated-Accounts (err e) d s = ground arith
  dispatch_translated-Accounts (ok t) d s = ground (arith, gate-Accounts t d.now d.later s)

  dispatch_typed-Accounts :
      (r : Result ℤ) (q : Value) (d : DispatchInputs) (s : LiftScene S)
      → Accounts s (dispatch_typed rt io r q d s)
  unfolding dispatch_typed
  dispatch_typed-Accounts (err translation_error) q d s = ground arith
  dispatch_typed-Accounts (err e) q d s = ground arith
  dispatch_typed-Accounts (ok z) q d s =
      ground
        (arith, dispatch_translated-Accounts (translate_request rt q d.execution_id d.fresh) d s)

  -- Whatever the message, a call of `dispatch_request` ends in one of three ways: True, with exactly
  -- the dispatch counter one higher; False, with nothing sent or published and at most the rejection
  -- counter one higher; or an exception, with all counters as they were.
  pub dispatch_request-Accounts :
      (q : Value) (d : DispatchInputs) (s : LiftScene S) → Accounts s (dispatch_request rt io q d s)
  unfolding dispatch_request
  dispatch_request-Accounts q d s = ground (
    arith,
    dispatch_translated-Accounts (translate_request rt q d.execution_id d.fresh) d s,
    dispatch_typed-Accounts (as_int rt (getattr q "request_type" null)) q d s,
  )
