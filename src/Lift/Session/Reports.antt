-- ===== src/Lift/Session/Reports.antt =====
-- session_manager.py: what a report of the server does to the request that the adapter holds.
use open_rmf_adapters_quiksy.Base.{
  ℕ, String, true, false, none, some, List, [], ◌∷◌, ◌≡◌, ◌⊎◌, refl, arith, is_empty, str_eq_iff,
  str_eq_refl, inl,
}
use open_rmf_adapters_quiksy.Lift.Session.{SessionManager, try_acquire, observe_server_state}
use open_rmf_adapters_quiksy.Lift.Session.Valid.{IsValid}
use open_rmf_adapters_quiksy.Lift.Session.Lock.{
  lock_of, lock_of-IsNamed, observe, acquire, call, requester,
}
use open_rmf_adapters_quiksy.Lift.Session.Refine.{call-Implements}

-- After a report to a well-formed manager the adapter's request is gone or is the session that the
-- report names, and that session is the one that the server holds.
pub observe_reconciles :
    (s : SessionManager) (lift r : String) (now : ℕ)
    → IsValid s
    → let k = lock_of (observe_server_state s lift r now) lift in
      ((k.request ≡ none) ⊎ (requester k.request ≡ r)) × (k.holder ≡ some r)
unfolding call
observe_reconciles s lift r now v =
    let i = call-Implements s lift (observe r now) v in
    ground (arith, i.lock, str_eq_iff (requester (lock_of s lift).request) r)

-- After a report to a well-formed manager that the lift is free, a session with a name is granted
-- it.
pub observe_free-try_acquire :
    (s : SessionManager) (lift b : String) (now again later : ℕ)
    → IsValid s
    → is_empty b ≡ false
    → (try_acquire (observe_server_state s lift "" now) lift b again later).0 ≡ true
unfolding call
observe_free-try_acquire s lift b now again later v n =
    let i = call-Implements s lift (observe "" now) v in
    let j =
      call-Implements (observe_server_state s lift "" now) lift (acquire b again later) i.valid in
    ground (
      arith,
      i.lock,
      j.answer,
      str_eq_refl "",
      lock_of-IsNamed (observe_server_state s lift "" now) lift i.valid,
    )

-- The reports of the server, in order, on one lift.
unfoldable pub reports : SessionManager → String → List (String × ℕ) → SessionManager
reports s lift [] = s
reports s lift ((r, now) ∷ rest) = reports (observe_server_state s lift r now) lift rest

-- No run of reports to a well-formed manager renews the time stamp of a request: it is kept with
-- its old stamp, or dropped.
pub reports_never_renew :
    (s : SessionManager) (lift : String) (frames : List (String × ℕ))
    → IsValid s
    → ((lock_of (reports s lift frames) lift).request ≡ (lock_of s lift).request)
      ⊎ ((lock_of (reports s lift frames) lift).request ≡ none)
unfolding reports call
reports_never_renew s lift [] v = inl refl
reports_never_renew s lift ((r, now) ∷ rest) v =
    let i = call-Implements s lift (observe r now) v in
    ground
      (arith, i.lock, reports_never_renew (observe_server_state s lift r now) lift rest i.valid)
