-- ===== src/Lift/Session/Refine.antt =====
-- session_manager.py: any sequence of calls, on any lifts, gives each lift the answers that its own
-- lock gives to its own calls.
use open_rmf_adapters_quiksy.Base.{
  ℕ, String, false, List, [], ◌∷◌, ◌≡◌, ◌≢◌, refl, ap, ◌∙◌, arith, is_empty, str_eq, str_eq_iff,
  str_eq_ne, if◌then◌else◌,
}
use open_rmf_adapters_quiksy.Base.Int.{ℤ}
use open_rmf_adapters_quiksy.Base.Dict.{put, get-put, get-remove}
use open_rmf_adapters_quiksy.Lift.Session.{
  SessionManager, forget, claim, evict_stale_locked, acquire_locked, try_acquire, release,
  reconcile, observe_server_state,
}
use open_rmf_adapters_quiksy.Lift.Session.Valid.{
  IsValid, evict-IsValid, try_acquire-IsValid, release-IsValid, observe_server_state-IsValid,
}
use open_rmf_adapters_quiksy.Lift.Session.Lock.{
  LiftLock, lock_of, grant, Call, acquire, finish, observe, lock_call, call, evict-lock,
  acquire_locked-lock, reconcile-lock, see-lock, release-lock,
}

-- What a call on `lift` must do to the manager.
pub record Implements (s : SessionManager) (lift : String) (c : Call) : Type 0 where
  pub answer : (call s lift c).0 ≡ (lock_call s.ttl_seconds (lock_of s lift) c).0
  pub lock : lock_of (call s lift c).1 lift ≡ (lock_call s.ttl_seconds (lock_of s lift) c).1
  pub others : (j : String) → lift ≢ j → lock_of (call s lift c).1 j ≡ lock_of s j
  pub valid : IsValid (call s lift c).1
  pub same_ttl : (call s lift c).1.ttl_seconds ≡ s.ttl_seconds

module _ (s : SessionManager) (lift : String) where
  evict-ttl : (now : ℕ) → (evict_stale_locked s lift now).ttl_seconds ≡ s.ttl_seconds
  unfolding evict_stale_locked forget
  evict-ttl now = ground arith

  acquire_locked-ttl :
      (r : String) (later : ℕ) → (acquire_locked s lift r later).1.ttl_seconds ≡ s.ttl_seconds
  unfolding acquire_locked claim
  acquire_locked-ttl r later = ground arith

  reconcile-ttl : (r : String) → (reconcile s lift r).ttl_seconds ≡ s.ttl_seconds
  unfolding reconcile forget
  reconcile-ttl r = ground arith

  module _ (j : String) (ne : lift ≢ j) where
    forget-other : lock_of (forget s lift) j ≡ lock_of s j
    unfolding forget lock_of
    forget-other = ground (
      arith,
      get-remove s.requested lift j,
      get-remove s.requested_at lift j,
      str_eq_ne lift j ne,
    )

    claim-other : (r : String) (now : ℕ) → lock_of (claim s lift r now) j ≡ lock_of s j
    unfolding claim lock_of
    claim-other r now = ground (
      arith,
      get-put s.requested lift j r,
      get-put s.requested_at lift j now,
      str_eq_ne lift j ne,
    )

    refresh-other :
        (now : ℕ)
        → lock_of (record s { requested_at = put s.requested_at lift now }) j ≡ lock_of s j
    unfolding lock_of
    refresh-other now = ground (arith, get-put s.requested_at lift j now, str_eq_ne lift j ne)

    see-other : (r : String) → lock_of (record s { server = put s.server lift r }) j ≡ lock_of s j
    unfolding lock_of
    see-other r = ground (arith, get-put s.server lift j r, str_eq_ne lift j ne)

    evict-other : (now : ℕ) → lock_of (evict_stale_locked s lift now) j ≡ lock_of s j
    unfolding evict_stale_locked
    evict-other now = ground (arith, forget-other)

    acquire_locked-other :
        (r : String) (later : ℕ) → lock_of (acquire_locked s lift r later).1 j ≡ lock_of s j
    unfolding acquire_locked
    acquire_locked-other r later = ground (arith, claim-other r later, refresh-other later)

    reconcile-other : (r : String) → lock_of (reconcile s lift r) j ≡ lock_of s j
    unfolding reconcile
    reconcile-other r = ground (arith, forget-other)

    release-other : (r : String) → lock_of (release s lift r).1 j ≡ lock_of s j
    unfolding release
    release-other r = ground (arith, forget-other)

try_acquire-Implements :
    (s : SessionManager) (lift r : String) (now later : ℕ)
    → IsValid s
    → Implements s lift (acquire r now later)
unfolding call try_acquire
try_acquire-Implements s lift r now later v = record {
  answer = ground (arith, evict-lock s lift now v, step);
  lock = ground (arith, evict-lock s lift now v, step);
  others = λ j ne. ground (
    arith,
    evict-other s lift j ne now,
    acquire_locked-other (evict_stale_locked s lift now) lift j ne r later,
  );
  valid = try_acquire-IsValid s lift r now later v;
  same_ttl = ground (
    arith,
    evict-ttl s lift now,
    acquire_locked-ttl (evict_stale_locked s lift now) lift r later,
  );
}
  where
    step :
        is_empty r ≡ false
        → let (done, t) = acquire_locked (evict_stale_locked s lift now) lift r later in
          let k = lock_of (evict_stale_locked s lift now) lift in
          (done ≡ (grant k.request k.holder r later).0)
          × (lock_of t lift ≡ (grant k.request k.holder r later).1)
    step h =
        acquire_locked-lock (evict_stale_locked s lift now) lift r later h
          (evict-IsValid s lift now v)

release-Implements :
    (s : SessionManager) (lift r : String) → IsValid s → Implements s lift (finish r)
release-Implements s lift r v = record {
  answer = (release-lock s lift r v).0;
  lock = (release-lock s lift r v).1;
  others = λ j ne. unfold call in release-other s lift j ne r;
  valid = unfold call in release-IsValid s lift r v;
  same_ttl = unfold call release forget in ground arith;
}

observe-Implements :
    (s : SessionManager) (lift r : String) (now : ℕ) → IsValid s → Implements s lift (observe r now)
unfolding call observe_server_state lock_of
observe-Implements s lift r now v = record {
  answer = refl;
  lock = cc (
    reconcile-lock kept lift r (evict-IsValid seen lift now seen_valid),
    evict-lock seen lift now seen_valid,
    see-lock s lift r,
  );
  others = λ j ne.
      cc
        (reconcile-other kept lift j ne r, evict-other seen lift j ne now, see-other s lift j ne r);
  valid = observe_server_state-IsValid s lift r now v;
  same_ttl = cc (reconcile-ttl kept lift r, evict-ttl seen lift now);
}
  where
    seen : SessionManager
    seen = record s { server = put s.server lift r }

    kept : SessionManager
    kept = evict_stale_locked seen lift now

    seen_valid : IsValid seen
    seen_valid = record { paired = v.paired }

-- Every call on a lift of a well-formed manager gives the answer of that lift's lock and moves that
-- lock as the lock's own description says; it leaves the locks of the other lifts, the time to live
-- and the invariant as they are.
pub call-Implements :
    (s : SessionManager) (lift : String) (c : Call) → IsValid s → Implements s lift c
call-Implements s lift (acquire r now later) v = try_acquire-Implements s lift r now later v
call-Implements s lift (finish r) v = release-Implements s lift r v
call-Implements s lift (observe r now) v = observe-Implements s lift r now v

pub call-lock :
    (s : SessionManager) (j lift : String) (c : Call)
    → IsValid s
    → lock_of (call s j c).1 lift
      ≡ (if str_eq j lift then (lock_call s.ttl_seconds (lock_of s lift) c).1 else lock_of s lift)
call-lock s j lift c v =
    let i = call-Implements s j c v in ground (arith, i.lock, i.others lift, str_eq_iff j lift)

-- A run: calls on named lifts, in the order in which the threads take the manager's lock.
unfoldable pub run : SessionManager → List (String × Call) → SessionManager
run s [] = s
run s ((lift, c) ∷ rest) = run (call s lift c).1 rest

-- The same run as one lift's lock sees it.
unfoldable pub lock_run : ℤ → String → LiftLock → List (String × Call) → LiftLock
lock_run ttl lift k [] = k
lock_run ttl lift k ((j, c) ∷ rest) =
    lock_run ttl lift (if str_eq j lift then (lock_call ttl k c).1 else k) rest

pub run-IsValid :
    (s : SessionManager) (calls : List (String × Call)) → IsValid s → IsValid (run s calls)
unfolding run
run-IsValid s [] v = v
run-IsValid s ((j, c) ∷ rest) v = run-IsValid (call s j c).1 rest (call-Implements s j c v).valid

pub run-ttl :
    (s : SessionManager) (calls : List (String × Call))
    → IsValid s
    → (run s calls).ttl_seconds ≡ s.ttl_seconds
unfolding run
run-ttl s [] v = refl
run-ttl s ((j, c) ∷ rest) v =
    let i = call-Implements s j c v in cc (run-ttl (call s j c).1 rest i.valid, i.same_ttl)

-- After any run of calls on any lifts from a well-formed manager, each lift's lock is what its own
-- calls alone, by the lock's description, make of it.
pub run-lock_run :
    (s : SessionManager) (lift : String) (calls : List (String × Call))
    → IsValid s
    → lock_of (run s calls) lift ≡ lock_run s.ttl_seconds lift (lock_of s lift) calls
unfolding run lock_run
run-lock_run s lift [] v = refl
run-lock_run s lift ((j, c) ∷ rest) v =
    let i = call-Implements s j c v in
    run-lock_run (call s j c).1 lift rest i.valid
    ∙ ap (λ ttl. lock_run ttl lift (lock_of (call s j c).1 lift) rest) i.same_ttl
    ∙ ap (λ k. lock_run s.ttl_seconds lift k rest) (call-lock s j lift c v)
