-- ===== src/Lift/Session/Lock.antt =====
-- session_manager.py as its clients see it: the maps implement one lock for each lift, which knows
-- nothing of the others.
use open_rmf_adapters_quiksy.Base.{
  ℕ, String, Bool, true, false, ◌&&◌, ◌||◌, Option, none, some, ◌≡◌, arith, is_empty, str_eq,
  str_eq_iff, str_eq_refl, or_default, if◌then◌else◌,
}
use open_rmf_adapters_quiksy.Base.Int.{ℤ, pos, sub_ℕ, ltb_ℤ}
use open_rmf_adapters_quiksy.Base.Dict.{get, put, get-put, get-remove}
use open_rmf_adapters_quiksy.Lift.Session.{
  SessionManager, current_request, current_server, forget, claim, evict_stale_locked,
  acquire_locked, try_acquire, release, reconcile, observe_server_state,
}
use open_rmf_adapters_quiksy.Lift.Session.Valid.{IsValid}

-- One lift's lock: who asked for it and when, and what the server said of it.
pub record LiftLock : Type 0 where
  pub request : Option (String × ℕ)
  pub holder : Option String

abbrev pub pair : Option String → Option ℕ → Option (String × ℕ)
pair (some r) (some t) = some (r, t)
pair _ _ = none

unfoldable pub lock_of : SessionManager → String → LiftLock
lock_of s lift = record {
  request = pair (get s.requested lift) (get s.requested_at lift);
  holder = get s.server lift;
}

-- The lock of one lift by itself.  A request that is too old counts as none.
abbrev pub fresh : ℤ → ℕ → Option (String × ℕ) → Option (String × ℕ)
fresh ttl now none = none
fresh ttl now (some (r, at)) =
    if ltb_ℤ (pos 0) ttl && ltb_ℤ ttl (sub_ℕ now at) then none else some (r, at)

abbrev pub holder_name : Option String → String
holder_name h = or_default h ""

-- Who asked last decides; where nobody did, what the server reported.
abbrev pub grant : Option (String × ℕ) → Option String → String → ℕ → Bool × LiftLock
grant none h r later =
    if is_empty (holder_name h) || str_eq (holder_name h) r
    then (true, record { request = some (r, later); holder = h })
    else (false, record { request = none; holder = h })
grant (some (q, at)) h r later =
    if str_eq q r || str_eq (holder_name h) r
    then (true, record { request = some (r, later); holder = h })
    else (false, record { request = some (q, at); holder = h })

-- The session that asked last.
abbrev pub requester : Option (String × ℕ) → String
requester none = ""
requester (some (q, at)) = q

-- A request survives a report of the server that names the same session, and no other report.
abbrev pub confirmed : Option (String × ℕ) → String → Option (String × ℕ)
confirmed none server = none
confirmed (some (q, at)) server = if str_eq q server then some (q, at) else none

-- One method call, on whatever lift.
pub data Call : Type 0 where
  acquire : String → ℕ → ℕ → Call
  finish : String → Call
  observe : String → ℕ → Call

-- What the specification says of each call: the answer, and the lock after it.
abbrev pub lock_call : ℤ → LiftLock → Call → Option Bool × LiftLock
lock_call ttl k (acquire r now later) = if is_empty r then (some false, k) else (
  some (grant (fresh ttl now k.request) k.holder r later).0,
  (grant (fresh ttl now k.request) k.holder r later).1,
)
lock_call ttl k (finish r) =
    if is_empty (requester k.request) && is_empty (holder_name k.holder)
    then (some true, k)
    else if str_eq (requester k.request) r || str_eq (holder_name k.holder) r
    then (some true, record { request = none; holder = k.holder })
    else (some false, k)
lock_call ttl k (observe server now) =
    (none, record { request = confirmed (fresh ttl now k.request) server; holder = some server })

-- What the manager does on a call.
unfoldable pub call : SessionManager → String → Call → Option Bool × SessionManager
call s lift (acquire r now later) =
    (some (try_acquire s lift r now later).0, (try_acquire s lift r now later).1)
call s lift (finish r) = (some (release s lift r).0, (release s lift r).1)
call s lift (observe server now) = (none, observe_server_state s lift server now)

pub evict-lock :
    (s : SessionManager) (lift : String) (now : ℕ)
    → IsValid s
    → lock_of (evict_stale_locked s lift now) lift ≡ record {
      request = fresh s.ttl_seconds now (lock_of s lift).request;
      holder = (lock_of s lift).holder;
    }
unfolding evict_stale_locked lock_of forget
evict-lock s lift now v = ground (
  arith,
  v.paired lift,
  get-remove s.requested lift lift,
  get-remove s.requested_at lift lift,
  str_eq_refl lift,
)

pub acquire_locked-lock :
    (s : SessionManager) (lift r : String) (later : ℕ)
    → is_empty r ≡ false
    → IsValid s
    → let (done, t) = acquire_locked s lift r later in
      (done ≡ (grant (lock_of s lift).request (lock_of s lift).holder r later).0)
      × (lock_of t lift ≡ (grant (lock_of s lift).request (lock_of s lift).holder r later).1)
unfolding acquire_locked lock_of claim
acquire_locked-lock s lift r later h v = ground (
  arith,
  v.paired lift,
  get-put s.requested lift lift r,
  get-put s.requested_at lift lift later,
  str_eq_refl lift,
  str_eq_refl "",
  str_eq_iff (current_request s lift) r,
  str_eq_iff (current_server s lift) r,
)

pub reconcile-lock :
    (s : SessionManager) (lift r : String)
    → IsValid s
    → lock_of (reconcile s lift r) lift
      ≡ record { request = confirmed (lock_of s lift).request r; holder = (lock_of s lift).holder }
unfolding reconcile lock_of forget
reconcile-lock s lift r v = ground (
  arith,
  v.paired lift,
  get-remove s.requested lift lift,
  get-remove s.requested_at lift lift,
  str_eq_refl lift,
  str_eq_refl "",
  str_eq_iff (current_request s lift) r,
  str_eq_iff r "",
)

pub see-lock :
    (s : SessionManager) (lift r : String)
    → lock_of (record s { server = put s.server lift r }) lift
      ≡ record { request = (lock_of s lift).request; holder = some r }
unfolding lock_of
see-lock s lift r = ground (arith, get-put s.server lift lift r, str_eq_refl lift)

pub release-lock :
    (s : SessionManager) (lift r : String)
    → IsValid s
    → ((call s lift (finish r)).0 ≡ (lock_call s.ttl_seconds (lock_of s lift) (finish r)).0)
      × (lock_of (call s lift (finish r)).1 lift
          ≡ (lock_call s.ttl_seconds (lock_of s lift) (finish r)).1)
unfolding call release lock_of forget
release-lock s lift r v = ground (
  arith,
  v.paired lift,
  get-remove s.requested lift lift,
  get-remove s.requested_at lift lift,
  str_eq_refl lift,
  str_eq_refl "",
)

abbrev pub IsNamed : Option (String × ℕ) → Type 0
IsNamed none = Unit
IsNamed (some (q, at)) = is_empty q ≡ false

pub lock_of-IsNamed :
    (s : SessionManager) (lift : String) → IsValid s → IsNamed (lock_of s lift).request
unfolding lock_of
lock_of-IsNamed s lift v = ground (arith, v.paired lift)
