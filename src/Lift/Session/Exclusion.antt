-- ===== src/Lift/Session/Exclusion.antt =====
-- session_manager.py: what the lock is for. A session that was granted a lift keeps it until it ends
-- its session, the server reports something else, or its request grows too old.
use open_rmf_adapters_quiksy.Base.{
  ℕ, String, true, false, Option, none, some, List, [], ◌∷◌, ◌≤◌, ◌≡◌, ◌≢◌, ◌⊎◌, arith, is_empty,
  str_eq, str_eq_iff, str_eq_refl, inl, inr, Bool-cases, All,
}
use open_rmf_adapters_quiksy.Base.Int.{ℤ, pos, sub_ℕ, ◌≤ℤ◌}
use open_rmf_adapters_quiksy.Lift.Session.{SessionManager, try_acquire}
use open_rmf_adapters_quiksy.Lift.Session.Valid.{IsValid}
use open_rmf_adapters_quiksy.Lift.Session.Lock.{
  LiftLock, lock_of, holder_name, grant, fresh, Call, acquire, finish, observe, lock_call, call,
}
use open_rmf_adapters_quiksy.Lift.Session.Refine.{
  call-Implements, run, lock_run, run-lock_run, run-IsValid, run-ttl,
}

-- `now` is not so late that a request stamped `since` is evicted.
abbrev pub InTime : ℤ → ℕ → ℕ → Type 0
InTime ttl since now = (ttl ≤ℤ pos 0) ⊎ (sub_ℕ now since ≤ℤ ttl)

abbrev pub IsStamped : Option (String × ℕ) → String → ℕ → Type 0
IsStamped none a since = ⊥
IsStamped (some (q, at)) a since = (q ≡ a) × (since ≤ at)

-- The lock is `a`'s by a request stamped `since` or later, and the server names nobody else.
pub record IsHeld (k : LiftLock) (a : String) (since : ℕ) : Type 0 where
  pub named : is_empty a ≡ false
  pub stamped : IsStamped k.request a since
  pub server : (holder_name k.holder ≡ "") ⊎ (holder_name k.holder ≡ a)

-- Calls that must not take the lift from `a`: anybody's requests, other sessions' releases, and
-- reports of the server that name `a`, as long as `a`'s request is not too old.
abbrev pub IsQuiet : ℤ → String → ℕ → Call → Type 0
IsQuiet ttl a since (acquire r now later) = InTime ttl since now × (since ≤ later)
IsQuiet ttl a since (finish r) = (r ≢ a) × (is_empty r ≡ false)
IsQuiet ttl a since (observe r now) = InTime ttl since now × (r ≡ a)

abbrev pub IsQuietOn : ℤ → String → String → ℕ → String × Call → Type 0
IsQuietOn ttl lift a since (j, c) = (j ≡ lift) → IsQuiet ttl a since c

module _ (ttl : ℤ) (a : String) (since : ℕ) where
  fresh_of_InTime :
      (now : ℕ) (q : Option (String × ℕ))
      → InTime ttl since now
      → IsStamped q a since
      → fresh ttl now q ≡ q
  fresh_of_InTime now none t h = elim h [ ]
  fresh_of_InTime now (some (q, at)) t h = ground arith

  grant-IsHeld :
      (k : LiftLock) (r : String) (later : ℕ)
      → IsHeld k a since
      → is_empty r ≡ false
      → since ≤ later
      → IsHeld (grant k.request k.holder r later).1 a since
        × ((grant k.request k.holder r later).0 ≡ str_eq a r)
  grant-IsHeld k r later h n s = ground (
    arith,
    h.named,
    h.stamped,
    h.server,
    str_eq_iff a r,
    str_eq_iff (holder_name k.holder) r,
    str_eq_iff r "",
    str_eq_refl a,
  )

  lock_call-IsHeld :
      (k : LiftLock) (c : Call)
      → IsHeld k a since
      → IsQuiet ttl a since c
      → IsHeld (lock_call ttl k c).1 a since
  lock_call-IsHeld k (acquire r now later) h q =
      ground (arith, fresh_of_InTime now k.request q.0 h.stamped, grant-IsHeld k r later h)
  lock_call-IsHeld k (finish r) h q = ground (
    arith,
    h.named,
    h.stamped,
    h.server,
    str_eq_iff a r,
    str_eq_iff (holder_name k.holder) r,
    str_eq_iff r "",
  )
  lock_call-IsHeld k (observe r now) h q =
      ground
        (arith, fresh_of_InTime now k.request q.0 h.stamped, h.named, h.stamped, str_eq_iff a r)

  lock_run-IsHeld :
      (lift : String) (k : LiftLock) (calls : List (String × Call))
      → IsHeld k a since
      → All (IsQuietOn ttl lift a since) calls
      → IsHeld (lock_run ttl lift k calls) a since
  unfolding lock_run
  lock_run-IsHeld lift k [] h q = h
  lock_run-IsHeld lift k ((j, c) ∷ rest) h q = elim (Bool-cases (str_eq j lift)) [
    | inl same ↦ rw same (
        lock_run-IsHeld lift (lock_call ttl k c).1 rest
          (lock_call-IsHeld k c h (q.0 ((str_eq_iff j lift).0 same))) q.1)
    | inr other ↦ rw other (lock_run-IsHeld lift k rest h q.1)
  ]

-- After a session was granted a lift that the server does not report for another, the lock is held
-- by it.
pub try_acquire-IsHeld :
    (s : SessionManager) (lift a : String) (now since : ℕ)
    → IsValid s
    → (try_acquire s lift a now since).0 ≡ true
    → (holder_name (lock_of s lift).holder ≡ "") ⊎ (holder_name (lock_of s lift).holder ≡ a)
    → IsHeld (lock_of (try_acquire s lift a now since).1 lift) a since
unfolding call
try_acquire-IsHeld s lift a now since v g h =
    let i = call-Implements s lift (acquire a now since) v in ground (arith, i.answer, i.lock)

-- A quiet call leaves the lift held.
pub call-IsHeld :
    (s : SessionManager) (lift a : String) (since : ℕ) (c : Call)
    → IsValid s
    → IsHeld (lock_of s lift) a since
    → IsQuiet s.ttl_seconds a since c
    → IsHeld (lock_of (call s lift c).1 lift) a since
call-IsHeld s lift a since c v h q =
    let i = call-Implements s lift c v in
    rw i.lock (lock_call-IsHeld s.ttl_seconds a since (lock_of s lift) c h q)

-- From a well-formed manager in which `a` holds the lift: through any calls on other lifts and any
-- quiet ones on this lift, a request of any session with a name, before `a`'s request is too old,
-- is granted exactly if it is `a`'s.
pub exclusive :
    (s : SessionManager) (lift a : String) (since : ℕ) (calls : List (String × Call))
    → IsValid s
    → IsHeld (lock_of s lift) a since
    → All (IsQuietOn s.ttl_seconds lift a since) calls
    → (b : String) (now later : ℕ) → is_empty b ≡ false
    → InTime s.ttl_seconds since now
    → since ≤ later
    → (try_acquire (run s calls) lift b now later).0 ≡ str_eq a b
unfolding call
exclusive s lift a since calls v h q b now later n t l =
    let i = call-Implements (run s calls) lift (acquire b now later) (run-IsValid s calls v) in
    let k = lock_of (run s calls) lift in
    let held : IsHeld k a since =
      rw (run-lock_run s lift calls v)
        (lock_run-IsHeld s.ttl_seconds a since lift (lock_of s lift) calls h q) in
    let f : fresh s.ttl_seconds now k.request ≡ k.request =
      fresh_of_InTime s.ttl_seconds a since now k.request t held.stamped in
    ground
      (arith, i.answer, f, run-ttl s calls v, grant-IsHeld s.ttl_seconds a since k b later held)
