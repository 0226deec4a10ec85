-- ===== src/Lift/Session/Valid.antt =====
-- session_manager.py: the invariant of the maps, and that every method keeps it.
use open_rmf_adapters_quiksy.Base.{
  ℕ, String, false, Option, none, some, ◌≡◌, arith, is_empty, str_eq_iff, str_eq_refl,
}
use open_rmf_adapters_quiksy.Base.Int.{ℤ}
use open_rmf_adapters_quiksy.Base.Dict.{get, put, get-put, get-remove}
use open_rmf_adapters_quiksy.Lift.Session.{
  SessionManager, new, current_request, forget, claim, evict_stale_locked, acquire_locked,
  try_acquire, release, reconcile, observe_server_state,
}

-- Every request that is held has a time stamp and a name, on every lift.
abbrev pub IsPaired : Option String → Option ℕ → Type 0
IsPaired none none = Unit
IsPaired (some r) (some t) = is_empty r ≡ false
IsPaired _ _ = ⊥

pub record IsValid (s : SessionManager) : Type 0 where
  pub paired : (l : String) → IsPaired (get s.requested l) (get s.requested_at l)

pub new-IsValid : (ttl : ℤ) → IsValid (new ttl)
unfolding new get
new-IsValid ttl = record { paired = λ l. tt }

forget-IsValid : (s : SessionManager) (lift : String) → IsValid s → IsValid (forget s lift)
unfolding forget
forget-IsValid s lift v = record {
  paired = λ l.
      ground (arith, v.paired l, get-remove s.requested lift l, get-remove s.requested_at lift l);
}

claim-IsValid :
    (s : SessionManager) (lift r : String) (now : ℕ)
    → is_empty r ≡ false
    → IsValid s
    → IsValid (claim s lift r now)
unfolding claim
claim-IsValid s lift r now h v = record {
  paired = λ l.
      ground (arith, v.paired l, get-put s.requested lift l r, get-put s.requested_at lift l now);
}

pub evict-IsValid :
    (s : SessionManager) (lift : String) (now : ℕ)
    → IsValid s
    → IsValid (evict_stale_locked s lift now)
unfolding evict_stale_locked
evict-IsValid s lift now v = ground (arith, forget-IsValid s lift v)

refresh-IsValid :
    (s : SessionManager) (lift : String) (later : ℕ)
    → is_empty (current_request s lift) ≡ false
    → IsValid s
    → IsValid (record s { requested_at = put s.requested_at lift later })
refresh-IsValid s lift later h v = record {
  paired = λ l.
      ground
        (arith, v.paired l, str_eq_iff lift l, get-put s.requested_at lift l later, str_eq_refl "");
}

acquire_locked-IsValid :
    (s : SessionManager) (lift r : String) (later : ℕ)
    → is_empty r ≡ false
    → IsValid s
    → IsValid (acquire_locked s lift r later).1
unfolding acquire_locked
acquire_locked-IsValid s lift r later h v = ground (
  arith,
  claim-IsValid s lift r later h v,
  refresh-IsValid s lift later,
  str_eq_iff (current_request s lift) r,
)

pub try_acquire-IsValid :
    (s : SessionManager) (lift r : String) (now later : ℕ)
    → IsValid s
    → IsValid (try_acquire s lift r now later).1
unfolding try_acquire
try_acquire-IsValid s lift r now later v = ground (
  arith,
  acquire_locked-IsValid (evict_stale_locked s lift now) lift r later,
  evict-IsValid s lift now v,
)

pub release-IsValid :
    (s : SessionManager) (lift r : String) → IsValid s → IsValid (release s lift r).1
unfolding release
release-IsValid s lift r v = ground (arith, forget-IsValid s lift v)

reconcile-IsValid :
    (s : SessionManager) (lift r : String) → IsValid s → IsValid (reconcile s lift r)
unfolding reconcile
reconcile-IsValid s lift r v = ground (arith, forget-IsValid s lift v)

pub observe_server_state-IsValid :
    (s : SessionManager) (lift r : String) (now : ℕ)
    → IsValid s
    → IsValid (observe_server_state s lift r now)
unfolding observe_server_state
observe_server_state-IsValid s lift r now v =
    let seen : SessionManager = record s { server = put s.server lift r } in
    reconcile-IsValid (evict_stale_locked seen lift now) lift r
      (evict-IsValid seen lift now (record { paired = v.paired }))
