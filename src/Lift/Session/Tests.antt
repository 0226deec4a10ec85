-- ===== src/Lift/Session/Tests.antt =====
-- The session manager on concrete calls.
use open_rmf_adapters_quiksy.Base.{
  String, true, false, none, some, List, [], ◌∷◌, ◌≡◌, ◌⊎◌, refl, arith, inl, inr, str_eq,
  str_eq_iff, ◌≢◌, All,
}
use open_rmf_adapters_quiksy.Base.Int.{pos}
use open_rmf_adapters_quiksy.Base.Dict.{get, put, remove}
use open_rmf_adapters_quiksy.Lift.Session.{
  SessionManager, new, forget, claim, evict_stale_locked, acquire_locked, try_acquire, reconcile,
  observe_server_state, current_holder,
}
use open_rmf_adapters_quiksy.Lift.Session.Valid.{IsValid, new-IsValid, try_acquire-IsValid}
use open_rmf_adapters_quiksy.Lift.Session.Lock.{lock_of, Call, acquire, finish, observe}
use open_rmf_adapters_quiksy.Lift.Session.Refine.{
  Implements, call-Implements, run, lock_run, run-lock_run,
}
use open_rmf_adapters_quiksy.Lift.Session.Exclusion.{
  IsHeld, IsQuietOn, try_acquire-IsHeld, exclusive,
}
use open_rmf_adapters_quiksy.Lift.Session.Reports.{reports, reports_never_renew}

-- "fleet_a" is granted "lobby" at time 10, with a time to live of 100.
abbrev start : SessionManager
start = new (pos 100)

abbrev granted : SessionManager
granted = (try_acquire start "lobby" "fleet_a" 10 10).1

start-IsValid : IsValid start
start-IsValid = new-IsValid (pos 100)

granted-IsValid : IsValid granted
granted-IsValid = try_acquire-IsValid start "lobby" "fleet_a" 10 10 start-IsValid

granted_at_start : (try_acquire start "lobby" "fleet_a" 10 10).0 ≡ true
unfolding try_acquire acquire_locked evict_stale_locked new get str_eq
granted_at_start = refl

stale_is_evicted : (try_acquire granted "lobby" "fleet_b" 111 111).0 ≡ true
unfolding try_acquire acquire_locked evict_stale_locked new get put remove forget claim str_eq
stale_is_evicted = refl

holder_after_report :
    (current_holder (observe_server_state granted "lobby" "fleet_b" 20) "lobby" 20).0
    ≡ some "fleet_b"
unfolding current_holder observe_server_state reconcile try_acquire acquire_locked
    evict_stale_locked new get put remove forget claim str_eq
holder_after_report = refl

call-Implements_example : Implements granted "lobby" (observe "fleet_a" 20)
call-Implements_example = call-Implements granted "lobby" (observe "fleet_a" 20) granted-IsValid

abbrev script : List (String × Call)
script =
    ("lobby", acquire "fleet_b" 20 20)
    ∷ ("annex", acquire "fleet_b" 20 21)
    ∷ ("lobby", finish "fleet_b")
    ∷ ("lobby", observe "fleet_a" 30)
    ∷ []

run-lock_run_example :
    lock_of (run granted script) "lobby"
    ≡ lock_run granted.ttl_seconds "lobby" (lock_of granted "lobby") script
run-lock_run_example = run-lock_run granted "lobby" script granted-IsValid

granted-IsHeld : IsHeld (lock_of granted "lobby") "fleet_a" 10
unfolding lock_of new get
granted-IsHeld =
    try_acquire-IsHeld start "lobby" "fleet_a" 10 10 start-IsValid granted_at_start (inl refl)

names_differ : (b : String) (h : str_eq "fleet_a" b ≡ false) → b ≢ "fleet_a"
names_differ b h e = ground (arith, str_eq_iff "fleet_a" b)

annex_elsewhere : ◌≢◌ {A = String} "annex" "lobby"
unfolding str_eq
annex_elsewhere e = ground (arith, str_eq_iff "annex" "lobby")

script_is_quiet : All (IsQuietOn granted.ttl_seconds "lobby" "fleet_a" 10) script
unfolding try_acquire acquire_locked evict_stale_locked new get claim str_eq
script_is_quiet = (
  λ e. (inr (omega arith), omega arith),
  (
    λ e. absurd (annex_elsewhere e),
    (λ e. (names_differ "fleet_b" refl, refl), (λ e. (inr (omega arith), refl), tt)),
  ),
)

exclusive_example :
    (try_acquire (run granted script) "lobby" "fleet_b" 40 40).0 ≡ str_eq "fleet_a" "fleet_b"
unfolding try_acquire acquire_locked evict_stale_locked new get claim str_eq
exclusive_example =
    exclusive granted "lobby" "fleet_a" 10 script granted-IsValid granted-IsHeld script_is_quiet
      "fleet_b" 40 40 refl (inr (omega arith)) (omega arith)

reports_never_renew_example :
    let k = lock_of (reports granted "lobby" (("fleet_a", 50) ∷ [])) "lobby" in
    (k.request ≡ (lock_of granted "lobby").request) ⊎ (k.request ≡ none)
reports_never_renew_example =
    reports_never_renew granted "lobby" (("fleet_a", 50) ∷ []) granted-IsValid
