-- ===== src/Lift/Session.antt =====
-- packages/lift_adapter_quiksync/lift_adapter_quiksync/session_manager.py: the adapter-side lock
-- that holds, for each lift, the session which RMF asked for last and the one that the server
-- reported last. A method takes the readings of `time.time()` that it makes, in order; the log calls
-- change nothing. `with self._lock` makes each method one step.
pub mod Valid
pub mod Lock
pub mod Refine
pub mod Exclusion
pub mod Reports
mod Tests
use open_rmf_adapters_quiksy.Base.{
  ℕ, String, Bool, true, false, not, ◌&&◌, ◌||◌, Option, none, some, [], or_default, is_empty,
  str_eq, if◌then◌else◌,
}
use open_rmf_adapters_quiksy.Base.Int.{ℤ, pos, sub_ℕ, ltb_ℤ, leb_ℤ}
use open_rmf_adapters_quiksy.Base.Dict.{Dict, get, put, remove}

pub record SessionManager : Type 0 where
  pub requested : Dict String
  pub requested_at : Dict ℕ
  pub server : Dict String
  pub ttl_seconds : ℤ

unfoldable pub new : ℤ → SessionManager
new ttl = record { requested = []; requested_at = []; server = []; ttl_seconds = ttl }

-- `self._requested.get(lift, "")` and `self._server.get(lift, "")`
abbrev pub current_request : SessionManager → String → String
current_request s lift = or_default (get s.requested lift) ""

abbrev pub current_server : SessionManager → String → String
current_server s lift = or_default (get s.server lift) ""

-- `self._requested.pop(lift, None); self._requested_at.pop(lift, None)`
unfoldable pub forget : SessionManager → String → SessionManager
forget s lift = record s {
  requested = remove s.requested lift;
  requested_at = remove s.requested_at lift;
}

-- `self._requested[lift] = session_id; self._requested_at[lift] = time.time()`
unfoldable pub claim : SessionManager → String → String → ℕ → SessionManager
claim s lift session_id now = record s {
  requested = put s.requested lift session_id;
  requested_at = put s.requested_at lift now;
}

unfoldable pub evict_stale_locked : SessionManager → String → ℕ → SessionManager
evict_stale_locked s lift now =
    if leb_ℤ s.ttl_seconds (pos 0) then s else elim (get s.requested_at lift) [
      | none ↦ s
      | some requested_at ↦
          if ltb_ℤ s.ttl_seconds (sub_ℕ now requested_at) then forget s lift else s
    ]

-- The critical section of `try_acquire`, after the eviction.
unfoldable pub acquire_locked : SessionManager → String → String → ℕ → Bool × SessionManager
acquire_locked s lift session_id later =
    if is_empty (current_request s lift) && is_empty (current_server s lift)
    then (true, claim s lift session_id later)
    else if str_eq (current_request s lift) session_id
    then (true, record s { requested_at = put s.requested_at lift later })
    else if str_eq (current_server s lift) session_id
    then (true, claim s lift session_id later)
    else (false, s)

-- `now` is read by the eviction, `later` by the branch that accepts.
unfoldable pub try_acquire : SessionManager → String → String → ℕ → ℕ → Bool × SessionManager
try_acquire s lift session_id now later =
    if is_empty session_id
    then (false, s)
    else acquire_locked (evict_stale_locked s lift now) lift session_id later

unfoldable pub release : SessionManager → String → String → Bool × SessionManager
release s lift session_id =
    if is_empty (current_request s lift) && is_empty (current_server s lift)
    then (true, s)
    else if str_eq (current_request s lift) session_id || str_eq (current_server s lift) session_id
    then (true, forget s lift)
    else (false, s)

-- The comparison of the two views that `observe_server_state` ends with.
unfoldable pub reconcile : SessionManager → String → String → SessionManager
reconcile s lift server_session_id =
    let current = current_request s lift in
    if not (is_empty current)
      && not (is_empty server_session_id)
      && not (str_eq current server_session_id)
    then forget s lift
    else if not (is_empty current) && is_empty server_session_id
    then forget s lift
    else s

unfoldable pub observe_server_state : SessionManager → String → String → ℕ → SessionManager
observe_server_state s lift server_session_id now =
    let seen = record s { server = put s.server lift server_session_id } in
    reconcile (evict_stale_locked seen lift now) lift server_session_id

-- `holder if holder else None`
abbrev pub named : String → Option String
named holder = if is_empty holder then none else some holder

unfoldable pub current_holder : SessionManager → String → ℕ → Option String × SessionManager
current_holder s lift now =
    let t = evict_stale_locked s lift now in
    (
      elim (get t.server lift) [
        | some holder ↦ named holder
        | none ↦ elim (get t.requested lift) [ some holder ↦ named holder | none ↦ none ]
      ],
      t,
    )
