-- ===== src/Site/Dry.antt =====
-- adapter.py of the door and the lift adapter: the dry run, which waits for a frame until a deadline.
-- The readings of the clock and the events of each pause are parameters.
use open_rmf_adapters_quiksy.Base.{
  ℕ, zero, suc, ◌+◌, ◌<◌, ◌≤◌, String, true, false, Option, none, some, List, [], ◌∷◌, ◌≡◌, ap,
  arith, inl, inr, Bool-cases, ltb, leb, ◌==◌, or_default, if◌then◌else◌,
}
use open_rmf_adapters_quiksy.Base.Dict.{Dict, get, put}
use open_rmf_adapters_quiksy.Base.Exec.{ok}
use open_rmf_adapters_quiksy.Client.Ws.{WsClient}
use open_rmf_adapters_quiksy.Pump.{StatePump, PumpEvent, Callback, new_pump, start, stop, pump_step}

-- The pumps by their names, the client that they share, and the counters.
pub record DryScene : Type 0 where
  pub pumps : Dict StatePump
  pub ws : WsClient
  pub seen : Dict ℕ

-- `_count` of the pump of a name: `seen[name] = seen.get(name, 0) + 1`
unfoldable pub counter : String → Callback (Dict ℕ)
counter name frame seen = (ok tt, put seen name (or_default (get seen name) 0 + 1))

-- `sum(seen.values())`
unfoldable pub total : Dict ℕ → ℕ
total [] = 0
total ((name, n) ∷ seen) = n + total seen

-- an event at the pump of a name
abbrev pub at_pump : String → PumpEvent → Option StatePump → DryScene → DryScene
at_pump name e none s = s
at_pump name e (some pump) s =
    let t = pump_step (counter name) e (record { pump = pump; ws = s.ws; world = s.seen }) in
    record { pumps = put s.pumps name t.pump; ws = t.ws; seen = t.world }

unfoldable pub dry_events : List (String × PumpEvent) → DryScene → DryScene
dry_events [] s = s
dry_events ((name, e) ∷ events) s = dry_events events (at_pump name e (get s.pumps name) s)

-- the pumps and the counters at the start, one of each for a name
unfoldable pub started : List String → DryScene → DryScene
started [] s = s
started (name ∷ names) s =
    started names (record s { pumps = put s.pumps name (start new_pump); seen = put s.seen name 0 })

-- The loop on fuel, at its k-th round; none stands for a loop that has not ended.
unfoldable pub wait_until :
    (fuel k deadline : ℕ) → (ℕ → ℕ) → (ℕ → List (String × PumpEvent)) → DryScene → Option DryScene
wait_until zero k deadline clock pauses s = none
wait_until (suc fuel) k deadline clock pauses s =
    let rest = wait_until fuel (suc k) deadline clock pauses (dry_events (pauses k) s) in
    if total s.seen == 0 then if leb deadline (clock k) then some s else rest else some s

-- `await pump.stop()` for each pump
unfoldable pub stop_all : Dict StatePump → DryScene → DryScene
stop_all [] s = s
stop_all ((name, pump) ∷ pumps) s =
    let t = stop {S = Dict ℕ} (record { pump = pump; ws = s.ws; world = s.seen }) in
    stop_all pumps (record s { pumps = put s.pumps name t.pump; ws = t.ws })

-- The exit code, once the loop has ended.
abbrev pub exit_code : Option DryScene → Option ℕ
exit_code none = none
exit_code (some s) = some (if ltb 0 (total (stop_all s.pumps s).seen) then 0 else 2)

unfoldable pub run_dry :
    (fuel timeout : ℕ) → (ℕ → ℕ) → (ℕ → List (String × PumpEvent)) → List String → Option ℕ
run_dry fuel timeout clock pauses names = exit_code (
    wait_until fuel 0 (clock 0 + timeout) (λ k. clock (suc k)) pauses
      (started names
        (record { pumps = []; ws = record { closed = false; failure_times = [] }; seen = [] })))

abbrev pub IsSome {ℓ} : {A : Type ℓ} → Option A → Type 0
IsSome none = ⊥
IsSome (some a) = Unit

reached_now :
    (k deadline : ℕ) (clock : ℕ → ℕ) → deadline ≤ clock (k + 0) → leb deadline (clock k) ≡ true
reached_now k deadline clock h =
    let same : clock (k + 0) ≡ clock k = ap clock (omega arith) in ground (arith, h, same)

later_reached :
    (k n deadline : ℕ) (clock : ℕ → ℕ) → deadline ≤ clock (k + suc n) → deadline ≤ clock (suc k + n)
later_reached k n deadline clock h =
    let same : clock (k + suc n) ≡ clock (suc k + n) = ap clock (omega arith) in
    omega (arith, h, same)

reached_from :
    (n timeout : ℕ) (clock : ℕ → ℕ)
    → clock 0 + timeout ≤ clock (suc n)
    → clock 0 + timeout ≤ clock (suc (0 + n))
reached_from n timeout clock h =
    let same : clock (suc n) ≡ clock (suc (0 + n)) = ap clock (omega arith) in
    omega (arith, h, same)

wait_until-IsSome :
    (fuel k deadline n : ℕ) (clock : ℕ → ℕ) (pauses : ℕ → List (String × PumpEvent)) (s : DryScene)
    → n < fuel
    → deadline ≤ clock (k + n)
    → IsSome (wait_until fuel k deadline clock pauses s)
unfolding wait_until
wait_until-IsSome zero k deadline n clock pauses s h reached = absurd (omega (arith, h))
wait_until-IsSome (suc fuel) k deadline zero clock pauses s h reached =
    elim (Bool-cases (total s.seen == 0)) [
      | inr some_seen ↦ rw some_seen tt
      | inl none_seen ↦ rw none_seen (rw (reached_now k deadline clock reached) tt)
    ]
wait_until-IsSome (suc fuel) k deadline (suc n) clock pauses s h reached =
    let later =
      wait_until-IsSome fuel (suc k) deadline n clock pauses (dry_events (pauses k) s)
        (omega (arith, h)) (later_reached k n deadline clock reached) in
    elim (Bool-cases (total s.seen == 0)) [
      | inr some_seen ↦ rw some_seen tt
      | inl none_seen ↦ elim (Bool-cases (leb deadline (clock k))) [
        | inl late ↦ rw (none_seen, late) tt
        | inr early ↦ rw (none_seen, early) later
      ]
    ]

exit_code-IsSome : (o : Option DryScene) → IsSome o → IsSome (exit_code o)
exit_code-IsSome none h = h
exit_code-IsSome (some s) h = tt

-- Whatever comes in, the dry run ends: once the clock has reached the deadline in a round before the
-- fuel is used up, there is an exit code.
pub run_dry-IsSome :
    (fuel timeout n : ℕ) (clock : ℕ → ℕ) (pauses : ℕ → List (String × PumpEvent))
    (names : List String)
    → n < fuel
    → clock 0 + timeout ≤ clock (suc n)
    → IsSome (run_dry fuel timeout clock pauses names)
unfolding run_dry
run_dry-IsSome fuel timeout n clock pauses names h reached = exit_code-IsSome _ (
    wait_until-IsSome fuel 0 (clock 0 + timeout) n (λ k. clock (suc k)) pauses _ h
      (reached_from n timeout clock reached))
