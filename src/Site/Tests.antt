-- ===== src/Site/Tests.antt =====
-- Runs of the entry points of the door and the lift adapter.
use open_rmf_adapters_quiksy.Base.{
  ℕ, ◌+◌, ◌*◌, true, false, some, [], ◌∷◌, ◌≡◌, refl, arith, str_eq,
}
use open_rmf_adapters_quiksy.Base.Dict.{Dict, get, put}
use open_rmf_adapters_quiksy.Base.Exec.{Result, ok, err, keyboard_interrupt}
use open_rmf_adapters_quiksy.Base.Act.{Run, done}
use open_rmf_adapters_quiksy.Python.{Value, str, dict, end}
use open_rmf_adapters_quiksy.Pump.{frame_arrives, pump_step, run_frame, dispatch_frame, start, stop}
use open_rmf_adapters_quiksy.Site.{
  SiteCall, SiteWorld, SitePorts, spin, main_configured, run_mode, build_clients, run_full,
}
use open_rmf_adapters_quiksy.Python.Text.{strip_prefix}
use open_rmf_adapters_quiksy.Config.Url.{ws_base_url, ws_address}
use open_rmf_adapters_quiksy.Client.Ws.{close}
use open_rmf_adapters_quiksy.Site.Dry.{
  wait_until, started, dry_events, stop_all, total, counter, IsSome, run_dry, run_dry-IsSome,
}
use open_rmf_adapters_quiksy.Site.Finally.{CleansUp, cleanups, cleaned, run_full-cleaned}

-- ports that count the calls, where the spin is interrupted
abbrev answer : SiteCall → Result (Unit {0})
answer spin = err keyboard_interrupt
answer _ = ok tt

abbrev ports : SitePorts ℕ
ports = record { sessions = ok tt; outer = λ a n. (answer a, n + 1) }

abbrev at_start : Run SiteCall (SiteWorld ℕ)
at_start = record {
  world = record { node_made = false; adapter_made = false; world = 0 };
  log = [];
}

ports-CleansUp : CleansUp ports
ports-CleansUp = record { stops = λ w. refl; destroys = λ w. refl }

run_full-cleaned_example :
    cleanups ports (run_full ports at_start).1 ≡ cleaned true true (cleanups ports at_start)
run_full-cleaned_example = run_full-cleaned ports 0 [] ports-CleansUp refl

abbrev settings : Dict Value
settings = ("base_url", str "https://host") ∷ []

abbrev final : Result ℕ × Run SiteCall (SiteWorld ℕ)
final = main_configured ports (done 2) true settings at_start

main_ok : main_configured ports (done 2) true settings at_start ≡ (ok 2, final.1)
unfolding main_configured run_mode build_clients ws_base_url ws_address strip_prefix get str_eq
main_ok = refl

-- a clock that goes 50 a round, and no frame
run_dry-IsSome_example : IsSome (run_dry 61 3_000 (λ k. k * 50) (λ k. []) ("east" ∷ []))
run_dry-IsSome_example =
    run_dry-IsSome 61 3_000 60 (λ k. k * 50) (λ k. []) ("east" ∷ []) (omega arith) (omega arith)

-- a frame in the first pause ends the run with the code 0
one_frame :
    run_dry 2 3_000 (λ k. k * 50) (λ k. ("east", frame_arrives (dict end)) ∷ []) ("east" ∷ [])
    ≡ some 0
unfolding run_dry wait_until started dry_events stop_all total counter pump_step run_frame
    dispatch_frame start stop close put get str_eq
one_frame = refl
