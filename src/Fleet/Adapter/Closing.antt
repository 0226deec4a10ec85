-- ===== src/Fleet/Adapter/Closing.antt =====
-- adapter.py of the fleet adapter: the clients are closed.
use open_rmf_adapters_quiksy.Base.{
  if◌then◌else◌, ℕ, Bool, true, false, Option, none, some, List, ◌∷◌, ◌||◌, ◌⊎◌, ◌≡◌, ◌∙◌, sym, ap,
  refl, inl, inr, arith, Bool-cases,
}
use open_rmf_adapters_quiksy.Base.Dict.{Dict, get}
use open_rmf_adapters_quiksy.Base.Exec.{err, config_error, Result, ok, err≢ok, ok-inj}
use open_rmf_adapters_quiksy.Base.Act.{
  Run, done, call, pure, ◌>>=◌, ◌>>◌, try_finally, is_exception,
}
use open_rmf_adapters_quiksy.Base.Act.Keeps.{
  only, Keeps, bind-Keeps, then-Keeps, try_finally-Keeps, try_except-Keeps, call-Keeps,
  continue-eq-ok,
}
use open_rmf_adapters_quiksy.Python.{Value}
use open_rmf_adapters_quiksy.Python.Runtime.{Runtime}
use open_rmf_adapters_quiksy.Fleet.Binding.{
  FleetCall, init_ros, shutdown_ros, import_rclpy, import_rmf_adapter, close_ws, close_http,
  close_auth, FleetWorld, AdapterPorts, FleetAct, outside, store,
}
use open_rmf_adapters_quiksy.Pump.{PumpEvent}
use open_rmf_adapters_quiksy.Fleet.Robot.{RmfPorts}
use open_rmf_adapters_quiksy.Fleet.Adapter.Dry.{dry_mode}
use open_rmf_adapters_quiksy.Fleet.Adapter.Discovery.{
  build_robot_handles, OneSide, fetch_fleet_entry-OneSide,
}
use open_rmf_adapters_quiksy.Fleet.Adapter.{
  Arguments, EntryPorts, is_set, imported, is_import_error, ros_section, shut_down, with_rclpy,
  run_full, run_mode, with_entry, fetch, choose_mode, build_clients, main_configured, main,
}
use open_rmf_adapters_quiksy.Fleet.Adapter.Section.{IsOuter, ros_section-Keeps}

abbrev pub is_close : FleetCall → Bool
is_close close_ws = true
is_close close_http = true
is_close close_auth = true
is_close _ = false

is_close-IsOuter : IsOuter is_close
is_close-IsOuter = record {
  bindings = λ b. refl;
  requests = λ q. refl;
  rclcpp = refl;
  sim = refl;
  start = refl;
  spawn = refl;
  executor = refl;
  node = refl;
  spinning = refl;
  stop = refl;
  join = refl;
  shutdown = refl;
}

module _ {H S V B G C : Type 0} (rt : Runtime) (io : AdapterPorts S V B G C)
    (entry_io : EntryPorts S) where
  abbrev pub closings : Run FleetCall (FleetWorld H S) → List FleetCall
  closings s = only is_close s.log

  abbrev pub ClosesNothing : {R : Type 0} → FleetAct H S R → Type 0
  ClosesNothing m = Keeps closings m

  with_rclpy-ClosesNothing :
      (args : Arguments) (settings : Dict Value) (entry : Option Value) (found : Bool)
      → ClosesNothing (with_rclpy rt io entry_io args settings entry found)
  unfolding with_rclpy
  with_rclpy-ClosesNothing args settings entry false = λ s. refl
  with_rclpy-ClosesNothing args settings entry true =
      then-Keeps closings (call init_ros (outside entry_io.rclpy_init))
        (try_finally (ros_section rt io entry_io args settings entry) (shut_down rt io entry_io))
        (λ s. refl)
        (try_finally-Keeps closings (ros_section rt io entry_io args settings entry)
          (shut_down rt io entry_io)
          (ros_section-Keeps rt io entry_io is_close is_close-IsOuter args settings entry)
          (try_except-Keeps closings is_exception
            (call shutdown_ros (outside entry_io.rclpy_shutdown)) (done tt) (λ s. refl)
            (λ s. refl)))

  imported-ClosesNothing :
      (a : FleetCall) (port : S → Result (Unit {0}) × S)
      → is_close a ≡ false
      → ClosesNothing (imported rt io entry_io a port)
  imported-ClosesNothing a port h =
      try_except-Keeps closings is_import_error (call a (outside port) >> done true) (done false)
        (then-Keeps closings (call a (outside port)) (done true)
          (call-Keeps is_close a (outside port) h) (λ s. refl))
        (λ s. refl)

  run_full-ClosesNothing :
      (args : Arguments) (settings : Dict Value) (entry : Option Value)
      → ClosesNothing (run_full rt io entry_io args settings entry)
  unfolding run_full
  run_full-ClosesNothing args settings entry =
      bind-Keeps closings (imported rt io entry_io import_rclpy entry_io.load_rclpy)
        (with_rclpy rt io entry_io args settings entry)
        (imported-ClosesNothing import_rclpy entry_io.load_rclpy refl)
        (with_rclpy-ClosesNothing args settings entry)

  -- The closing calls of the main thread: all three clients after a full run; after a dry run too, which
  -- has closed the socket once before; or the two that made requests, after a discovery without the
  -- fleet.
  abbrev pub Closed :
      Bool → Run FleetCall (FleetWorld H S) → Run FleetCall (FleetWorld H S) → ℕ → Type 0
  Closed asked s t code =
      ((asked ≡ false) × (closings t ≡ close_auth ∷ close_http ∷ close_ws ∷ closings s))
      ⊎ ((closings t ≡ close_auth ∷ close_http ∷ close_ws ∷ close_ws ∷ closings s)
          ⊎ ((closings t ≡ close_http ∷ close_auth ∷ closings s) × ((code ≡ 3) ⊎ (code ≡ 4))))

  module _ (dry : FleetAct H S ℕ)
      (dry_closes : (s : Run FleetCall (FleetWorld H S))
        → closings (dry s).1 ≡ close_ws ∷ closings s) where
    -- Both modes end by closing the three clients, the socket first, whatever they return or raise; a
    -- dry run has closed the socket before.
    pub run_mode-closings :
        (args : Arguments) (settings : Dict Value) (entry : Option Value) (dry_run : Bool)
        (s : Run FleetCall (FleetWorld H S))
        → closings (run_mode rt io entry_io dry args settings entry dry_run s).1
          ≡ close_auth
            ∷ close_http
            ∷ close_ws
            ∷ (if dry_run then close_ws ∷ closings s else closings s)
    unfolding run_mode
    run_mode-closings args settings entry true s =
        ap (λ calls. close_auth ∷ close_http ∷ close_ws ∷ calls) (dry_closes s)
    run_mode-closings args settings entry false s =
        ap (λ calls. close_auth ∷ close_http ∷ close_ws ∷ calls)
          (run_full-ClosesNothing args settings entry s)

    run_mode-Closed :
        (args : Arguments) (settings : Dict Value) (entry : Option Value) (dry_run : Bool)
        (s u : Run FleetCall (FleetWorld H S)) {code : ℕ} {t : Run FleetCall (FleetWorld H S)}
        → (dry_run ≡ false → args.dry_run ≡ false)
        → closings s ≡ closings u
        → run_mode rt io entry_io dry args settings entry dry_run s ≡ (ok code, t)
        → Closed args.dry_run u t code
    run_mode-Closed args settings entry false s u flag same h = inl (
      flag refl,
      sym (ap (λ x. closings x.1) h)
          ∙ run_mode-closings args settings entry false s
          ∙ ap (λ calls. close_auth ∷ close_http ∷ close_ws ∷ calls) same,
    )
    run_mode-Closed args settings entry true s u flag same h = inr (
        inl (
          sym (ap (λ x. closings x.1) h)
          ∙ run_mode-closings args settings entry true s
          ∙ ap (λ calls. close_auth ∷ close_http ∷ close_ws ∷ close_ws ∷ calls) same))

    some-inj : {a b : ℕ} → some a ≡ some b → a ≡ b
    some-inj h = cc

    code_of :
        (r : Result Value) (name : Value) (code : ℕ) (entry : Option Value)
        → OneSide rt r name (entry, some code)
        → (code ≡ 3) ⊎ (code ≡ 4)
    code_of (err e) name code entry (caught, q) = inl (some-inj (ap (λ x. x.1) q))
    code_of (ok discovery) name code entry (fleets, g, some e, p, q) =
        absurd (ground (arith, ap (λ x. x.1) q))
    code_of (ok discovery) name code entry (fleets, g, none, p, q) =
        inr (some-inj (ap (λ x. x.1) q))

    with_entry-Closed :
        (args : Arguments) (settings : Dict Value) (dry_run : Bool) (r : Result Value)
        (name : Value) (found : Option Value × Option ℕ) (s u : Run FleetCall (FleetWorld H S))
        {code : ℕ} {t : Run FleetCall (FleetWorld H S)}
        → (dry_run ≡ false → args.dry_run ≡ false)
        → OneSide rt r name found
        → closings s ≡ closings u
        → with_entry rt io entry_io dry args settings dry_run found s ≡ (ok code, t)
        → Closed args.dry_run u t code
    unfolding with_entry
    with_entry-Closed args settings dry_run r name (entry, some code) s u flag one same h =
        let codes = code_of r name code entry one in
        inr (
          inr (
            sym (ap (λ x. closings x.1) h) ∙ ap (λ calls. close_http ∷ close_auth ∷ calls) same,
            rw (← (ok-inj (ap (λ x. x.0) h))) codes,
          ))
    with_entry-Closed args settings dry_run r name (none, none) s u flag one same h =
        absurd (err≢ok (ap (λ x. x.0) h))
    with_entry-Closed args settings dry_run r name (some entry, none) s u flag one same h =
        let (done, s1, p1, h1) =
          continue-eq-ok ((pure (build_robot_handles entry) >>= store) s) _ h in
        let (built, s2, p2, h2) = continue-eq-ok (pure (build_robot_handles entry) s) store p1 in
        run_mode-Closed args settings (some entry) dry_run s1 u flag
          (sym (ap (λ x. closings x.1) h2) ∙ sym (ap (λ x. closings x.1) p2) ∙ same) h1

    choose_mode-Closed :
        (args : Arguments) (settings : Dict Value) (dry_run : Bool)
        (s u : Run FleetCall (FleetWorld H S)) {code : ℕ} {t : Run FleetCall (FleetWorld H S)}
        → (dry_run ≡ false → args.dry_run ≡ false)
        → closings s ≡ closings u
        → choose_mode rt io entry_io dry args settings dry_run s ≡ (ok code, t)
        → Closed args.dry_run u t code
    unfolding choose_mode fetch
    choose_mode-Closed args settings dry_run s u flag same h =
        elim (Bool-cases (is_set (get settings "dynamic_mode") || dry_run)) [
          | inl needed ↦
              (let (found, s1, p1, h1) =
                  continue-eq-ok (fetch rt io entry_io settings s) _ (rw needed at h) in
                with_entry-Closed args settings dry_run _ _ found s1 u flag
                  (fetch_fleet_entry-OneSide rt _ _ (ap (λ x. x.0) p1))
                  (sym (ap (λ x. closings x.1) p1) ∙ same) h1)
          | inr unneeded ↦
              run_mode-Closed args settings none dry_run s u flag same (rw unneeded at h)
        ]

    main_configured-Closed :
        (args : Arguments) (settings : Dict Value) (s : Run FleetCall (FleetWorld H S)) {code : ℕ}
        {t : Run FleetCall (FleetWorld H S)}
        → main_configured rt io entry_io dry args settings s ≡ (ok code, t)
        → Closed args.dry_run s t code
    unfolding main_configured
    main_configured-Closed args settings s h =
        let (url, s1, p1, h1) = continue-eq-ok (pure (build_clients settings) s) _ h in
        let (found, s2, p2, h2) =
          continue-eq-ok (imported rt io entry_io import_rmf_adapter entry_io.load_rmf_adapter s1) _
            h1 in
        choose_mode-Closed args settings _ s2 s (λ full. ground (arith, full))
          (sym (ap (λ x. closings x.1) p2)
            ∙ imported-ClosesNothing import_rmf_adapter entry_io.load_rmf_adapter refl s1
            ∙ sym (ap (λ x. closings x.1) p1))
          h2

module _ {H S T V B G C : Type 0} (rt : Runtime) (io : AdapterPorts S V B G C)
    (entry_io : EntryPorts S) (robot_io : RmfPorts S T H) (pauses : List (List PumpEvent)) where
  dry_mode-closes :
      (s : Run FleetCall (FleetWorld H S))
      → closings rt io entry_io (dry_mode rt robot_io entry_io.closed_ws pauses s).1
        ≡ close_ws ∷ closings rt io entry_io s
  dry_mode-closes s = refl

  -- Where `main` returns a code, of the calls of `close` that its thread makes: either the settings were
  -- refused by a `ConfigError`, the code is 1 and there are none; or no dry run was asked for and the
  -- three clients are closed, each once, the socket first; or a dry run has closed the socket and the
  -- three are closed after it in this order; or the code is 3 or 4, and only the two clients that make
  -- requests are closed, each once.
  pub main-Closed :
      (args : Arguments) (loaded : Result (Dict Value)) (s : Run FleetCall (FleetWorld H S))
      {code : ℕ} {t : Run FleetCall (FleetWorld H S)}
      → main rt io entry_io (dry_mode rt robot_io entry_io.closed_ws pauses) args loaded s
        ≡ (ok code, t)
      → ((loaded ≡ err config_error)
          × (code ≡ 1)
          × (closings rt io entry_io t ≡ closings rt io entry_io s))
        ⊎ Closed rt io entry_io args.dry_run s t code
  unfolding main
  main-Closed args (ok settings) s h = inr (
      main_configured-Closed rt io entry_io (dry_mode rt robot_io entry_io.closed_ws pauses)
        dry_mode-closes args settings s h)
  main-Closed args (err config_error) s h =
      inl (refl, sym (ok-inj (ap (λ x. x.0) h)), sym (ap (λ x. closings rt io entry_io x.1) h))
  main-Closed args (err e) s h = absurd (err≢ok (ap (λ x. x.0) h))
