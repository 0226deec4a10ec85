-- ===== src/Site/Finally.antt =====
-- adapter.py of the door and the lift adapter: the `finally` of `_run_full`.
use open_rmf_adapters_quiksy.Base.{ℕ, ◌&&◌, Bool, true, false, List, ◌∷◌, ◌≡◌, ◌∙◌, ap, refl, arith}
use open_rmf_adapters_quiksy.Base.Exec.{Result, ok, err, is_ok}
use open_rmf_adapters_quiksy.Base.Act.{Run, done, pure, ◌>>◌, continue, try_finally}
use open_rmf_adapters_quiksy.Base.Act.Keeps.{only, try_finally-calls}
use open_rmf_adapters_quiksy.Site.Section.{is_inner, ready_section-Keeps, ros_section-Keeps}
use open_rmf_adapters_quiksy.Site.{
  SiteCall, SiteWorld, SitePorts, site_call, set_node, set_adapter, ready_section, adapter_section,
  create_node, create_publisher, get_logger, ros_section, clean_up, run_full, init_ros,
  stop_adapter, destroy_node, shutdown_ros,
}

abbrev pub is_cleanup : SiteCall → Bool
is_cleanup stop_adapter = true
is_cleanup destroy_node = true
is_cleanup shutdown_ros = true
is_cleanup _ = false

is_cleanup-outer : (a : SiteCall) → is_inner a ≡ true → is_cleanup a ≡ false
is_cleanup-outer stop_adapter h = absurd (ground (arith, h))
is_cleanup-outer destroy_node h = absurd (ground (arith, h))
is_cleanup-outer shutdown_ros h = absurd (ground (arith, h))
is_cleanup-outer a h = refl

-- the calls of a cleaning up, the latest first, for what was made
abbrev pub cleaned : (node_made adapter_made : Bool) → List SiteCall → List SiteCall
cleaned true true log = shutdown_ros ∷ destroy_node ∷ stop_adapter ∷ log
cleaned true false log = shutdown_ros ∷ destroy_node ∷ log
cleaned false true log = shutdown_ros ∷ stop_adapter ∷ log
cleaned false false log = shutdown_ros ∷ log

module _ {S : Type 0} (io : SitePorts S) where
  abbrev pub cleanups : Run SiteCall (SiteWorld S) → List SiteCall
  cleanups s = only is_cleanup s.log

  -- The calls of the `finally` return.
  pub record CleansUp : Type 0 where
    pub stops : (w : S) → (io.outer stop_adapter w).0 ≡ ok tt
    pub destroys : (w : S) → (io.outer destroy_node w).0 ≡ ok tt

  clean_up-cleaned :
      (node_made adapter_made : Bool) (w : S) (log : List SiteCall)
      → CleansUp
      → cleanups
          (clean_up io (record {
            world = record { node_made = node_made; adapter_made = adapter_made; world = w };
            log = log;
          })).1
        ≡ cleaned node_made adapter_made (only is_cleanup log)
  unfolding clean_up
  clean_up-cleaned true true w log h =
      rw (h.stops w) (rw (h.destroys (io.outer stop_adapter w).1) refl)
  clean_up-cleaned true false w log h = rw (h.destroys w) refl
  clean_up-cleaned false true w log h = rw (h.stops w) refl
  clean_up-cleaned false false w log h = refl

  then_done :
      (p : Result (Unit {0}) × Run SiteCall (SiteWorld S))
      → cleanups (continue {Q = ℕ} p (λ x. done 0)).1 ≡ cleanups p.1
  then_done (ok x, s) = refl
  then_done (err e, s) = refl

  -- `ros_node` and `adapter_node` are set.
  abbrev made : Run SiteCall (SiteWorld S) → Bool × Bool
  made s = (s.world.node_made, s.world.adapter_made)

  abbrev without_adapter : Bool → S → List SiteCall → Run SiteCall (SiteWorld S)
  without_adapter node_made w log = record {
    world = record { node_made = node_made; adapter_made = false; world = w };
    log = log;
  }

  after_sessions :
      (n : Bool) (r : Result (Unit {0})) (w : S) (log : List SiteCall)
      → made (continue (r, without_adapter n w log) (λ x. set_adapter io >> ready_section io)).1
        ≡ (n, is_ok r)
  after_sessions n (ok x) w log =
      ready_section-Keeps io made (λ a h s. refl) (set_adapter io (without_adapter n w log)).1
  after_sessions n (err e) w log = refl

  after_logger :
      (n : Bool) (r : Result (Unit {0})) (w : S) (log : List SiteCall)
      → made
          (continue
            (r, without_adapter n w log)
            (λ x. pure io.sessions >> (set_adapter io >> ready_section io))).1
        ≡ (n, is_ok r && is_ok io.sessions)
  after_logger n (ok x) w log = after_sessions n io.sessions w log
  after_logger n (err e) w log = refl

  after_publisher :
      (n : Bool) (r : Result (Unit {0})) (w : S) (log : List SiteCall)
      → made
          (continue
            (r, without_adapter n w log)
            (λ x.
              site_call io get_logger
              >> (pure io.sessions >> (set_adapter io >> ready_section io)))).1
        ≡ (n, is_ok r && is_ok (io.outer get_logger w).0 && is_ok io.sessions)
  after_publisher n (ok x) w log =
      after_logger n (io.outer get_logger w).0 (io.outer get_logger w).1 (get_logger ∷ log)
  after_publisher n (err e) w log = refl

  -- All that is done before the adapter node is made returns: `create_publisher`, `get_logger` and, in
  -- the lift adapter, the session manager.
  abbrev pub comes_to_adapter : S → Bool
  comes_to_adapter w =
      let (r, w') = io.outer create_publisher w in
      is_ok r && is_ok (io.outer get_logger w').0 && is_ok io.sessions

  after_node :
      (r : Result (Unit {0})) (w : S) (log : List SiteCall)
      → made (continue (r, without_adapter false w log) (λ x. set_node io >> adapter_section io)).1
        ≡ (is_ok r, is_ok r && comes_to_adapter w)
  unfolding adapter_section
  after_node (ok x) w log =
      after_publisher true (io.outer create_publisher w).0 (io.outer create_publisher w).1
        (create_publisher ∷ log)
  after_node (err e) w log = refl

  ros_section-made :
      (w : S) (log : List SiteCall)
      → made (ros_section io (without_adapter false w log)).1
        ≡ (let (r, w') = io.outer create_node w in (is_ok r, is_ok r && comes_to_adapter w'))
  unfolding ros_section
  ros_section-made w log =
      after_node (io.outer create_node w).0 (io.outer create_node w).1 (create_node ∷ log)

  -- Where stopping the adapter and destroying the node return, and `rclpy.init()` returned: if
  -- `create_node` returned and so did all that is done before the adapter node is made, the `finally`
  -- stops the adapter; then, if `create_node` returned, it destroys the node; and then it shuts `rclpy`
  -- down.  Each is called once, whatever was raised before, and otherwise not at all.
  pub run_full-cleaned :
      (w : S) (log : List SiteCall)
      → CleansUp
      → (io.outer init_ros w).0 ≡ ok tt
      → let s : Run SiteCall (SiteWorld S) = record {
        world = record { node_made = false; adapter_made = false; world = w };
        log = log;
      } in
        let (node, after) = io.outer create_node (io.outer init_ros w).1 in
        cleanups (run_full io s).1
        ≡ cleaned (is_ok node) (is_ok node && comes_to_adapter after) (cleanups s)
  unfolding run_full
  run_full-cleaned w log h init =
      let s1 = without_adapter false (io.outer init_ros w).1 (init_ros ∷ log) in
      let u = (ros_section io s1).1 in
      rw init (
        then_done (try_finally (ros_section io) (clean_up io) s1)
        ∙ ap cleanups (try_finally-calls cleanups (ros_section io) (clean_up io) s1)
        ∙ clean_up-cleaned u.world.node_made u.world.adapter_made u.world.world u.log h
        ∙ ap (cleaned u.world.node_made u.world.adapter_made)
            (ros_section-Keeps io is_cleanup is_cleanup-outer s1)
        ∙ ap (λ m. cleaned m.0 m.1 (only is_cleanup log))
            (ros_section-made (io.outer init_ros w).1 (init_ros ∷ log)))
