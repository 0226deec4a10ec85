-- ===== src/Site/Cleanup.antt =====
-- adapter.py of the door and the lift adapter: what is cleaned up.
use open_rmf_adapters_quiksy.Base.{
  ℕ, Bool, true, false, not, ◌||◌, List, ◌∷◌, ◌≡◌, ◌∙◌, sym, ap, refl, arith,
}
use open_rmf_adapters_quiksy.Base.Dict.{Dict}
use open_rmf_adapters_quiksy.Base.Exec.{ok}
use open_rmf_adapters_quiksy.Base.Act.{Run, done, pure, ◌>>◌, when, try_finally, is_exception}
use open_rmf_adapters_quiksy.Base.Act.Keeps.{
  only, Keeps, then-Keeps, try_finally-Keeps, try_except-Keeps, when-Keeps, continue-eq-ok,
}
use open_rmf_adapters_quiksy.Python.{Value}
use open_rmf_adapters_quiksy.Site.Section.{is_inner, ros_section-Keeps}
use open_rmf_adapters_quiksy.Site.{
  SiteCall, SiteWorld, SitePorts, SiteAct, site_call, ros_section, clean_up, run_full, imported,
  run_mode, build_clients, main_configured, import_rclpy, import_messages, init_ros, stop_adapter,
  destroy_node, shutdown_ros, close_ws, close_http, close_auth,
}

abbrev pub is_close : SiteCall → Bool
is_close close_ws = true
is_close close_http = true
is_close close_auth = true
is_close _ = false

is_close-outer : (a : SiteCall) → is_inner a ≡ true → is_close a ≡ false
is_close-outer close_ws h = absurd (ground (arith, h))
is_close-outer close_http h = absurd (ground (arith, h))
is_close-outer close_auth h = absurd (ground (arith, h))
is_close-outer a h = refl

module _ {S : Type 0} (io : SitePorts S) where
  abbrev pub closings : Run SiteCall (SiteWorld S) → List SiteCall
  closings s = only is_close s.log

  clean_up-Keeps : Keeps closings (clean_up io)
  unfolding clean_up
  clean_up-Keeps s =
      then-Keeps closings (when s.world.adapter_made (site_call io stop_adapter))
        (when s.world.node_made (site_call io destroy_node) >> site_call io shutdown_ros)
        (when-Keeps closings s.world.adapter_made (site_call io stop_adapter) (λ s. refl))
        (then-Keeps closings (when s.world.node_made (site_call io destroy_node))
          (site_call io shutdown_ros)
          (when-Keeps closings s.world.node_made (site_call io destroy_node) (λ s. refl))
          (λ s. refl))
        s

  run_full-Keeps : Keeps closings (run_full io)
  unfolding run_full
  run_full-Keeps =
      then-Keeps closings (site_call io init_ros)
        (try_finally (ros_section io) (clean_up io) >> done 0) (λ s. refl)
        (then-Keeps closings (try_finally (ros_section io) (clean_up io)) (done 0)
          (try_finally-Keeps closings (ros_section io) (clean_up io)
            (ros_section-Keeps io is_close is_close-outer) clean_up-Keeps)
          (λ s. refl))

  imported-Keeps : (a : SiteCall) → is_close a ≡ false → Keeps closings (imported io a)
  imported-Keeps a h =
      try_except-Keeps closings is_exception (site_call io a >> done true) (done false)
        (then-Keeps closings (site_call io a) (done true) (λ s. rw h refl) (λ s. refl)) (λ s. refl)

  module _ (dry : SiteAct S ℕ) (dry_quiet : Keeps closings dry) where
    run_mode-closings :
        (dry_run : Bool) (s : Run SiteCall (SiteWorld S))
        → closings (run_mode io dry dry_run s).1 ≡ close_auth ∷ close_http ∷ close_ws ∷ closings s
    unfolding run_mode
    run_mode-closings true s =
        ap (λ calls. close_auth ∷ close_http ∷ close_ws ∷ calls) (dry_quiet s)
    run_mode-closings false s =
        ap (λ calls. close_auth ∷ close_http ∷ close_ws ∷ calls) (run_full-Keeps s)

    -- Where `main` returns a code after its settings were accepted, it has closed the three clients, each
    -- once, the socket first.
    pub main_configured-closings :
        (dry_run : Bool) (settings : Dict Value) (s : Run SiteCall (SiteWorld S)) {code : ℕ}
        {t : Run SiteCall (SiteWorld S)}
        → main_configured io dry dry_run settings s ≡ (ok code, t)
        → closings t ≡ close_auth ∷ close_http ∷ close_ws ∷ closings s
    unfolding main_configured
    main_configured-closings dry_run settings s h =
        let (url, s1, p1, h1) = continue-eq-ok (pure (build_clients settings) s) _ h in
        let (rclpy, s2, p2, h2) = continue-eq-ok (imported io import_rclpy s1) _ h1 in
        let (messages, s3, p3, h3) = continue-eq-ok (imported io import_messages s2) _ h2 in
        sym (ap (λ x. closings x.1) h3)
        ∙ run_mode-closings (dry_run || not rclpy || not messages) s3
        ∙ ap (λ calls. close_auth ∷ close_http ∷ close_ws ∷ calls)
            (sym (ap (λ x. closings x.1) p3)
              ∙ imported-Keeps import_messages refl s2
              ∙ sym (ap (λ x. closings x.1) p2)
              ∙ imported-Keeps import_rclpy refl s1
              ∙ sym (ap (λ x. closings x.1) p1))
