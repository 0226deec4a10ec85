-- ===== src/Site/Section.antt =====
-- adapter.py of the door and the lift adapter: which calls are made inside the `try`.
use open_rmf_adapters_quiksy.Base.{Bool, true, false, List, ◌≡◌, refl}
use open_rmf_adapters_quiksy.Base.Act.{Run, done, pure, ◌>>◌, try_except, is_interrupt}
use open_rmf_adapters_quiksy.Base.Act.Keeps.{
  only, Keeps, then-Keeps, try_finally-Keeps, try_except-Keeps,
}
use open_rmf_adapters_quiksy.Site.{
  SiteCall, SiteWorld, SitePorts, site_call, set_node, set_adapter, spin_section, ready_section,
  adapter_section, ros_section, create_node, create_publisher, get_logger, create_subscription,
  start_adapter, make_executor, add_node, spin, shutdown_executor,
}

-- the calls of the section
abbrev pub is_inner : SiteCall → Bool
is_inner create_node = true
is_inner create_publisher = true
is_inner get_logger = true
is_inner create_subscription = true
is_inner start_adapter = true
is_inner make_executor = true
is_inner add_node = true
is_inner spin = true
is_inner shutdown_executor = true
is_inner _ = false

module _ {S X : Type 0} (io : SitePorts S) (f : Run SiteCall (SiteWorld S) → X)
    (quiet : (a : SiteCall) → is_inner a ≡ true → Keeps f (site_call io a)) where
  spin_section-Keeps : Keeps f (spin_section io)
  unfolding spin_section
  spin_section-Keeps =
      try_finally-Keeps f (try_except is_interrupt (site_call io spin) (done tt))
        (site_call io shutdown_executor)
        (try_except-Keeps f is_interrupt (site_call io spin) (done tt) (quiet spin refl)
          (λ s. refl))
        (quiet shutdown_executor refl)

  pub ready_section-Keeps : Keeps f (ready_section io)
  unfolding ready_section
  ready_section-Keeps =
      then-Keeps f (site_call io create_subscription) _ (quiet create_subscription refl) (
        then-Keeps f (site_call io start_adapter) _ (quiet start_adapter refl) (
          then-Keeps f (site_call io make_executor) _ (quiet make_executor refl) (
            then-Keeps f (site_call io add_node) (spin_section io) (quiet add_node refl)
              spin_section-Keeps)))

module _ {S : Type 0} (io : SitePorts S) (kind : SiteCall → Bool)
    (outer : (a : SiteCall) → is_inner a ≡ true → kind a ≡ false) where
  abbrev calls_now : Run SiteCall (SiteWorld S) → List SiteCall
  calls_now s = only kind s.log

  quiet_call : (a : SiteCall) → is_inner a ≡ true → Keeps calls_now (site_call io a)
  quiet_call a h s = rw (outer a h) refl

  adapter_section-Keeps : Keeps calls_now (adapter_section io)
  unfolding adapter_section
  adapter_section-Keeps =
      then-Keeps calls_now (site_call io create_publisher) _ (quiet_call create_publisher refl) (
        then-Keeps calls_now (site_call io get_logger)
          (pure io.sessions >> (set_adapter io >> ready_section io)) (quiet_call get_logger refl)
          (then-Keeps calls_now (pure io.sessions) (set_adapter io >> ready_section io) (λ s. refl)
            (then-Keeps calls_now (set_adapter io) (ready_section io) (λ s. refl)
              (ready_section-Keeps io calls_now quiet_call))))

  pub ros_section-Keeps : Keeps calls_now (ros_section io)
  unfolding ros_section
  ros_section-Keeps =
      then-Keeps calls_now (site_call io create_node) (set_node io >> adapter_section io)
        (quiet_call create_node refl)
        (then-Keeps calls_now (set_node io) (adapter_section io) (λ s. refl) adapter_section-Keeps)
