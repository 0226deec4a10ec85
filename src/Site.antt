-- ===== src/Site.antt =====
-- packages/door_adapter_quiksync/door_adapter_quiksync/adapter.py and
-- packages/lift_adapter_quiksync/lift_adapter_quiksync/adapter.py: the entry points of the door and
-- the lift adapter, which are the same but for the names.  The log calls and the argument parser are
-- not modelled.
pub mod Dry
pub mod Section
pub mod Cleanup
pub mod Finally
mod Tests
use open_rmf_adapters_quiksy.Base.{
  ℕ, String, Bool, true, false, not, ◌||◌, Option, none, some, if◌then◌else◌,
}
use open_rmf_adapters_quiksy.Base.Dict.{Dict, get}
use open_rmf_adapters_quiksy.Base.Exec.{Exn, Result, ok, err, config_error}
use open_rmf_adapters_quiksy.Base.Act.{
  Run, Act, done, raises, pure, call, ◌>>=◌, ◌>>◌, when, try_finally, try_except, is_exception,
  is_interrupt,
}
use open_rmf_adapters_quiksy.Python.{Value}
use open_rmf_adapters_quiksy.Fleet.Adapter.{or_null}
use open_rmf_adapters_quiksy.Config.Url.{ws_base_url}

-- What the entry point calls, apart from the loggers.
pub data SiteCall : Type 0 where
  import_rclpy import_messages init_ros create_node create_publisher get_logger : SiteCall
  create_subscription start_adapter make_executor add_node spin shutdown_executor : SiteCall
  stop_adapter destroy_node shutdown_ros drain_frames close_ws close_http close_auth : SiteCall

-- Whether `ros_node` and `adapter_node` are set, with the state of what is called.
pub record SiteWorld (S : Type 0) : Type 0 where
  pub node_made : Bool
  pub adapter_made : Bool
  pub world : S

-- `sessions` is what `LiftSessionManager(ttl_seconds=...)` gives, whose `float()` may raise; the door
-- adapter has none, and for it this is `ok`.
pub record SitePorts (S : Type 0) : Type 0 where
  pub sessions : Result (Unit {0})
  pub outer : SiteCall → S → Result (Unit {0}) × S

abbrev pub SiteAct : Type 0 → Type 0 → Type 0
SiteAct S R = Act SiteCall (SiteWorld S) R

-- `build_clients`: only the address of the web socket can be refused
unfoldable pub build_clients : Dict Value → Result String
build_clients settings = ws_base_url (or_null (get settings "base_url"))

module _ {S : Type 0} (io : SitePorts S) where
  abbrev pub site_call : SiteCall → SiteAct S (Unit {0})
  site_call a = call a (λ w. let (r, s) = io.outer a w.world in (r, record w { world = s }))

  abbrev pub set_node : SiteAct S (Unit {0})
  set_node s = (ok tt, record s { world = record (s.world) { node_made = true } })

  abbrev pub set_adapter : SiteAct S (Unit {0})
  set_adapter s = (ok tt, record s { world = record (s.world) { adapter_made = true } })

  -- the spin with its `except KeyboardInterrupt` and its `finally`
  unfoldable pub spin_section : SiteAct S (Unit {0})
  spin_section =
      try_finally (try_except is_interrupt (site_call spin) (done tt)) (site_call shutdown_executor)

  -- the body of the `try`, from its end; the constructor of the adapter node only stores its arguments
  unfoldable pub ready_section : SiteAct S (Unit {0})
  ready_section =
      site_call create_subscription
      >> (site_call start_adapter
          >> (site_call make_executor >> (site_call add_node >> spin_section)))

  unfoldable pub adapter_section : SiteAct S (Unit {0})
  adapter_section =
      site_call create_publisher
      >> (site_call get_logger >> (pure io.sessions >> (set_adapter >> ready_section)))

  unfoldable pub ros_section : SiteAct S (Unit {0})
  ros_section = site_call create_node >> (set_node >> adapter_section)

  -- the `finally`
  unfoldable pub clean_up : SiteAct S (Unit {0})
  clean_up s =
      (when s.world.adapter_made (site_call stop_adapter)
          >> (when s.world.node_made (site_call destroy_node) >> site_call shutdown_ros))
        s

  unfoldable pub run_full : SiteAct S ℕ
  run_full = site_call init_ros >> (try_finally ros_section clean_up >> done 0)

  -- a lazy import, for which any exception means that there is no module
  abbrev pub imported : SiteCall → SiteAct S Bool
  imported a = try_except is_exception (site_call a >> done true) (done false)

  -- the `finally` of `main`; `close()` of the clients raises nothing
  abbrev pub closing : SiteCall → SiteAct S (Unit {0})
  closing a = call a (λ w. (ok tt, record w { world = (io.outer a w.world).1 }))

  unfoldable pub run_mode : SiteAct S ℕ → Bool → SiteAct S ℕ
  run_mode dry dry_run =
      try_finally (if dry_run then dry else run_full)
        (closing close_ws >> (closing close_http >> closing close_auth))

  -- `main` with settings that were accepted; `dry` is the run of the dry mode
  unfoldable pub main_configured : SiteAct S ℕ → Bool → Dict Value → SiteAct S ℕ
  main_configured dry dry_run settings = pure (build_clients settings) >>= λ url.
      imported import_rclpy >>= λ rclpy.
      imported import_messages >>= λ messages. run_mode dry (dry_run || not rclpy || not messages)

  -- `main` with what loading the settings gave
  unfoldable pub main : SiteAct S ℕ → Bool → Result (Dict Value) → SiteAct S ℕ
  main dry dry_run (ok settings) = main_configured dry dry_run settings
  main dry dry_run (err config_error) = done 1
  main dry dry_run (err e) = raises e
