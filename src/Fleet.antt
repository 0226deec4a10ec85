-- ===== src/Fleet.antt =====
-- packages/fleet_adapter_quiksync/fleet_adapter_quiksync: the robots of one fleet.
pub mod Robot
pub mod Callbacks
pub mod Binding
pub mod Adapter
