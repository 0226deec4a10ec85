-- ===== src/Lift.antt =====
-- packages/lift_adapter_quiksync/lift_adapter_quiksync: the lift adapter.
pub mod Session
pub mod Request
pub mod State
pub mod Handle
pub mod Node
