-- ===== src/Door.antt =====
-- packages/door_adapter_quiksync/door_adapter_quiksync: the doors of one building.
pub mod Handle
pub mod Node
