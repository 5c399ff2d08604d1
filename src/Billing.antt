-- ===== src/Billing.antt =====
-- crates/of-billing: what a tool call costs, the usage outbox and the shipper that drains it.
pub mod Classify
pub mod Outbox
pub mod Fleet
pub mod Agreement
pub mod Sound
pub mod Settlement
pub mod Recording
pub mod Delivery
pub mod Due
pub mod Meter
pub mod Charges
pub mod Retired
