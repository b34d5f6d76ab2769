-- ===== src/Routing.antt =====
-- crates/yb-gateway/src/router.rs: from a requested model to the ordered deployments that may serve
-- it. Table holds the routing table, Order the three strategies, Resolve the resolution itself.
pub mod Table
pub mod Order
pub mod Resolve
