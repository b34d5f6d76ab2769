-- ===== src/Server.antt =====
-- crates/yb-server: how a request is admitted.
pub mod Admission
pub mod Headers
