-- ===== src/Upstream.antt =====
-- crates/yb-providers/src/route.rs: where a deployment is called and with which headers.
pub mod Urls
pub mod Headers
