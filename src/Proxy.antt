-- ===== src/Proxy.antt =====
-- The HTTP proxy of pkg/proxy.
pub mod Handler
pub mod Spec
pub mod Laws
pub mod Tests
