-- ===== src/Upstream.antt =====
-- The dialers of pkg/upstream that no other tree models.
pub mod Http
pub mod HttpSpec
pub mod HttpLaws
mod Tests
