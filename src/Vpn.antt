-- ===== src/Vpn.antt =====
-- The VPN of pkg/openconnect.
pub mod Tail
pub mod TailLaws
pub mod Quote
pub mod QuoteLaws
pub mod Tests
pub mod StepTests
pub mod Client
pub mod Command
pub mod CommandLaws
pub mod Steps
pub mod Invariant
pub mod Moves
pub mod Calls
pub mod Ends
pub mod Safety
pub mod Asked
pub mod Progress
