-- ===== src/Ssh.antt =====
-- The client of pkg/sshclient: one connection that several goroutines use.
pub mod Client
pub mod Steps
pub mod Invariant
pub mod Dial
pub mod Ends
pub mod Safety
pub mod Target
pub mod HostKeyLaws
pub mod TargetLaws
pub mod Tests
pub mod TargetTests
pub mod Retry
pub mod RetryLaws
pub mod Attempt
pub mod AttemptLaws
