-- ===== src/Menubar.antt =====
-- The controller behind the menu bar: internal/menubar/controller.go.
pub mod Tunnels
pub mod Control
pub mod Connections
pub mod Calls
pub mod SyncLaws
pub mod Steps
pub mod Keeps
pub mod Sound
pub mod ConnectionsSound
pub mod Reached
pub mod Quiet
pub mod Pinned
pub mod Starts
pub mod Approval
pub mod ApprovalLaws
pub mod Tests
pub mod Status
pub mod StatusLaws
