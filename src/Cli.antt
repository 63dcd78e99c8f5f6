-- ===== src/Cli.antt =====
-- The serve command: internal/cli/serve.go.
pub mod Flags
pub mod FlagLaws
pub mod Tests
