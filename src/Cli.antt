-- ===== src/Cli.antt =====
-- cmd/rekor-cli: the command loginfo, and the tree heads that it keeps.
pub mod State
pub mod LogInfo
mod Examples
