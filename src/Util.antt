-- ===== src/Util.antt =====
-- pkg/util: checkpoints of the log, signed notes, and hashes with their names.
pub mod Sha
pub mod Checkpoint
pub mod SignedNote
pub mod SignedCheckpoint
pub mod NoteText
pub mod Examples
