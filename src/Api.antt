-- ===== src/Api.antt =====
-- pkg/api/entries.go: the handlers of log entries.
pub mod Leaf
pub mod Retrieve
pub mod Tlog
pub mod Create
pub mod Index
pub mod Errors
pub mod PublicKeys
pub mod Search
pub mod Examples
use rekor.Base.{ℕ, Bool, List, Option, Result}
use rekor.Base.Bytes.{Bytes}
use rekor.Base.Int64.{ℤ}
use rekor.Sharding.EntryId
use rekor.Sharding.Ranges
use rekor.Sharding.Ranges.{LogRanges}
use rekor.Trillian.Client.{CallError, LogRoot, Server}
use rekor.Util.SignedCheckpoint
use rekor.Util.SignedNote.{Crypto}

-- models.InclusionProof; hashes are hexadecimal.
pub record InclusionProof : Type 0 where
  pub tree_size : ℤ
  pub root_hash : Bytes
  pub log_index : ℤ
  pub hashes : List Bytes
  pub checkpoint : Bytes

-- models.LogEntryAnonVerification
pub record Verification : Type 0 where
  pub inclusion_proof : InclusionProof
  pub signed_entry_timestamp : Bytes
  pub additional_signed_entry_timestamps : List (Bytes × Bytes)

pub record LogEntryAnon : Type 0 where
  pub log_id : Bytes
  pub log_index : ℤ
  pub body : Bytes
  pub integrated_time : ℤ
  pub attestation : Option Bytes
  pub verification : Option Verification

-- models.LogEntry is a map with one key, the entry id.
abbrev pub LogEntry : Type 0
LogEntry = Bytes × LogEntryAnon

-- `panic` is a read through a nil pointer or an index out of range.
pub data Error (E : Type 0) : Type 0 where
  not_found : Error E
  input_validation : Bytes → Error E
  no_signers : Error E
  length_mismatch : ℕ → ℕ → Error E
  marshalling canonicalizing : E → Error E
  signing : ℕ → E → Error E
  bad_log_root : CallError E → Error E
  unknown_shard : Ranges.Error → Error E
  checkpoint_failed : SignedCheckpoint.Error E → Error E
  entry_id_failed : EntryId.Error → Error E
  bad_entry : E → Error E
  log_client : ℤ → E → Error E
  grpc_error : Option (CallError E) → Error E
  unexpected_error : Error E
  invalid_id : Error E
  bad_tree_id : EntryId.Error → Error E
  panic : Error E

-- The state of the server and what it is configured with: the shards, the checkpoints of inactive
-- ones, the clients of the log servers; JSON and log roots; and the storage of attestations, with the
-- key of an entry's attestation if its type has one, whose errors may be InputValidationErrors.
pub record Api (E S V P W : Type 0) : Type 0 where
  pub log_ranges : LogRanges S
  pub cached_checkpoints : ℤ → Option Bytes
  pub get_trillian_client : ℤ → W → Result E (Server E W) × W
  pub hostname : Bytes
  pub crypto : Crypto E S V P
  pub marshal_binary : LogEntryAnon → Result E Bytes
  pub canonical_json : Bytes → Result E Bytes
  pub unmarshal_log_root : Bytes → Result (CallError E) LogRoot
  pub enable_attestation_storage : Bool
  pub attestation_key : Bytes → Result E (Option Bytes)
  pub is_input_validation : E → Bool
  pub fetch_attestation : Bytes → W → Result E Bytes × W
