-- ===== src/Trillian/Client.antt =====
-- pkg/trillianclient/trillian_client.go: the calls to the log server of one tree. What the server
-- answers, in the order of the requests, is a parameter, and so are the proofs' checks.
pub mod Calls
pub mod Sound
pub mod Adding
pub mod Examples
use rekor.Base.{ℕ, Option, none, some, List, Result}
use rekor.Base.Bytes.{Bytes}
use rekor.Base.Int64.{ℤ}

-- codes.Code of gRPC, as far as the source names them; `other` stands for the rest.
pub data Code : Type 0 where
  ok_code not_found failed_precondition deadline_exceeded unknown out_of_range invalid_argument
        already_exists :
      Code
  other : ℕ → Code

-- An error of a call carries its code; any other error has none, and status.Code gives Unknown.
pub data CallError (E : Type 0) : Type 0 where
  status_error : Code → E → CallError E
  plain_error : E → CallError E
  tree_is_empty : CallError E
  wrong_proof_count : ℕ → CallError E
  no_leaf : ℤ → CallError E
  multiple_leaves : ℤ → CallError E
  leaf_hash_mismatch : Bytes → Bytes → CallError E
  nil_pointer : CallError E

pub record Leaf : Type 0 where
  pub leaf_value : Bytes
  pub merkle_leaf_hash : Bytes
  pub leaf_index : ℤ
  pub integrate_timestamp : ℤ

pub record InclusionProof : Type 0 where
  pub leaf_index : ℤ
  pub hashes : List Bytes

-- types.LogRootV1
pub record LogRoot : Type 0 where
  pub tree_size : ℕ
  pub root_hash : Bytes

-- trillian.QueuedLogLeaf; its status is nil where the leaf is new.
pub record QueuedLeaf : Type 0 where
  pub leaf : Leaf
  pub status : Option Code

-- trillian.GetEntryAndProofResponse
pub record EntryAndProof : Type 0 where
  pub proof : Option InclusionProof
  pub leaf : Option Leaf
  pub signed_log_root : Bytes

pub record ProofByHash : Type 0 where
  pub proofs : List InclusionProof
  pub signed_log_root : Bytes

pub record ConsistencyProof : Type 0 where
  pub proof : Option (List Bytes)
  pub signed_log_root : Bytes

pub record Response (E : Type 0) : Type 0 where
  pub status : Code
  pub error : Option (CallError E)
  pub get_add_result : Option QueuedLeaf
  pub get_leaf_and_proof_result : Option EntryAndProof
  pub get_latest_result : Option Bytes
  pub get_consistency_proof_result : Option ConsistencyProof
  pub get_leaves_by_range_result : Option (List Leaf)
  pub get_proof_result : Option ProofByHash

module _ {E : Type 0} where
  -- status.Code
  abbrev pub status_code : Option (CallError E) → Code
  status_code none = ok_code
  status_code (some (status_error c e)) = c
  status_code (some tree_is_empty) = not_found
  status_code (some _) = unknown

  -- A response with a status and an error only.
  abbrev pub failure : Code → Option (CallError E) → Response E
  failure c e = record {
    status = c;
    error = e;
    get_add_result = none;
    get_leaf_and_proof_result = none;
    get_latest_result = none;
    get_consistency_proof_result = none;
    get_leaves_by_range_result = none;
    get_proof_result = none;
  }

  abbrev pub failed : CallError E → Response E
  failed e = failure (status_code (some e)) (some e)

-- The log server of a tree, and the checks of other packages. A call takes the state `W` of the
-- world to the answer, a message or an error as of all generated clients, and the state after it.
-- `merge_delay` is the wait for MinMergeDelay, with the error of the context if that ends first.
pub record Server (E W : Type 0) : Type 0 where
  pub get_latest_signed_log_root : ℤ → W → Result (CallError E) Bytes × W
  pub queue_leaf : Bytes → W → Result (CallError E) QueuedLeaf × W
  pub get_entry_and_proof : ℤ → ℤ → W → Result (CallError E) EntryAndProof × W
  pub get_inclusion_proof_by_hash : Bytes → ℤ → W → Result (CallError E) (List InclusionProof) × W
  pub get_consistency_proof : ℤ → ℤ → W → Result (CallError E) ConsistencyProof × W
  pub get_leaves_by_range : ℤ → ℤ → W → Result (CallError E) (List Leaf) × W
  pub merge_delay : W → Option (CallError E) × W
  pub wait_for_root_update : W → Result (CallError E) LogRoot × W
  pub unmarshal_log_root : Bytes → Result (CallError E) LogRoot
  pub verify_inclusion : ℕ → ℕ → Bytes → List Bytes → Bytes → Option (CallError E)
  pub verify_inclusion_by_hash : LogRoot → Bytes → InclusionProof → Option (CallError E)
