-- ===== src/Api/Create.antt =====
-- pkg/api/entries.go: createLogEntry from its call of AddLeaf on. The proposed entry is canonical; the
-- tasks that index it, store its attestation and publish it run apart from the answer, and are left out.
pub mod Added
pub mod Made
pub mod Proposed
use rekor.Base.{ℕ, List, [], ◌∷◌, Option, none, some, Result, ok, err, ◌>>=◌, wrap}
use rekor.Base.Bytes.{Bytes}
use rekor.Base.Int64.{ℤ}
use rekor.Golib.Hex.{hex_encode}
use rekor.Golib.Num.{format_int}
use rekor.Sharding.EntryId.{EntryId, create_entry_id_from_parts, entry_id_string}
use rekor.Sharding.EntryId
use rekor.Sharding.Ranges.{LogRange, get_active}
use rekor.Trillian.Client.{
  Code, ok_code, already_exists, failed_precondition, CallError, Leaf, LogRoot, QueuedLeaf,
  EntryAndProof, Response, Server,
}
use rekor.Trillian.Client
use rekor.Trillian.Client.Adding.{add_leaf}
use rekor.Util.SignedCheckpoint.{create_and_sign_checkpoint_multiple}
use rekor.Util.SignedCheckpoint
use rekor.Api.{Api, Verification, LogEntryAnon}
use rekor.Api
use rekor.Api.Leaf.{
  anon_of_leaf, verification_of, verified, sign_entry_multiple, first_or_panic, behind_first,
}

-- `panic` is a read through a nil pointer.
pub data CreateError (E : Type 0) : Type 0 where
  client_failed : E → CreateError E
  grpc_failed : Option (CallError E) → CreateError E
  entry_already_exists : Bytes → CreateError E
  insertion_failed : Code → CreateError E
  entry_id_failed : EntryId.Error → CreateError E
  signing_failed : Api.Error E → CreateError E
  bad_log_root : CallError E → CreateError E
  sth_generate : SignedCheckpoint.Error E → CreateError E
  panic : CreateError E

abbrev pub http_status : {E : Type 0} → CreateError E → ℕ
http_status (entry_already_exists _) = 409
http_status _ = 500

module _ {E : Type 0} where
  abbrev pub deref : {A : Type 0} → Option A → Result (CreateError E) A
  deref none = err panic
  deref (some a) = ok a

  abbrev pub ok_or : CreateError E → Code → Result (CreateError E) (Unit {0})
  ok_or e ok_code = ok tt
  ok_or e _ = err e

module _ {E S V P W : Type 0} (api : Api E S V P W) (hash_leaf : Bytes → Bytes) where
  -- The entry id of a leaf of the active tree.
  abbrev pub active_entry_id : Bytes → Result (CreateError E) EntryId
  active_entry_id hash = wrap entry_id_failed (
      create_entry_id_from_parts (format_int 16 (get_active api.log_ranges).tree_id)
        (hex_encode hash))

  -- A leaf that is there already is a conflict, with the id of the entry that is there.
  abbrev pub conflict : Bytes → Result (CreateError E) (Unit {0})
  conflict leaf =
      active_entry_id (hash_leaf leaf) >>= λ id. err (entry_already_exists (entry_id_string id))

  unfoldable pub check_insertion : Bytes → Option Code → Result (CreateError E) (Unit {0})
  check_insertion leaf none = ok tt
  check_insertion leaf (some ok_code) = ok tt
  check_insertion leaf (some already_exists) = conflict leaf
  check_insertion leaf (some failed_precondition) = conflict leaf
  check_insertion leaf (some c) = err (insertion_failed c)

  -- The checkpoint of a new entry is always a new one.
  unfoldable pub added_verification :
      Leaf
      → EntryAndProof
      → LogRange S
      → List Bytes
      → List Bytes
      → Bytes
      → Result (CreateError E) Verification
  added_verification leaf m active_range signatures sig_log_ids primary_signature = do
    root ← wrap bad_log_root (api.unmarshal_log_root m.signed_log_root)
    proof ← deref m.proof
    sc ← wrap sth_generate (
        create_and_sign_checkpoint_multiple api.crypto api.hostname
          (get_active api.log_ranges).tree_id root.tree_size root.root_hash active_range.signers)
    more ← wrap signing_failed (behind_first api sig_log_ids signatures)
    ok (
        verification_of api root (record proof { leaf_index = leaf.leaf_index }) sc
          primary_signature more)

  -- The entry of a leaf that was added.
  unfoldable pub entry_of_added :
      Leaf → Option EntryAndProof → LogRange S → Result (CreateError E) (EntryId × LogEntryAnon)
  entry_of_added leaf result active_range = do
    entry_id ← active_entry_id leaf.merkle_leaf_hash
    let anon = anon_of_leaf api leaf (get_active api.log_ranges).tree_id active_range
    (signatures, sig_log_ids) ←
        wrap signing_failed (sign_entry_multiple api active_range.signers active_range.log_ids anon)
    primary_signature ← wrap signing_failed (first_or_panic api signatures)
    m ← deref result
    v ← added_verification leaf m active_range signatures sig_log_ids primary_signature
    ok (entry_id, verified api anon v)

  -- What the handler makes of the response of AddLeaf.
  unfoldable pub created : Bytes → Response E → Result (CreateError E) (EntryId × LogEntryAnon)
  created leaf resp = do
    _ ← ok_or (grpc_failed resp.error) resp.status
    q ← deref resp.get_add_result
    _ ← check_insertion leaf q.status
    entry_of_added q.leaf resp.get_leaf_and_proof_result (get_active api.log_ranges)

  abbrev pub answered :
      Bytes → Option (Response E × W) → Option (Result (CreateError E) (EntryId × LogEntryAnon) × W)
  answered leaf none = none
  answered leaf (some (resp, w)) = some (created leaf resp, w)

  abbrev pub with_client :
      ℕ
      → Bytes
      → Result E (Server E W) × W
      → Option (Result (CreateError E) (EntryId × LogEntryAnon) × W)
  with_client fuel leaf (err e, w) = some (err (client_failed e), w)
  with_client fuel leaf (ok tc, w) = answered leaf (add_leaf tc fuel leaf w)

  -- `none` is out of fuel for the wait of AddLeaf.
  unfoldable pub create_log_entry :
      ℕ → Bytes → W → Option (Result (CreateError E) (EntryId × LogEntryAnon) × W)
  create_log_entry fuel leaf w =
      with_client fuel leaf (api.get_trillian_client (get_active api.log_ranges).tree_id w)
