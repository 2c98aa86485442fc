-- ===== src/Verify.antt =====
-- pkg/verify/verify.go: what a client checks of the log. The calls of the server, Merkle proofs, JSON
-- and the keys are of other packages, and are parameters.
pub mod Sound
pub mod Consistency
pub mod Created
pub mod Examples
use rekor.Base.{
  ℕ, Bool, true, false, not, List, [], ◌∷◌, Option, none, some, if◌then◌else◌, Result, ok, err,
  ◌>>=◌, ◌>>◌, guard, wrap,
}
use rekor.Base.Bytes.{Bytes, bytes_eq}
use rekor.Base.Int64.{ℤ, pos, int_eq, int_lt, to_int64, to_uint64}
use rekor.Golib.Base64
use rekor.Golib.Hex.{hex_decode}
use rekor.Util.SignedNote.{Crypto, verify}
use rekor.Util.SignedCheckpoint.{SignedCheckpoint}
use rekor.Util.NoteText.{CheckpointError, unmarshal_signed_checkpoint}

-- models.InclusionProof as a client gets it; hashes are hexadecimal.
pub record InclusionProof : Type 0 where
  pub log_index : ℤ
  pub root_hash : Bytes
  pub tree_size : ℤ
  pub hashes : List Bytes
  pub checkpoint : Bytes

-- models.LogEntryAnonVerification; what is absent is `none`.
pub record Verification : Type 0 where
  pub inclusion_proof : Option InclusionProof
  pub signed_entry_timestamp : Option Bytes

-- models.LogEntryAnon as a client gets it; a body that is no string is `none`.
pub record Entry : Type 0 where
  pub body : Option Bytes
  pub integrated_time : ℤ
  pub log_index : ℤ
  pub log_id : Bytes
  pub verification : Option Verification

-- The part of an entry that is signed.
pub record Bundle : Type 0 where
  pub body : Option Bytes
  pub integrated_time : ℤ
  pub log_index : ℤ
  pub log_id : Bytes

-- `panic` is a read through a nil pointer.
pub data Error (E : Type 0) : Type 0 where
  empty_log : Error E
  old_root_differs : Error E
  proof_unavailable : E → Error E
  bad_proof_hash : Error E
  inconsistent : E → Error E
  larger_than_verified : Error E
  old_head_not_verified head_not_verified : Error E
  info_unavailable : E → Error E
  bad_tree_head : CheckpointError → Error E
  checkpoint_not_verified : Error E
  bad_root_hash : Error E
  root_hash_differs : Error E
  no_inclusion_proof : Error E
  body_not_string : Error E
  bad_body : Error E
  not_included : E → Error E
  missing_verification signature_missing : Error E
  bad_bundle : E → Error E
  timestamp_not_verified : Error E
  panic : Error E

-- The packages that the checks call: the hash of a leaf, the two proofs, which give an error or none,
-- the canonical JSON of a bundle, bytes.EqualFold, which takes texts that differ only in the case of
-- letters as equal, and the words of a signature line.
pub record Checks (E S V P : Type 0) : Type 0 where
  pub crypto : Crypto E S V P
  pub fscanf : Bytes → Option (Bytes × Bytes)
  pub hash_leaf : Bytes → Bytes
  pub prove_inclusion : ℕ → ℕ → Bytes → List Bytes → Bytes → Option E
  pub prove_consistency : ℕ → ℕ → List Bytes → Bytes → Bytes → Option E
  pub canonical_bundle : Bundle → Result E Bytes
  pub equal_fold : Bytes → Bytes → Bool

-- The API of the server: the hashes of a proof between two sizes of a tree, and the tree head and the
-- tree id of the log.
pub record Rekor (E W : Type 0) : Type 0 where
  pub get_log_proof : ℤ → ℤ → Bytes → W → Result E (List Bytes) × W
  pub get_log_info : W → Result E (Bytes × Bytes) × W

abbrev pub push_hash : Option Bytes → Option (List Bytes) → Option (List Bytes)
push_hash (some h) (some hs) = some (h ∷ hs)
push_hash _ _ = none

-- hex.DecodeString of each.
unfoldable pub decode_hashes : List Bytes → Option (List Bytes)
decode_hashes [] = some []
decode_hashes (h ∷ hs) = push_hash (hex_decode h) (decode_hashes hs)

module _ {E : Type 0} where
  abbrev pub ok_or : {A : Type 0} → Error E → Option A → Result (Error E) A
  ok_or e none = err e
  ok_or e (some a) = ok a

  -- A check of another package.
  abbrev pub passes : (E → Error E) → Option E → Result (Error E) (Unit {0})
  passes f none = ok tt
  passes f (some e) = err (f e)

module _ {E S V P W : Type 0} (c : Checks E S V P) (r : Rekor E W) where
  abbrev pub check_proof :
      SignedCheckpoint → SignedCheckpoint → Result E (List Bytes) → Result (Error E) (Unit {0})
  check_proof old new (err e) = err (proof_unavailable e)
  check_proof old new (ok hashes) = ok_or bad_proof_hash (decode_hashes hashes) >>= λ hs.
      passes inconsistent (
        c.prove_consistency old.checkpoint.size new.checkpoint.size hs old.checkpoint.hash
          new.checkpoint.hash)

  abbrev pub consistency_by_size :
      Bool
      → Bool
      → Bool
      → SignedCheckpoint
      → SignedCheckpoint
      → Bytes
      → W
      → Result (Error E) (Unit {0}) × W
  consistency_by_size true same less old new tree_id w = (err empty_log, w)
  consistency_by_size false true less old new tree_id w =
      (guard (bytes_eq old.checkpoint.hash new.checkpoint.hash) old_root_differs, w)
  consistency_by_size false false true old new tree_id w =
      let (hashes, v) =
        r.get_log_proof (to_int64 old.checkpoint.size) (to_int64 new.checkpoint.size) tree_id w in
      (check_proof old new hashes, v)
  consistency_by_size false false false old new tree_id w = (err larger_than_verified, w)

  -- The sizes are compared as int64.
  unfoldable pub prove_consistency_of :
      SignedCheckpoint → SignedCheckpoint → Bytes → W → Result (Error E) (Unit {0}) × W
  prove_consistency_of old new tree_id w =
      let old_size = to_int64 old.checkpoint.size in
      let new_size = to_int64 new.checkpoint.size in
      consistency_by_size (int_eq old_size (pos 0)) (int_eq old_size new_size)
        (int_lt old_size new_size) old new tree_id w

  abbrev pub consistent_head :
      SignedCheckpoint → Result (Error E) (Unit {0}) × W → Result (Error E) SignedCheckpoint × W
  consistent_head sth (err e, w) = (err e, w)
  consistent_head sth (ok _, w) = (ok sth, w)

  abbrev pub head_if_verified :
      Bool → SignedCheckpoint → SignedCheckpoint → Bytes → W → Result (Error E) SignedCheckpoint × W
  head_if_verified false old sth tree_id w = (err head_not_verified, w)
  head_if_verified true old sth tree_id w =
      consistent_head sth (prove_consistency_of old sth tree_id w)

  abbrev pub against_head :
      V
      → SignedCheckpoint
      → Bytes
      → Result CheckpointError SignedCheckpoint
      → W
      → Result (Error E) SignedCheckpoint × W
  against_head v old tree_id (err e) w = (err (bad_tree_head e), w)
  against_head v old tree_id (ok sth) w =
      head_if_verified (verify c.crypto sth.signed_note v) old sth tree_id w

  abbrev pub against_info :
      V → SignedCheckpoint → Result E (Bytes × Bytes) × W → Result (Error E) SignedCheckpoint × W
  against_info v old (err e, w) = (err (info_unavailable e), w)
  against_info v old (ok (signed_tree_head, tree_id), w) =
      against_head v old tree_id (unmarshal_signed_checkpoint c.fscanf signed_tree_head) w

  abbrev pub current_if_verified :
      Bool → V → SignedCheckpoint → W → Result (Error E) SignedCheckpoint × W
  current_if_verified false v old w = (err old_head_not_verified, w)
  current_if_verified true v old w = against_info v old (r.get_log_info w)

  unfoldable pub verify_current_checkpoint :
      V → SignedCheckpoint → W → Result (Error E) SignedCheckpoint × W
  verify_current_checkpoint v old w =
      current_if_verified (verify c.crypto old.signed_note v) v old w

module _ {E S V P : Type 0} (c : Checks E S V P) where
  abbrev pub proof_or : Error E → Option Verification → Result (Error E) InclusionProof
  proof_or e none = err e
  proof_or e (some v) = ok_or e v.inclusion_proof

  unfoldable pub verify_checkpoint_signature : Entry → V → Result (Error E) (Unit {0})
  verify_checkpoint_signature e v = do
    p ← proof_or panic e.verification
    sth ← wrap bad_tree_head (unmarshal_signed_checkpoint c.fscanf p.checkpoint)
    guard (verify c.crypto sth.signed_note v) checkpoint_not_verified
    root_hash ← ok_or bad_root_hash (hex_decode p.root_hash)
    guard (c.equal_fold root_hash sth.checkpoint.hash) root_hash_differs

  unfoldable pub verify_inclusion : Entry → Result (Error E) (Unit {0})
  verify_inclusion e = do
    p ← proof_or no_inclusion_proof e.verification
    hashes ← ok_or bad_proof_hash (decode_hashes p.hashes)
    root_hash ← ok_or bad_root_hash (hex_decode p.root_hash)
    b ← ok_or body_not_string e.body
    entry_bytes ← ok_or bad_body (Base64.decode b)
    passes not_included (
        c.prove_inclusion (to_uint64 p.log_index) (to_uint64 p.tree_size) (c.hash_leaf entry_bytes)
          hashes root_hash)

  abbrev pub bundle_of : Entry → Bundle
  bundle_of e = record {
    body = e.body;
    integrated_time = e.integrated_time;
    log_index = e.log_index;
    log_id = e.log_id;
  }

  unfoldable pub verify_signed_entry_timestamp : Entry → V → Result (Error E) (Unit {0})
  verify_signed_entry_timestamp e v = do
    verification ← ok_or missing_verification e.verification
    set ← ok_or signature_missing verification.signed_entry_timestamp
    canonicalized ← wrap bad_bundle (c.canonical_bundle (bundle_of e))
    guard (c.crypto.verify_signature v set canonicalized) timestamp_not_verified

  unfoldable pub verify_log_entry : Entry → V → Result (Error E) (Unit {0})
  verify_log_entry e v = do
    verify_inclusion e
    verify_checkpoint_signature e v
    verify_signed_entry_timestamp e v
