-- ===== src/Verify/Created.antt =====
-- An entry that createLogEntry of pkg/api/entries.go answers, as a client of pkg/verify/verify.go gets
-- it, and how the two go together.
pub mod Accepted
use rekor.Base.{
  ℕ, ◌+◌, ◌^◌, ◌<◌, ◌≡◌, refl, ap, sym, ◌∙◌, subst, ◌↔◌, true, List, [], ◌∷◌, Option, none, some,
  some-injective, ok-injective, map, Result, ok, err, All, arith,
}
use rekor.Base.Bytes.{Bytes}
use rekor.Base.Int64.{ℤ, pos, to_int64, to_uint64}
use rekor.Golib.Base64
use rekor.Golib.Base64.RoundTrip.{decode-encode}
use rekor.Golib.Hex.{IsByte, hex_encode, hex_decode}
use rekor.Golib.Hex
use rekor.Sharding.Ranges.{get_active}
use rekor.Sharding.EntryId.{EntryId}
use rekor.Trillian.Client.{Leaf, LogRoot, QueuedLeaf, EntryAndProof, Response, Server}
use rekor.Trillian.Client
use rekor.Trillian.Client.Sound.{IsVerified}
use rekor.Trillian.Client.Adding.{add_leaf}
use rekor.Trillian.Client.Adding.Verified.{add_leaf-Added}
use rekor.Base.{inl, inr}
use rekor.Util.SignedNote.{Crypto, verify}
use rekor.Util.SignedCheckpoint.{checkpoint_of, create_and_sign_checkpoint_multiple}
use rekor.Util.SignedCheckpoint.Signing.{Pair, signers_of}
use rekor.Util.Checkpoint.{Checkpoint}
use rekor.Util.Checkpoint.RoundTrip.{IsFull, IsPrintable}
use rekor.Util.NoteText.RoundTrip.{ReadsWords}
use rekor.Util.NoteText.Signed.{IsHost, HasHints, SignsBytes, Reads, create_and_sign-Reads}
use rekor.Api.{Api, LogEntryAnon}
use rekor.Api
use rekor.Api.Leaf.{anon_of_leaf, verification_of, verified}
use rekor.Api.Create.{created}
use rekor.Api.Create.Made.{IsMade, IsSignedBy, IsNewEntry, created-IsNewEntry}
use rekor.Verify.{
  InclusionProof, Verification, Entry, Checks, decode_hashes, bundle_of, verify_log_entry,
}
use rekor.Verify.Sound.{Includes, HasCheckpoint, HasTimestamp, IsAccepted, verify_log_entry_iff}

abbrev received_proof : Api.InclusionProof → InclusionProof
received_proof p = record {
  log_index = p.log_index;
  tree_size = p.tree_size;
  root_hash = p.root_hash;
  hashes = p.hashes;
  checkpoint = p.checkpoint;
}

abbrev received_verification : Option Api.Verification → Option Verification
received_verification none = none
received_verification (some v) = some (record {
  inclusion_proof = some (received_proof v.inclusion_proof);
  signed_entry_timestamp = some v.signed_entry_timestamp;
})

-- The entry as a client gets it through JSON, where the bytes of the body are a base64 string.
abbrev pub received : LogEntryAnon → Entry
received e = record {
  body = some (Base64.encode e.body);
  integrated_time = e.integrated_time;
  log_index = e.log_index;
  log_id = e.log_id;
  verification = received_verification e.verification;
}

module _ {E S V P W : Type 0} (api : Api E S V P W) (c : Checks E S V P) where
  -- The client calls the packages that the server calls: the keys, the log roots and the proofs are
  -- the same; two words of a line are read; a hash is equal to itself; and the JSON of the bundle of
  -- an entry is that of the entry without its verification.
  pub record IsClientOf (tc : Server E W) : Type 0 where
    pub same_crypto : c.crypto ≡ api.crypto
    pub same_roots : (b : Bytes) → tc.unmarshal_log_root b ≡ api.unmarshal_log_root b
    pub same_proofs :
        (root : LogRoot) (hash : Bytes) (p : Client.InclusionProof)
        → tc.verify_inclusion_by_hash root hash p ≡ none
        → c.prove_inclusion (to_uint64 p.leaf_index) root.tree_size hash p.hashes root.root_hash
          ≡ none
    pub reads_words : ReadsWords c.fscanf
    pub folds_itself : (h : Bytes) → c.equal_fold h h ≡ true
    pub same_json :
        (e : LogEntryAnon) (payload canonical : Bytes)
        → e.verification ≡ none
        → e.attestation ≡ none
        → All IsByte e.body
        → api.marshal_binary e ≡ ok payload
        → api.canonical_json payload ≡ ok canonical
        → c.canonical_bundle (bundle_of c (received e)) ≡ ok canonical

  -- The leaf's hash is that of its value, the proof is for the leaf's index, values and hashes are
  -- bytes, and the size is a uint64.
  abbrev pub AreWellFormed : Leaf → Client.InclusionProof → LogRoot → Type 0
  AreWellFormed leaf p root =
      (c.hash_leaf leaf.leaf_value ≡ leaf.merkle_leaf_hash)
      × (p.leaf_index ≡ leaf.leaf_index)
      × All IsByte leaf.leaf_value
      × All (All IsByte) p.hashes
      × All IsByte root.root_hash
      × (root.tree_size < 2 ^ 64)

  -- What a log server answers with a leaf, a proof and a root.
  abbrev pub IsWellFormed : EntryAndProof → Type 0
  IsWellFormed m =
      (leaf : Leaf) (p : Client.InclusionProof) (root : LogRoot)
      → m.leaf ≡ some leaf
      → m.proof ≡ some p
      → api.unmarshal_log_root m.signed_log_root ≡ ok root
      → AreWellFormed leaf p root

  -- The server has signers with a verifier each, and a hostname that fits on a signature line.
  pub record IsServer (p : Pair api.crypto) (ps : List (Pair api.crypto)) : Type 0 where
    pub signers : (get_active api.log_ranges).signers ≡ signers_of api.crypto (p ∷ ps)
    pub signs_bytes : All (SignsBytes api.crypto) (signers_of api.crypto (p ∷ ps))
    pub hints : HasHints api.crypto
    pub host : IsHost api.hostname
    pub origin_full :
        IsFull (checkpoint_of api.hostname (get_active api.log_ranges).tree_id 0 []).origin
