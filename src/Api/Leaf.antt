-- ===== src/Api/Leaf.antt =====
-- pkg/api/entries.go: a log entry from a leaf, with its signatures.
pub mod Identity
pub mod Retrievable
use rekor.Base.{
  ℕ, zero, suc, ◌==◌, Bool, true, false, not, List, [], ◌∷◌, ◌++◌, Option, none, some, map,
  if◌then◌else◌, length, Result, ok, err, ◌>>=◌, ◌>>◌, guard, wrap,
}
use rekor.Base.Bytes.{Bytes}
use rekor.Base.Int64.{ℤ, to_int64}
use rekor.Golib.Hex.{hex_encode}
use rekor.Golib.Num.{format_int}
use rekor.Sharding.EntryId.{EntryId, create_entry_id_from_parts, entry_id_string}
use rekor.Sharding.Ranges.{LogRange, virtual_log_index, get_log_range_by_tree_id}
use rekor.Trillian.Client.{Leaf, LogRoot, CallError}
use rekor.Trillian.Client
use rekor.Util.SignedCheckpoint.{create_and_sign_checkpoint_multiple}
use rekor.Api.{
  Api, Error, no_signers, length_mismatch, marshalling, canonicalizing, signing, bad_log_root,
  unknown_shard, checkpoint_failed, entry_id_failed, bad_entry, panic, InclusionProof, Verification,
  LogEntryAnon, LogEntry,
}

module _ {E S V P W : Type 0} (api : Api E S V P W) where
  -- The signatures of the signers from the place `i` on.
  unfoldable pub sign_each : ℕ → Bytes → List S → Result (Error E) (List Bytes)
  sign_each i msg [] = ok []
  sign_each i msg (s ∷ ss) = do
    sig ← wrap (signing i) (api.crypto.sign_message s msg)
    sigs ← sign_each (suc i) msg ss
    ok (sig ∷ sigs)

  unfoldable pub sign_entry_multiple :
      List S → List Bytes → LogEntryAnon → Result (Error E) (List Bytes × List Bytes)
  sign_entry_multiple [] log_ids entry = err no_signers
  sign_entry_multiple (s ∷ ss) log_ids entry = do
    guard (length (s ∷ ss) == length log_ids) (length_mismatch (length (s ∷ ss)) (length log_ids))
    payload ← wrap marshalling (api.marshal_binary entry)
    canonicalized ← wrap canonicalizing (api.canonical_json payload)
    signatures ← sign_each 0 canonicalized (s ∷ ss)
    ok (signatures, log_ids)

  abbrev pub first_or_panic : {A : Type 0} → List A → Result (Error E) A
  first_or_panic [] = err panic
  first_or_panic (x ∷ _) = ok x

  -- The signatures behind the first one, each with the log id at its place.
  abbrev pub additional : List Bytes → List Bytes → Result (Error E) (List (Bytes × Bytes))
  additional ids [] = ok []
  additional [] (sig ∷ sigs) = err panic
  additional (id ∷ ids) (sig ∷ sigs) = additional ids sigs >>= λ more. ok ((id, sig) ∷ more)

  abbrev pub behind_first : List Bytes → List Bytes → Result (Error E) (List (Bytes × Bytes))
  behind_first ids [] = ok []
  behind_first [] (sig ∷ sigs) = additional [] sigs
  behind_first (id ∷ ids) (sig ∷ sigs) = additional ids sigs

  abbrev pub checkpoint_or_new : Option Bytes → ℤ → LogRoot → List S → Result (Error E) Bytes
  checkpoint_or_new (some cached) tid root signers = ok cached
  checkpoint_or_new none tid root signers = wrap checkpoint_failed (
      create_and_sign_checkpoint_multiple api.crypto api.hostname tid root.tree_size root.root_hash
        signers)

  -- The entry before it is signed.
  unfoldable pub anon_of_leaf : Leaf → ℤ → LogRange S → LogEntryAnon
  anon_of_leaf leaf tid log_range = record {
    log_id = log_range.log_id;
    log_index = virtual_log_index leaf.leaf_index tid api.log_ranges;
    body = leaf.leaf_value;
    integrated_time = leaf.integrate_timestamp;
    attestation = none;
    verification = none;
  }

  unfoldable pub verification_of :
      LogRoot → Client.InclusionProof → Bytes → Bytes → List (Bytes × Bytes) → Verification
  verification_of root proof sc primary_signature more = record {
    inclusion_proof = record {
      tree_size = to_int64 root.tree_size;
      root_hash = hex_encode root.root_hash;
      log_index = proof.leaf_index;
      hashes = map hex_encode proof.hashes;
      checkpoint = sc;
    };
    signed_entry_timestamp = primary_signature;
    additional_signed_entry_timestamps = more;
  }

  unfoldable pub verified : LogEntryAnon → Verification → LogEntryAnon
  verified anon v = record anon { verification = some v }

  -- The entry of a leaf whose shard is known.
  unfoldable pub sign_leaf :
      Leaf
      → Client.InclusionProof
      → ℤ
      → LogRoot
      → LogRange S
      → Result (Error E) (EntryId × LogEntryAnon)
  sign_leaf leaf proof tid root log_range = do
    let anon = anon_of_leaf leaf tid log_range
    (signatures, sig_log_ids) ← sign_entry_multiple log_range.signers log_range.log_ids anon
    primary_signature ← first_or_panic signatures
    sc ← checkpoint_or_new (api.cached_checkpoints tid) tid root log_range.signers
    entry_id ←
        wrap entry_id_failed
          (create_entry_id_from_parts (format_int 16 tid) (hex_encode leaf.merkle_leaf_hash))
    more ← behind_first sig_log_ids signatures
    ok (entry_id, verified anon (verification_of root proof sc primary_signature more))

  -- The entry without its attestation, and the id of the entry.
  unfoldable pub entry_of_leaf :
      Leaf → Bytes → Client.InclusionProof → ℤ → Result (Error E) (EntryId × LogEntryAnon)
  entry_of_leaf leaf signed_log_root proof tid = do
    root ← wrap bad_log_root (api.unmarshal_log_root signed_log_root)
    log_range ← wrap unknown_shard (get_log_range_by_tree_id api.log_ranges tid)
    sign_leaf leaf proof tid root log_range

  abbrev pub with_attestation : LogEntryAnon → Result E Bytes → LogEntryAnon
  with_attestation e (err _) = e
  with_attestation e (ok att) = record e { attestation = some att }

  abbrev pub fetch_by_uuid : Bytes → Result E Bytes × W → Result E Bytes × W
  fetch_by_uuid uuid (ok att, w) = (ok att, w)
  fetch_by_uuid uuid (err _, w) = api.fetch_attestation uuid w

  -- The key of the type's own is tried first, then the UUID.
  abbrev pub fetch_by_key : Bytes → Bytes → W → Result E Bytes × W
  fetch_by_key [] uuid w = api.fetch_attestation uuid w
  fetch_by_key (k ∷ ks) uuid w = fetch_by_uuid uuid (api.fetch_attestation (k ∷ ks) w)

  abbrev pub attested :
      EntryId → LogEntryAnon → Result E (Option Bytes) → W → Result (Error E) LogEntry × W
  attested id e (err x) w = (err (bad_entry x), w)
  attested id e (ok none) w = (ok (entry_id_string id, e), w)
  attested id e (ok (some key)) w =
      let (att, v) = fetch_by_key key id.uuid w in
      (ok (entry_id_string id, with_attestation e att), v)

  abbrev pub finished :
      Leaf → Result (Error E) (EntryId × LogEntryAnon) → W → Result (Error E) LogEntry × W
  finished leaf (err x) w = (err x, w)
  finished leaf (ok (id, e)) w =
      if api.enable_attestation_storage
      then attested id e (api.attestation_key leaf.leaf_value) w
      else (ok (entry_id_string id, e), w)

  unfoldable pub log_entry_from_leaf :
      Leaf → Bytes → Client.InclusionProof → ℤ → W → Result (Error E) LogEntry × W
  log_entry_from_leaf leaf signed_log_root proof tid w =
      finished leaf (entry_of_leaf leaf signed_log_root proof tid) w
