-- ===== src/Api/Examples.antt =====
-- A server of three shards, on which the theorems about pkg/api are applied.
use rekor.Base.{
  ℕ, ◌≡◌, ◌↔◌, refl, sym, subst, [], ◌∷◌, ◌++◌, false, none, some, map, ok, err, All, arith,
  replicate, inl,
}
use rekor.Base.Bytes.{Bytes, codes}
use rekor.Base.Int64.{ℤ, pos}
use rekor.Golib.Base64
use rekor.Golib.Hex.{hex_encode, hex_decode, IsByte}
use rekor.Golib.Num.{parse_int, format_int, format_uint, digits}
use rekor.Golib.Runes.{pad_zeros, rune_count, count_from}
use rekor.Sharding.EntryId.{
  EntryId, entry_id_string, tree_id_of, get_uuid_from_id_string, create_entry_id_from_parts,
  pad_to_tree_id_len, validate_entry_id, validate_uuid, validate_plain_uuid, validate_tree_id,
  validate_plain_tree_id,
}
use rekor.Sharding.Ranges.{LogRange, get_log_range_by_tree_id, resolve_virtual_index}
use rekor.Sharding.Ranges.Examples.{shard, shards, shards-IsConsistent}
use rekor.Trillian.Client.{QueuedLeaf, already_exists}
use rekor.Api.Create.{
  created, check_insertion, entry_of_added, added_verification, entry_already_exists,
}
use rekor.Api.Create.Added.{created-conflict}
use rekor.Trillian.Client.{Leaf}
use rekor.Trillian.Client.Examples.{
  server, added_seven, leaf_seven, proof_seven, root_seven, hash_seven,
}
use rekor.Trillian.Client.Calls.{
  success, get_leaf_and_proof_by_hash, get_proof_by_hash, get_latest, get_standalone_leaf,
  get_leaf_without_proof, get_leaves_by_range,
}
use rekor.Util.Checkpoint.{marshal_checkpoint}
use rekor.Util.SignedNote.{SignedNote, note_string, sign, get_public_key_hash}
use rekor.Util.SignedCheckpoint.{
  checkpoint_of, create_and_sign_checkpoint_multiple, create_signed_checkpoint, sign_all,
}
use rekor.Util.Examples.{crypto}
use rekor.Api.{Api, Error, Verification, LogEntryAnon}
use rekor.Api.Leaf.{
  entry_of_leaf, finished, log_entry_from_leaf, sign_leaf, sign_entry_multiple, sign_each,
  anon_of_leaf, verification_of, verified,
}
use rekor.Api.Leaf.Identity.{IsSignedByAll}
use rekor.Api.Retrieve.{retrieve_uuid_from_tree, search_trees}
use rekor.Api.Retrieve.Shards.{
  Misses, no_shard, miss, Decides, search_trees-not_found, search_trees-first,
}
use rekor.Api.Leaf.Retrievable.{entry_of_leaf-IsRetrievable}
use rekor.Api.Tlog.{
  TlogError, http_status, get_log_info_handler, get_log_proof_handler, LogInfo,
  InactiveShardLogInfo, inactive_infos, inactive_shard_log_info, shard_info, log_info_of,
}
use rekor.Api.Tlog.Shards.{
  named, name_of, get_log_info_handler-names, get_log_proof_handler-refuses,
}

abbrev pub api : Api ℕ ℕ ℕ ℕ ℕ
api = record {
  log_ranges = shards;
  cached_checkpoints = λ _. some (codes "checkpoint");
  get_trillian_client = λ _ w. (ok server, w);
  hostname = codes "rekor";
  crypto = crypto;
  marshal_binary = λ e. ok e.body;
  canonical_json = λ b. ok b;
  unmarshal_log_root = λ _. ok root_seven;
  enable_attestation_storage = false;
  attestation_key = λ _. ok none;
  is_input_validation = λ _. false;
  fetch_attestation = λ _ w. (err 0, w);
}

abbrev plain : Bytes
plain = replicate 64 b'a'

search_trees-not_found_example :
    (search_trees api plain (shards.active ∷ []) 5 ≡ (err Error.not_found, 5))
    ↔ Misses api plain (shards.active ∷ []) 5 5
search_trees-not_found_example = search_trees-not_found api plain (shards.active ∷ []) 5 5

abbrev made_entry : EntryId × LogEntryAnon
made_entry = (
  record { tree_id = replicate 15 b'0' ++ b'3' ∷ []; uuid = hex_encode hash_seven },
  verified api (anon_of_leaf api leaf_seven (pos 3) (shard 3 17 (codes "key3")))
      (verification_of api root_seven proof_seven (codes "checkpoint") (3 ∷ []) []),
)

entry_made : entry_of_leaf api leaf_seven (1 ∷ []) proof_seven (pos 3) ≡ ok made_entry
unfolding entry_of_leaf get_log_range_by_tree_id sign_leaf sign_entry_multiple sign_each
    create_entry_id_from_parts format_int format_uint digits hex_encode hex_decode
    pad_to_tree_id_len validate_entry_id validate_uuid pad_zeros rune_count count_from
    validate_plain_uuid validate_tree_id validate_plain_tree_id parse_int
entry_made = refl

seven_bytes : All IsByte hash_seven
seven_bytes = ground arith

entry_of_leaf-IsRetrievable_example :
    (tree_id_of (entry_id_string made_entry.0) ≡ ok (pos 3))
    × (get_uuid_from_id_string (entry_id_string made_entry.0) ≡ ok (hex_encode hash_seven))
    × (resolve_virtual_index shards made_entry.1.log_index ≡ (pos 3, pos 0))
    × (made_entry.1.body ≡ b'x' ∷ [])
    × (r : LogRange ℕ) × (get_log_range_by_tree_id shards (pos 3) ≡ ok r)
    × (v : Verification) × (made_entry.1.verification ≡ some v)
    × IsSignedByAll api
        (record made_entry.1 { verification = none })
        r.signers
        r.log_ids
        v.signed_entry_timestamp
        v.additional_signed_entry_timestamps
entry_of_leaf-IsRetrievable_example =
    entry_of_leaf-IsRetrievable api leaf_seven (1 ∷ []) proof_seven 3 0 {o = made_entry} entry_made
      (omega arith) (omega arith) refl seven_bytes refl shards-IsConsistent
      (inl (refl, omega arith)) (omega arith)

abbrev seven : Bytes
seven = hex_encode hash_seven

-- The tree 9 is none of the shards.
Misses-nine : Misses api seven (shard 9 0 [] ∷ []) 1 1
unfolding retrieve_uuid_from_tree get_log_range_by_tree_id
Misses-nine = miss refl no_shard

Decides-three : Decides api seven (retrieve_uuid_from_tree api seven (pos 3) 1).0
unfolding retrieve_uuid_from_tree get_leaf_and_proof_by_hash get_proof_by_hash get_latest
    get_standalone_leaf get_leaf_without_proof get_leaves_by_range log_entry_from_leaf hex_encode
    hex_decode get_log_range_by_tree_id
Decides-three = subst (λ r. Decides api seven (finished api leaf_seven r 1).0) (sym entry_made) tt

search_trees-first_example :
    search_trees api seven (shard 9 0 [] ∷ shard 3 17 [] ∷ shard 4 3 [] ∷ []) 1
    ≡ retrieve_uuid_from_tree api seven (pos 3) 1
search_trees-first_example =
    search_trees-first api seven (shard 9 0 [] ∷ []) (shard 4 3 [] ∷ []) (shard 3 17 []) 1 1
      Misses-nine Decides-three

get_log_proof_handler-refuses_example :
    (x : TlogError ℕ) × (get_log_proof_handler api (pos 5) (pos 3) [] 1 ≡ (err x, 1))
    × (http_status x ≡ 400)
get_log_proof_handler-refuses_example =
    get_log_proof_handler-refuses api (pos 5) (pos 3) [] 1 (inl refl)

-- The tree head of the active shard.
abbrev pub head_five : SignedNote
head_five = record {
  note = marshal_checkpoint (checkpoint_of (codes "rekor") (pos 5) 1 hash_seven);
  signatures = record { name = codes "rekor"; hash = 5; base64 = Base64.encode (5 ∷ []) } ∷ [];
}

abbrev inactive_info : ℤ → InactiveShardLogInfo
inactive_info tree_id = record {
  root_hash = seven;
  tree_size = pos 1;
  tree_id = format_int 10 tree_id;
  signed_tree_head = codes "checkpoint";
}

abbrev log_info : LogInfo
log_info = record {
  root_hash = seven;
  tree_size = pos 1;
  signed_tree_head = note_string head_five;
  tree_id = format_int 10 (pos 5);
  inactive_shards = inactive_info (pos 3) ∷ inactive_info (pos 4) ∷ [];
}

info_made : (get_log_info_handler api 1).0 ≡ ok log_info
unfolding get_log_info_handler inactive_infos inactive_shard_log_info shard_info get_latest
    log_info_of create_and_sign_checkpoint_multiple create_signed_checkpoint sign_all sign
    get_public_key_hash
info_made = refl

get_log_info_handler-names_example :
    (map (named api) log_info.inactive_shards
      ≡ map (name_of api) (shard 3 17 (codes "key3") ∷ shard 4 3 (codes "key4") ∷ []))
    × (log_info.tree_id ≡ format_int 10 (pos 5))
get_log_info_handler-names_example = get_log_info_handler-names api 1 log_info info_made

-- The hash of every leaf is the one of the server's.
abbrev pub seven_of : Bytes → Bytes
seven_of _ = hash_seven

abbrev pub added_entry : EntryId × LogEntryAnon
added_entry = (
  record { tree_id = replicate 15 b'0' ++ b'5' ∷ []; uuid = hex_encode hash_seven },
  verified api (anon_of_leaf api leaf_seven (pos 5) shards.active)
      (verification_of api root_seven proof_seven (note_string head_five) (5 ∷ []) []),
)

pub entry_added : created api seven_of (b'x' ∷ []) added_seven ≡ ok added_entry
unfolding created check_insertion entry_of_added added_verification sign_entry_multiple sign_each
    create_entry_id_from_parts format_int format_uint digits hex_encode hex_decode
    pad_to_tree_id_len validate_entry_id validate_uuid pad_zeros rune_count count_from
    validate_plain_uuid validate_tree_id validate_plain_tree_id parse_int
    create_and_sign_checkpoint_multiple create_signed_checkpoint sign_all sign get_public_key_hash
entry_added = refl

abbrev duplicate : QueuedLeaf
duplicate = record { leaf = leaf_seven; status = some already_exists }

created-conflict_example :
    (id : Bytes) × (created api seven_of
        (b'x' ∷ [])
        (record success { get_add_result = some duplicate })
      ≡ err (entry_already_exists id))
    × (tree_id_of id ≡ ok (pos 5))
    × (get_uuid_from_id_string id ≡ ok (hex_encode hash_seven))
created-conflict_example =
    created-conflict api seven_of (b'x' ∷ []) (record success { get_add_result = some duplicate })
      duplicate 5 refl refl (inl refl) refl (omega arith) (omega arith) refl seven_bytes
