-- ===== src/Api/Retrieve.antt =====
-- pkg/api/entries.go: an entry by its index, by its id, and the handlers that answer with one.
pub mod Shards
use rekor.Base.{
  ℕ, Bool, true, false, List, [], ◌∷◌, Option, none, some, if◌then◌else◌, Result, ok, err, ◌>>=◌,
}
use rekor.Base.Bytes.{Bytes}
use rekor.Base.Int64.{ℤ}
use rekor.Golib.Hex.{hex_decode}
use rekor.Sharding.EntryId.{plain_uuid, get_uuid_from_id_string, tree_id_of}
use rekor.Sharding.EntryId
use rekor.Sharding.Ranges.{
  LogRange, get_active, get_inactive, resolve_virtual_index, get_log_range_by_tree_id,
}
use rekor.Sharding.Ranges
use rekor.Trillian.Client.{
  Code, ok_code, not_found, out_of_range, invalid_argument, CallError, Leaf, EntryAndProof,
  Response, Server,
}
use rekor.Trillian.Client.Calls.{get_leaf_and_proof_by_hash, get_leaf_and_proof_by_index}
use rekor.Api.{
  Api, Error, input_validation, bad_entry, log_client, grpc_error, unexpected_error, invalid_id,
  bad_tree_id, panic, LogEntry,
}
use rekor.Api
use rekor.Api.Leaf.{log_entry_from_leaf}

-- How the callers look at a status.
pub data Found : Type 0 where
  yes_found missing broken : Found

abbrev pub status_by_index : Code → Found
status_by_index ok_code = yes_found
status_by_index not_found = missing
status_by_index out_of_range = missing
status_by_index invalid_argument = missing
status_by_index _ = broken

abbrev pub status_by_hash : Code → Found
status_by_hash ok_code = yes_found
status_by_hash not_found = missing
status_by_hash _ = broken

module _ {E S V P W : Type 0} (api : Api E S V P W) where
  -- A result without a leaf is not found by index, and a nil pointer by hash.
  abbrev pub from_result : Error E → ℤ → Option EntryAndProof → W → Result (Error E) LogEntry × W
  from_result no_leaf tid none w = (err panic, w)
  from_result no_leaf tid (some m) w = elim m.leaf [
    | none ↦ (err no_leaf, w)
    | some leaf ↦ elim m.proof [
      | none ↦ (err panic, w)
      | some p ↦ log_entry_from_leaf api leaf m.signed_log_root p tid w
    ]
  ]

  abbrev pub by_index_status : ℤ → Response E → Found → W → Result (Error E) LogEntry × W
  by_index_status tid r yes_found w = from_result Error.not_found tid r.get_leaf_and_proof_result w
  by_index_status tid r missing w = (err Error.not_found, w)
  by_index_status tid r broken w = (err (grpc_error r.error), w)

  abbrev pub by_index_from : ℤ → ℤ → Result E (Server E W) × W → Result (Error E) LogEntry × W
  by_index_from tid index (err e, w) = (err (log_client tid e), w)
  by_index_from tid index (ok server, w) =
      let (r, v) = get_leaf_and_proof_by_index server index w in
      by_index_status tid r (status_by_index r.status) v

  pub retrieve_log_entry_by_index : ℤ → W → Result (Error E) LogEntry × W
  retrieve_log_entry_by_index log_index w =
      let (tid, resolved_index) = resolve_virtual_index api.log_ranges log_index in
      by_index_from tid resolved_index (api.get_trillian_client tid w)

  -- An error beside the status OK is looked at before the result.
  abbrev pub by_hash_ok :
      ℤ → Option (CallError E) → Option EntryAndProof → W → Result (Error E) LogEntry × W
  by_hash_ok tid none m w = from_result panic tid m w
  by_hash_ok tid (some e) none w = (err panic, w)
  by_hash_ok tid (some e) (some m) w = elim m.leaf [
    | none ↦ (err Error.not_found, w)
    | some _ ↦ (err (grpc_error (some e)), w)
  ]

  abbrev pub by_hash_status : ℤ → Response E → Found → W → Result (Error E) LogEntry × W
  by_hash_status tid r yes_found w = by_hash_ok tid r.error r.get_leaf_and_proof_result w
  by_hash_status tid r missing w = (err Error.not_found, w)
  by_hash_status tid r broken w = (err unexpected_error, w)

  abbrev pub by_hash_from : ℤ → Bytes → Result E (Server E W) × W → Result (Error E) LogEntry × W
  by_hash_from tid hash (err e, w) = (err (log_client tid e), w)
  by_hash_from tid hash (ok server, w) =
      let (r, v) = get_leaf_and_proof_by_hash server hash w in
      by_hash_status tid r (status_by_hash r.status) v

  abbrev pub with_hash : ℤ → Bytes → Option Bytes → W → Result (Error E) LogEntry × W
  with_hash tid uuid none w = (err (input_validation uuid), w)
  with_hash tid uuid (some hash) w = by_hash_from tid hash (api.get_trillian_client tid w)

  -- An unknown tree id is rejected before any client is asked for.
  abbrev pub in_known_tree :
      Bytes → ℤ → Result Ranges.Error (LogRange S) → W → Result (Error E) LogEntry × W
  in_known_tree uuid tid (err _) w = (err Error.not_found, w)
  in_known_tree uuid tid (ok _) w = with_hash tid uuid (hex_decode uuid) w

  unfoldable pub retrieve_uuid_from_tree : Bytes → ℤ → W → Result (Error E) LogEntry × W
  retrieve_uuid_from_tree uuid tid w =
      in_known_tree uuid tid (get_log_range_by_tree_id api.log_ranges tid) w

  -- The loop over the shards: not found goes on to the next one.
  abbrev pub or_next :
      Result (Error E) LogEntry × W
      → (W → Result (Error E) LogEntry × W)
      → Result (Error E) LogEntry × W
  or_next (err Error.not_found, w) next = next w
  or_next (r, w) next = (r, w)

  unfoldable pub search_trees : Bytes → List (LogRange S) → W → Result (Error E) LogEntry × W
  search_trees uuid [] w = (err Error.not_found, w)
  search_trees uuid (t ∷ ts) w =
      or_next (retrieve_uuid_from_tree uuid t.tree_id w) (search_trees uuid ts)

  abbrev pub by_tree : Bytes → Result EntryId.Error ℤ → W → Result (Error E) LogEntry × W
  by_tree uuid (ok tid) w = retrieve_uuid_from_tree uuid tid w
  by_tree uuid (err plain_uuid) w =
      search_trees uuid (get_active api.log_ranges ∷ get_inactive api.log_ranges) w
  by_tree uuid (err e) w = (err (bad_tree_id e), w)

  -- Whatever is wrong with the id, the error is that of a plain UUID.
  abbrev pub by_uuid : Bytes → Result EntryId.Error Bytes → W → Result (Error E) LogEntry × W
  by_uuid id (err _) w = (err invalid_id, w)
  by_uuid id (ok uuid) w = by_tree uuid (tree_id_of id) w

  unfoldable pub retrieve_log_entry : Bytes → W → Result (Error E) LogEntry × W
  retrieve_log_entry entry_uuid w = by_uuid entry_uuid (get_uuid_from_id_string entry_uuid) w

-- What the handlers of one entry answer; an error carries its HTTP status.
pub data Answer (E : Type 0) : Type 0 where
  payload : LogEntry → Answer E
  failure : ℕ → Error E → Answer E

module _ {E S V P W : Type 0} (api : Api E S V P W) where
  abbrev pub index_answer : Result (Error E) LogEntry → Answer E
  index_answer (ok e) = payload e
  index_answer (err Error.not_found) = failure 404 Error.not_found
  index_answer (err x) = failure 500 x

  pub get_log_entry_by_index_handler : ℤ → W → Answer E × W
  get_log_entry_by_index_handler index w =
      let (r, v) = retrieve_log_entry_by_index api index w in (index_answer r, v)

  abbrev pub uuid_answer : Result (Error E) LogEntry → Answer E
  uuid_answer (ok e) = payload e
  uuid_answer (err Error.not_found) = failure 404 Error.not_found
  uuid_answer (err (input_validation u)) = failure 400 (input_validation u)
  uuid_answer (err (bad_entry e)) =
      failure (if api.is_input_validation e then 400 else 500) (bad_entry e)
  uuid_answer (err x) = failure 500 x

  pub get_log_entry_by_uuid_handler : Bytes → W → Answer E × W
  get_log_entry_by_uuid_handler entry_uuid w =
      let (r, v) = retrieve_log_entry api entry_uuid w in (uuid_answer r, v)
