-- ===== src/Api/Search.antt =====
-- pkg/api/entries.go: SearchLogQueryHandler. What the types package makes of a proposed entry is a
-- parameter; a `panic` of a call is passed on as its error.
pub mod Lengths
pub mod Bounds
mod Examples
use rekor.Base.{
  ℕ, ◌+◌, Bool, true, false, List, [], ◌∷◌, ◌++◌, Option, none, some, if◌then◌else◌, ltb, ◌==◌,
  length, Result, ok, err, ◌>>=◌, wrap,
}
use rekor.Base.Bytes.{Bytes}
use rekor.Base.Int64.{ℤ, pos, int_eq}
use rekor.Golib.Hex.{hex_decode}
use rekor.Sharding.EntryId.{entry_id_hex_string_len, validate_entry_id, validate_uuid}
use rekor.Sharding.EntryId
use rekor.Sharding.Ranges.{all_shards}
use rekor.Trillian.Client.{Code, CallError, Leaf, EntryAndProof, Response, Server}
use rekor.Trillian.Client.Calls.{get_leaf_and_proof_by_hash}
use rekor.Api.{Api, Error, panic, LogEntry}
use rekor.Api.Leaf.{log_entry_from_leaf}
use rekor.Api.Retrieve.{
  Found, yes_found, missing, broken, status_by_hash, retrieve_log_entry,
  retrieve_log_entry_by_index,
}

-- models.SearchLogQuery; a proposed entry is a value of `X`, and a log index a pointer.
pub record SearchLogQuery (X : Type 0) : Type 0 where
  pub entry_uuids : List Bytes
  pub entries : List X
  pub log_indexes : List (Option ℤ)

-- Entries of the types package, and the hash of a leaf.
pub record Entries (E X Y : Type 0) : Type 0 where
  pub unmarshal_entry : X → Result E Y
  pub canonicalize_entry : Y → Result E Bytes
  pub hash_leaf : Bytes → Bytes

pub data SearchError (E : Type 0) : Type 0 where
  too_many_queries : ℕ → SearchError E
  entry_failed : Bytes → Error E → SearchError E
  invalid_entry_id invalid_uuid : EntryId.Error → SearchError E
  malformed_uuid : Bytes → SearchError E
  unmarshalling_entry canonicalizing_entry : E → SearchError E
  client_failed : E → SearchError E
  lookup_failed : Bytes → Code → Option (CallError E) → SearchError E
  unexpected_result index_failed : Error E → SearchError E

-- The status of the answer to each error.
abbrev pub http_status : {E : Type 0} → SearchError E → ℕ
http_status (too_many_queries _) = 422
http_status (invalid_entry_id _) = 400
http_status (invalid_uuid _) = 400
http_status (malformed_uuid _) = 400
http_status (unmarshalling_entry _) = 400
http_status (canonicalizing_entry _) = 400
http_status _ = 500

abbrev pub max_search_queries : ℕ
max_search_queries = 10

-- The entries that were found, and the hashes that are looked up later.
abbrev pub Progress : Type 0
Progress = List LogEntry × List Bytes

-- map[int64]*trillian.GetEntryAndProofResponse, in the order in which the shards were put in; Go's
-- iteration may take them in any other order.
abbrev pub Results : Type 0
Results = List (ℤ × EntryAndProof)

unfoldable pub put : ℤ → EntryAndProof → Results → Results
put shard m [] = (shard, m) ∷ []
put shard m ((s, n) ∷ results) =
    let rest = put shard m results in if int_eq s shard then (shard, m) ∷ results else (s, n) ∷ rest

-- conv.Value
abbrev pub value_of : Option ℤ → ℤ
value_of none = pos 0
value_of (some i) = i

-- A result without a leaf is not kept.
abbrev pub put_if : ℤ → EntryAndProof → Results → Option Leaf → Results
put_if shard m results none = results
put_if shard m results (some _) = put shard m results

abbrev pub add_result : ℤ → Results → Option EntryAndProof → Results
add_result shard results none = results
add_result shard results (some m) = put_if shard m results m.leaf

module _ {E : Type 0} where
  abbrev pub decoded : Bytes → Option Bytes → Result (SearchError E) Bytes
  decoded uuid none = err (malformed_uuid uuid)
  decoded uuid (some hash) = ok hash

  unfoldable pub hash_of_uuid : Bytes → Result (SearchError E) Bytes
  hash_of_uuid uuid = wrap invalid_uuid (validate_uuid uuid) >>= λ _. decoded uuid (hex_decode uuid)

  abbrev pub with_response :
      Bytes → ℤ → Results → Response E → Found → Result (SearchError E) Results
  with_response hash shard results resp yes_found =
      ok (add_result shard results resp.get_leaf_and_proof_result)
  with_response hash shard results resp missing = ok results
  with_response hash shard results resp broken = err (lookup_failed hash resp.status resp.error)

module _ {E W : Type 0} where
  abbrev pub on_ok :
      {A B : Type 0}
      → Result (SearchError E) A × W
      → (A → W → Result (SearchError E) B × W)
      → Result (SearchError E) B × W
  on_ok (err e, w) next = (err e, w)
  on_ok (ok a, w) next = next a w

  -- An entry that is not found is left out.
  abbrev pub with_entry :
      (Error E → SearchError E)
      → List LogEntry
      → Result (Error E) LogEntry × W
      → Result (SearchError E) (List LogEntry) × W
  with_entry f payload (ok e, w) = (ok (payload ++ e ∷ []), w)
  with_entry f payload (err Error.not_found, w) = (ok payload, w)
  with_entry f payload (err e, w) = (err (f e), w)

module _ {E S V P W X Y : Type 0} (api : Api E S V P W) (types : Entries E X Y) where
  -- An id of the length of an entry id is an error, and another a UUID.
  abbrev pub with_invalid_id :
      Bytes → Progress → EntryId.Error → Bool → Result (SearchError E) Progress
  with_invalid_id id progress e true = err (invalid_entry_id e)
  with_invalid_id id (payload, hashes) e false =
      hash_of_uuid id >>= λ hash. ok (payload, hashes ++ hash ∷ [])

  -- An entry id that is valid; else, if its length is not that of one, a UUID.
  abbrev pub with_id :
      Bytes → Progress → Result EntryId.Error (Unit {0}) → W → Result (SearchError E) Progress × W
  with_id id (payload, hashes) (ok _) w =
      on_ok (with_entry (entry_failed id) payload (retrieve_log_entry api id w))
        (λ found v. (ok (found, hashes), v))
  with_id id (payload, hashes) (err e) w =
      (with_invalid_id id (payload, hashes) e (length id == entry_id_hex_string_len), w)

  unfoldable pub search_ids : List Bytes → Progress → W → Result (SearchError E) Progress × W
  search_ids [] progress w = (ok progress, w)
  search_ids (id ∷ ids) progress w =
      on_ok (with_id id progress (validate_entry_id id) w) (search_ids ids)

  -- The hashes of proposed entries.
  unfoldable pub entry_hashes : List X → Result (SearchError E) (List Bytes)
  entry_hashes [] = ok []
  entry_hashes (e ∷ es) = do
    entry ← wrap unmarshalling_entry (types.unmarshal_entry e)
    leaf ← wrap canonicalizing_entry (types.canonicalize_entry entry)
    hashes ← entry_hashes es
    ok (types.hash_leaf leaf ∷ hashes)

  abbrev pub shard_result_from :
      Bytes → ℤ → Results → Result E (Server E W) × W → Result (SearchError E) Results × W
  shard_result_from hash shard results (err e, w) = (err (client_failed e), w)
  shard_result_from hash shard results (ok tc, w) =
      let (resp, v) = get_leaf_and_proof_by_hash tc hash w in
      (with_response hash shard results resp (status_by_hash resp.status), v)

  -- The loop over all shards for one hash.
  unfoldable pub search_shards : Bytes → List ℤ → Results → W → Result (SearchError E) Results × W
  search_shards hash [] results w = (ok results, w)
  search_shards hash (shard ∷ shards) results w =
      on_ok (shard_result_from hash shard results (api.get_trillian_client shard w))
        (search_shards hash shards)

  unfoldable pub search_hashes : List Bytes → W → Result (SearchError E) (List Results) × W
  search_hashes [] w = (ok [], w)
  search_hashes (hash ∷ hashes) w =
      on_ok (search_shards hash (all_shards api.log_ranges) [] w)
        (λ results v. on_ok (search_hashes hashes v) (λ more u. (ok (results ∷ more), u)))

  -- The entry of a result; a result without a proof is read through a nil pointer.
  abbrev pub result_entry : ℤ → Option Leaf → EntryAndProof → W → Result (Error E) LogEntry × W
  result_entry shard none m w = (err panic, w)
  result_entry shard (some leaf) m w = elim m.proof [
    | none ↦ (err panic, w)
    | some proof ↦ log_entry_from_leaf api leaf m.signed_log_root proof shard w
  ]

  abbrev pub and_entry :
      List LogEntry → Result (Error E) LogEntry × W → Result (SearchError E) (List LogEntry) × W
  and_entry payload (ok e, w) = (ok (payload ++ e ∷ []), w)
  and_entry payload (err e, w) = (err (unexpected_result e), w)

  unfoldable pub result_entries :
      Results → List LogEntry → W → Result (SearchError E) (List LogEntry) × W
  result_entries [] payload w = (ok payload, w)
  result_entries ((shard, m) ∷ results) payload w =
      on_ok (and_entry payload (result_entry shard m.leaf m w)) (result_entries results)

  unfoldable pub all_entries :
      List Results → List LogEntry → W → Result (SearchError E) (List LogEntry) × W
  all_entries [] payload w = (ok payload, w)
  all_entries (results ∷ more) payload w =
      on_ok (result_entries results payload w) (all_entries more)

  abbrev pub with_hashes :
      Progress
      → Result (SearchError E) (List Bytes)
      → W
      → Result (SearchError E) (List LogEntry) × W
  with_hashes (payload, hashes) (err e) w = (err e, w)
  with_hashes (payload, hashes) (ok more) w =
      on_ok (search_hashes (hashes ++ more) w) (λ results v. all_entries results payload v)

  -- `if len(params.Entry.EntryUUIDs) > 0 || len(params.Entry.Entries()) > 0`
  abbrev pub search_by_id : List Bytes → List X → W → Result (SearchError E) (List LogEntry) × W
  search_by_id [] [] w = (ok [], w)
  search_by_id ids entries w =
      on_ok (search_ids ids ([], []) w)
        (λ progress v. with_hashes progress (entry_hashes entries) v)

  unfoldable pub search_indexes :
      List (Option ℤ) → List LogEntry → W → Result (SearchError E) (List LogEntry) × W
  search_indexes [] payload w = (ok payload, w)
  search_indexes (i ∷ is) payload w =
      on_ok (with_entry index_failed payload (retrieve_log_entry_by_index api (value_of i) w))
        (search_indexes is)

  abbrev pub unless_too_many :
      Bool → SearchLogQuery X → W → Result (SearchError E) (List LogEntry) × W
  unless_too_many true q w = (err (too_many_queries max_search_queries), w)
  unless_too_many false q w =
      on_ok (search_by_id q.entry_uuids q.entries w) (search_indexes q.log_indexes)

  abbrev pub total_queries : SearchLogQuery X → ℕ
  total_queries q = length q.entry_uuids + length q.entries + length q.log_indexes

  unfoldable pub search_log_query_handler :
      SearchLogQuery X → W → Result (SearchError E) (List LogEntry) × W
  search_log_query_handler q w = unless_too_many (ltb max_search_queries (total_queries q)) q w
