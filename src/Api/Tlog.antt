-- ===== src/Api/Tlog.antt =====
-- pkg/api/tlog.go: the handlers that describe the log and prove that it only grew.
pub mod Shards
use rekor.Base.{
  ℕ, Bool, true, false, List, [], ◌∷◌, Option, none, some, map, Result, ok, err, ◌>>=◌, wrap,
}
use rekor.Base.Bytes.{Bytes}
use rekor.Base.Int64.{ℤ, pos, int_lt, to_int64}
use rekor.Golib.Hex.{hex_encode}
use rekor.Golib.Num.{format_int, parse_int}
use rekor.Sharding.Ranges.{LogRange, get_active, get_inactive, get_log_range_by_tree_id}
use rekor.Sharding.Ranges
use rekor.Trillian.Client.{Code, ok_code, CallError, LogRoot, ConsistencyProof, Response, Server}
use rekor.Trillian.Client.Calls.{get_latest, get_consistency_proof}
use rekor.Util.SignedCheckpoint.{create_and_sign_checkpoint_multiple}
use rekor.Util.SignedCheckpoint
use rekor.Api.{Api}

-- models.InactiveShardLogInfo; the tree head of a shard without a cached checkpoint is empty.
pub record InactiveShardLogInfo : Type 0 where
  pub root_hash : Bytes
  pub tree_size : ℤ
  pub tree_id : Bytes
  pub signed_tree_head : Bytes

pub record LogInfo : Type 0 where
  pub root_hash : Bytes
  pub tree_size : ℤ
  pub signed_tree_head : Bytes
  pub tree_id : Bytes
  pub inactive_shards : List InactiveShardLogInfo

pub record LogProof : Type 0 where
  pub root_hash : Bytes
  pub hashes : List Bytes

-- `panic` is a read through a nil pointer.
pub data TlogError (E : Type 0) : Type 0 where
  client_error : E → TlogError E
  grpc_error : Option (CallError E) → TlogError E
  response_code : Code → TlogError E
  bad_log_root : CallError E → TlogError E
  inactive_shard : TlogError E → TlogError E
  sth_generate : SignedCheckpoint.Error E → TlogError E
  first_size_less_than_last_size : ℤ → ℤ → TlogError E
  invalid_tree_id : Bytes → TlogError E
  unknown_tree : Ranges.Error → TlogError E
  last_size_greater_than_known : ℤ → ℕ → TlogError E
  panic : TlogError E

-- The status of the answer to each error that the handlers report.
abbrev pub http_status : {E : Type 0} → TlogError E → ℕ
http_status (first_size_less_than_last_size _ _) = 400
http_status (invalid_tree_id _) = 400
http_status (unknown_tree _) = 400
http_status (last_size_greater_than_known _ _) = 400
http_status _ = 500

abbrev pub cached : Option Bytes → Bytes
cached none = []
cached (some c) = c

module _ {E : Type 0} where
  abbrev pub ok_or : TlogError E → Code → Result (TlogError E) (Unit {0})
  ok_or e ok_code = ok tt
  ok_or e _ = err e

  abbrev pub deref : {A : Type 0} → Option A → Result (TlogError E) A
  deref none = err panic
  deref (some a) = ok a

module _ {E S V P W : Type 0} (api : Api E S V P W) where
  unfoldable pub shard_info : ℤ → Response E → Result (TlogError E) InactiveShardLogInfo
  shard_info tid resp = do
    _ ← ok_or (response_code resp.status) resp.status
    signed_log_root ← deref resp.get_latest_result
    root ← wrap bad_log_root (api.unmarshal_log_root signed_log_root)
    ok (record {
      root_hash = hex_encode root.root_hash;
      tree_size = to_int64 root.tree_size;
      tree_id = format_int 10 tid;
      signed_tree_head = cached (api.cached_checkpoints tid);
    })

  abbrev pub shard_info_from :
      ℤ → Result E (Server E W) × W → Result (TlogError E) InactiveShardLogInfo × W
  shard_info_from tid (err e, w) = (err (client_error e), w)
  shard_info_from tid (ok tc, w) =
      let (resp, v) = get_latest tc (pos 0) w in (shard_info tid resp, v)

  unfoldable pub inactive_shard_log_info : ℤ → W → Result (TlogError E) InactiveShardLogInfo × W
  inactive_shard_log_info tid w = shard_info_from tid (api.get_trillian_client tid w)

  abbrev pub and_rest :
      Result (TlogError E) InactiveShardLogInfo × W
      → (W → Result (TlogError E) (List InactiveShardLogInfo) × W)
      → Result (TlogError E) (List InactiveShardLogInfo) × W
  and_rest (err e, w) rest = (err (inactive_shard e), w)
  and_rest (ok is, w) rest = let (r, v) = rest w in (r >>= λ more. ok (is ∷ more), v)

  -- The loop over the inactive shards, which ends with the first error.
  unfoldable pub inactive_infos :
      List (LogRange S) → W → Result (TlogError E) (List InactiveShardLogInfo) × W
  inactive_infos [] w = (ok [], w)
  inactive_infos (shard ∷ shards) w =
      and_rest (inactive_shard_log_info shard.tree_id w) (inactive_infos shards)

  unfoldable pub log_info_of : List InactiveShardLogInfo → Response E → Result (TlogError E) LogInfo
  log_info_of inactive_shards resp = do
    _ ← ok_or (grpc_error resp.error) resp.status
    signed_log_root ← deref resp.get_latest_result
    root ← wrap bad_log_root (api.unmarshal_log_root signed_log_root)
    sc ← wrap sth_generate (
        create_and_sign_checkpoint_multiple api.crypto api.hostname
          (get_active api.log_ranges).tree_id root.tree_size root.root_hash
          (get_active api.log_ranges).signers)
    ok (record {
      root_hash = hex_encode root.root_hash;
      tree_size = to_int64 root.tree_size;
      signed_tree_head = sc;
      tree_id = format_int 10 (get_active api.log_ranges).tree_id;
      inactive_shards = inactive_shards;
    })

  abbrev pub with_infos :
      Server E W
      → Result (TlogError E) (List InactiveShardLogInfo) × W
      → Result (TlogError E) LogInfo × W
  with_infos tc (err e, w) = (err e, w)
  with_infos tc (ok infos, w) =
      let (resp, v) = get_latest tc (pos 0) w in (log_info_of infos resp, v)

  abbrev pub log_info_from : Result E (Server E W) × W → Result (TlogError E) LogInfo × W
  log_info_from (err e, w) = (err (client_error e), w)
  log_info_from (ok tc, w) = with_infos tc (inactive_infos (get_inactive api.log_ranges) w)

  unfoldable pub get_log_info_handler : W → Result (TlogError E) LogInfo × W
  get_log_info_handler w =
      log_info_from (api.get_trillian_client (get_active api.log_ranges).tree_id w)

  -- No proof: the last size is larger than the server knows.
  abbrev pub hashes_or : TlogError E → Option (List Bytes) → Result (TlogError E) (List Bytes)
  hashes_or e none = err e
  hashes_or e (some hashes) = ok (map hex_encode hashes)

  unfoldable pub log_proof_of : ℤ → Response E → Result (TlogError E) LogProof
  log_proof_of last_size resp = do
    _ ← ok_or (grpc_error resp.error) resp.status
    result ← deref resp.get_consistency_proof_result
    root ← wrap bad_log_root (api.unmarshal_log_root result.signed_log_root)
    hashes ← hashes_or (last_size_greater_than_known last_size root.tree_size) result.proof
    ok (record { root_hash = hex_encode root.root_hash; hashes = hashes })

  abbrev pub known_tree : ℤ → Result Ranges.Error (LogRange S) → Result (TlogError E) ℤ
  known_tree id (err e) = err (unknown_tree e)
  known_tree id (ok _) = ok id

  abbrev pub parsed_tree : Bytes → Option ℤ → Result (TlogError E) ℤ
  parsed_tree text none = err (invalid_tree_id text)
  parsed_tree text (some id) = known_tree id (get_log_range_by_tree_id api.log_ranges id)

  -- The tree that is asked about: the active one if the parameter is absent or empty.
  unfoldable pub tree_asked : Bytes → Result (TlogError E) ℤ
  tree_asked [] = ok (get_active api.log_ranges).tree_id
  tree_asked (c ∷ cs) = parsed_tree (c ∷ cs) (parse_int 10 (c ∷ cs))

  abbrev pub log_proof_from : ℤ → ℤ → Result E (Server E W) × W → Result (TlogError E) LogProof × W
  log_proof_from first_size last_size (err e, w) = (err (client_error e), w)
  log_proof_from first_size last_size (ok tc, w) =
      let (resp, v) = get_consistency_proof tc first_size last_size w in
      (log_proof_of last_size resp, v)

  abbrev pub log_proof_in : ℤ → ℤ → Result (TlogError E) ℤ → W → Result (TlogError E) LogProof × W
  log_proof_in first_size last_size (err e) w = (err e, w)
  log_proof_in first_size last_size (ok tid) w =
      log_proof_from first_size last_size (api.get_trillian_client tid w)

  abbrev pub unless_reversed : Bool → ℤ → ℤ → Bytes → W → Result (TlogError E) LogProof × W
  unless_reversed true first_size last_size tree_id w =
      (err (first_size_less_than_last_size first_size last_size), w)
  unless_reversed false first_size last_size tree_id w =
      log_proof_in first_size last_size (tree_asked tree_id) w

  unfoldable pub get_log_proof_handler : ℤ → ℤ → Bytes → W → Result (TlogError E) LogProof × W
  get_log_proof_handler first_size last_size tree_id w =
      unless_reversed (int_lt last_size first_size) first_size last_size tree_id w
