-- ===== src/Cli/LogInfo.antt =====
-- cmd/rekor-cli/app/log_info.go: the command loginfo. The server, PEM and keys are parameters.
pub mod Verified
use rekor.Base.{ℕ, Bool, true, false, List, [], ◌∷◌, Option, none, some, Result, ok, err, wrap}
use rekor.Base.Bytes.{Bytes}
use rekor.Base.Int64.{ℤ, ◌+₆₄◌}
use rekor.Util.SignedNote.{verify}
use rekor.Util.SignedCheckpoint.{SignedCheckpoint}
use rekor.Util.NoteText.{CheckpointError, unmarshal_signed_checkpoint}
use rekor.Api.Tlog.{InactiveShardLogInfo, LogInfo}
use rekor.Verify.{Checks, Rekor, prove_consistency_of}
use rekor.Verify
use rekor.Cli.State.{Files, load, dump}

-- The flags of the command, the answers of the server, and the packages for keys.
pub record Client (E K V W : Type 0) : Type 0 where
  pub server_url : Bytes
  pub rekor_server_public_key : Bytes
  pub store_tree_state : Bool
  pub get_log_info : W → Result E LogInfo × W
  pub get_public_key : Bytes → W → Result E Bytes × W
  pub pem_decode : Bytes → Option Bytes
  pub unmarshal_key : Bytes → Result E K
  pub key_verifier : K → Result E V

pub data InfoError (E : Type 0) : Type 0 where
  info_unavailable key_unavailable bad_key no_verifier : E → InfoError E
  key_not_decoded head_not_verified : InfoError E
  bad_tree_head : CheckpointError → InfoError E
  not_consistent : Verify.Error E → InfoError E
  inactive_shard : Bytes → InfoError E → InfoError E

pub record LogInfoCmdOutput : Type 0 where
  pub active_tree_size : ℤ
  pub total_tree_size : ℤ
  pub root_hash : Bytes
  pub tree_id : Bytes

unfoldable pub total_from : ℤ → List InactiveShardLogInfo → ℤ
total_from total [] = total
total_from total (i ∷ is) = total_from (total +₆₄ i.tree_size) is

pub total_tree_size : LogInfo → List InactiveShardLogInfo → ℤ
total_tree_size active_shard inactive_shards = total_from active_shard.tree_size inactive_shards

module _ {E K V W : Type 0} (client : Client E K V W) where
  abbrev pub verifier_of : Result E K → Result (InfoError E) V
  verifier_of (err e) = err (bad_key e)
  verifier_of (ok k) = wrap no_verifier (client.key_verifier k)

  abbrev pub from_block : Option Bytes → Result (InfoError E) V
  from_block none = err key_not_decoded
  from_block (some block) = verifier_of (client.unmarshal_key block)

  abbrev pub from_server : Result E Bytes × W → Result (InfoError E) V × W
  from_server (err e, w) = (err (key_unavailable e), w)
  from_server (ok key, w) = (from_block (client.pem_decode key), w)

  abbrev pub verifier_with : Bytes → Bytes → W → Result (InfoError E) V × W
  verifier_with [] tree_id w = from_server (client.get_public_key tree_id w)
  verifier_with (k ∷ ks) tree_id w = (from_block (client.pem_decode (k ∷ ks)), w)

  unfoldable pub load_verifier : Bytes → W → Result (InfoError E) V × W
  load_verifier tree_id w = verifier_with client.rekor_server_public_key tree_id w

module _ {E K V W : Type 0} (files : Files E W) (client : Client E K V W) where
  abbrev pub state_of_tree : Bytes → Option SignedCheckpoint × W → Option SignedCheckpoint × W
  state_of_tree [] (old, w) = (old, w)
  state_of_tree (t ∷ ts) (old, w) = load files (t ∷ ts) w

  -- The head that is stored for the tree, or for the server if the tree has no id.
  unfoldable pub old_state : Bytes → W → Option SignedCheckpoint × W
  old_state tree_id w = state_of_tree tree_id (load files client.server_url w)

  -- An error of Dump is only logged.
  abbrev pub store : Bool → Bytes → SignedCheckpoint → W → W
  store false tree_id sth w = w
  store true [] sth w = (dump files client.server_url sth w).1
  store true (t ∷ ts) sth w = (dump files client.server_url sth (dump files (t ∷ ts) sth w).1).1

  abbrev pub stored :
      Bytes
      → SignedCheckpoint
      → Result (Verify.Error E) (Unit {0}) × W
      → Result (InfoError E) (Unit {0}) × W
  stored tree_id sth (err e, w) = (err (not_consistent e), w)
  stored tree_id sth (ok _, w) = (ok tt, store client.store_tree_state tree_id sth w)

module _ {E S V P W : Type 0} (c : Checks E S V P) (r : Rekor E W) where
  abbrev pub consistent_with :
      Option SignedCheckpoint
      → SignedCheckpoint
      → Bytes
      → W
      → Result (Verify.Error E) (Unit {0}) × W
  consistent_with none sth tree_id w = (ok tt, w)
  consistent_with (some old) sth tree_id w = prove_consistency_of c r old sth tree_id w

abbrev pub output_of : LogInfo → LogInfoCmdOutput
output_of info = record {
  active_tree_size = info.tree_size;
  total_tree_size = total_tree_size info info.inactive_shards;
  root_hash = info.root_hash;
  tree_id = info.tree_id;
}

module _ {E W : Type 0} where
  abbrev pub next_tree :
      Bytes
      → Result (InfoError E) (Unit {0}) × W
      → (W → Result (InfoError E) (Unit {0}) × W)
      → Result (InfoError E) (Unit {0}) × W
  next_tree tree_id (err e, w) rest = (err (inactive_shard tree_id e), w)
  next_tree tree_id (ok _, w) rest = rest w

  abbrev pub output_after :
      LogInfo → Result (InfoError E) (Unit {0}) × W → Result (InfoError E) LogInfoCmdOutput × W
  output_after info (err e, w) = (err e, w)
  output_after info (ok _, w) = (ok (output_of info), w)

module _ {E S K V P W : Type 0} (c : Checks E S V P) (r : Rekor E W) (files : Files E W)
    (client : Client E K V W) where
  abbrev pub if_signed :
      Bool
      → Option SignedCheckpoint
      → Bytes
      → SignedCheckpoint
      → W
      → Result (InfoError E) (Unit {0}) × W
  if_signed false old tree_id sth w = (err head_not_verified, w)
  if_signed true old tree_id sth w =
      stored files client tree_id sth (consistent_with c r old sth tree_id w)

  abbrev pub with_verifier :
      Option SignedCheckpoint
      → Bytes
      → SignedCheckpoint
      → Result (InfoError E) V × W
      → Result (InfoError E) (Unit {0}) × W
  with_verifier old tree_id sth (err e, w) = (err e, w)
  with_verifier old tree_id sth (ok v, w) =
      if_signed (verify c.crypto sth.signed_note v) old tree_id sth w

  abbrev pub with_head :
      Bytes
      → Result CheckpointError SignedCheckpoint
      → Option SignedCheckpoint × W
      → Result (InfoError E) (Unit {0}) × W
  with_head tree_id (err e) (old, w) = (err (bad_tree_head e), w)
  with_head tree_id (ok sth) (old, w) =
      with_verifier old tree_id sth (load_verifier client tree_id w)

  unfoldable pub verify_tree : Bytes → Bytes → W → Result (InfoError E) (Unit {0}) × W
  verify_tree signed_tree_head tree_id w =
      with_head tree_id (unmarshal_signed_checkpoint c.fscanf signed_tree_head)
        (old_state files client tree_id w)

  unfoldable pub verify_inactive_trees :
      List InactiveShardLogInfo → W → Result (InfoError E) (Unit {0}) × W
  verify_inactive_trees [] w = (ok tt, w)
  verify_inactive_trees (i ∷ is) w =
      next_tree i.tree_id (verify_tree i.signed_tree_head i.tree_id w) (verify_inactive_trees is)

  -- The head is read once more in front of the check.
  abbrev pub active_tree :
      LogInfo
      → Result CheckpointError SignedCheckpoint
      → W
      → Result (InfoError E) LogInfoCmdOutput × W
  active_tree info (err e) w = (err (bad_tree_head e), w)
  active_tree info (ok _) w = output_after info (verify_tree info.signed_tree_head info.tree_id w)

  abbrev pub after_inactive :
      LogInfo → Result (InfoError E) (Unit {0}) × W → Result (InfoError E) LogInfoCmdOutput × W
  after_inactive info (err e, w) = (err e, w)
  after_inactive info (ok _, w) =
      active_tree info (unmarshal_signed_checkpoint c.fscanf info.signed_tree_head) w

  abbrev pub from_info : Result E LogInfo × W → Result (InfoError E) LogInfoCmdOutput × W
  from_info (err e, w) = (err (info_unavailable e), w)
  from_info (ok info, w) = after_inactive info (verify_inactive_trees info.inactive_shards w)

  unfoldable pub log_info_cmd : W → Result (InfoError E) LogInfoCmdOutput × W
  log_info_cmd w = from_info (client.get_log_info w)
