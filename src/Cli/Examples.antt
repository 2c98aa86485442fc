-- ===== src/Cli/Examples.antt =====
-- A disk and a server on which the theorems about the command loginfo are applied.
use rekor.Base.{
  ℕ, ◌≡◌, refl, Bool, true, false, [], ◌∷◌, ◌++◌, Option, none, some, if◌then◌else◌, Result, ok,
  err, length,
}
use rekor.Base.Bytes.{Bytes, bytes_eq, codes}
use rekor.Base.Int64.{pos}
use rekor.Golib.Base64
use rekor.Golib.Hex.{hex_encode}
use rekor.Golib.Num.{format_int, format_uint, digits, parse_uint}
use rekor.Util.SignedNote.{verify, verify_from, note_string, get_public_key_hash}
use rekor.Util.Checkpoint.{marshal_checkpoint, unmarshal_checkpoint}
use rekor.Util.NoteText.{unmarshal_signed_checkpoint, unmarshal_text, split_last, read_signatures}
use rekor.Util.Examples.{hash_one, signed_three}
use rekor.Types.VersionMap.{put}
use rekor.Api.Tlog.{LogInfo}
use rekor.Verify.{Rekor, prove_consistency_of, decode_hashes}
use rekor.Verify.Examples.{checks, older}
use rekor.Cli.State.{
  or_new, PersistedState, Files, find, get_rekor_dir, load_state_file, load, dump,
}
use rekor.Cli.State.Stored.{IsFileSystem, IsPreserved, dump-load}
use rekor.Cli.LogInfo.{
  Client, output_of, load_verifier, old_state, verify_tree, verify_inactive_trees, log_info_cmd,
}
use rekor.Cli.LogInfo.Verified.{IsVerified, log_info_cmd-IsVerified}

-- Whether the directory is there, and what the file holds.
abbrev Disk : Type 0
Disk = Bool × Option Bytes

abbrev stored_older : PersistedState
stored_older = (codes "3", some older) ∷ []

abbrev or_missing : Option Bytes → Result ℕ Bytes
or_missing none = err 1
or_missing (some b) = ok b

-- The JSON is the number of the trees.
abbrev disk_files : Files ℕ Disk
disk_files = record {
  user_home_dir = λ _. ok (codes "/home");
  join = λ a b. a ++ b'/' ∷ b;
  clean = λ p. p;
  stat = λ _ w. if w.0 then none else some 0;
  is_not_exist = λ _. true;
  mkdir_all = λ _ w. (none, (true, w.1));
  read_file = λ _ w. or_missing w.1;
  write_file = λ _ b w. (none, (w.0, some b));
  marshal = λ m. ok (length m ∷ []);
  unmarshal = λ _. ok (some stored_older);
}

disk_files-IsFileSystem : IsFileSystem disk_files
disk_files-IsFileSystem = record {
  mkdir_home = λ _ _. refl;
  mkdir_makes = λ _ _ _. refl;
  write_home = λ _ _ _. refl;
  write_stat = λ _ _ _ _ h. h;
  reads_written = λ _ _ _ _. refl;
}

abbrev empty_disk : Disk
empty_disk = (false, none)

older_dumped : (dump disk_files (codes "3") older empty_disk).0 ≡ ok tt
unfolding dump get_rekor_dir load_state_file
older_dumped = refl

older-IsPreserved :
    IsPreserved disk_files
      (put (codes "3") (some older) (or_new (load_state_file disk_files empty_disk).0))
unfolding put load_state_file get_rekor_dir
older-IsPreserved b e = refl

dump-load_example :
    (load disk_files (codes "3") (dump disk_files (codes "3") older empty_disk).1).0 ≡ (
      if bytes_eq (codes "3") (codes "3")
      then some older
      else (load disk_files (codes "3") empty_disk).0)
dump-load_example =
    dump-load disk_files disk_files-IsFileSystem (codes "3") (codes "3") older empty_disk
      older-IsPreserved older_dumped

abbrev grown_server : Rekor ℕ Disk
grown_server = record {
  get_log_proof = λ _ _ _ w. (ok [], w);
  get_log_info = λ w. (ok (note_string signed_three, codes "3"), w);
}

-- A log with a shard that is not active, which has no stored head, and an active one, which has.
abbrev two_trees : LogInfo
two_trees = record {
  root_hash = hex_encode hash_one;
  tree_size = pos 7;
  signed_tree_head = note_string signed_three;
  tree_id = codes "3";
  inactive_shards =
      record {
        root_hash = hex_encode hash_one;
        tree_size = pos 7;
        tree_id = codes "2";
        signed_tree_head = note_string signed_three;
      }
      ∷ [];
}

abbrev loginfo : Client ℕ Bytes ℕ Disk
loginfo = record {
  server_url = codes "url";
  rekor_server_public_key = [];
  store_tree_state = true;
  get_log_info = λ w. (ok two_trees, w);
  get_public_key = λ _ w. (ok (codes "key"), w);
  pem_decode = λ b. some b;
  unmarshal_key = λ b. ok b;
  key_verifier = λ _. ok 3;
}

abbrev older_disk : Disk
older_disk = (true, some (1 ∷ []))

printed :
    (log_info_cmd checks grown_server disk_files loginfo older_disk).0 ≡ ok (output_of two_trees)
unfolding log_info_cmd verify_inactive_trees verify_tree old_state load_verifier load dump
    load_state_file get_rekor_dir find put verify get_public_key_hash verify_from
    unmarshal_signed_checkpoint unmarshal_text split_last read_signatures unmarshal_checkpoint
    marshal_checkpoint note_string prove_consistency_of decode_hashes format_int format_uint digits
    Base64.decode Base64.encode Base64.decode_prefix parse_uint
printed = refl

log_info_cmd-IsVerified_example :
    (info : LogInfo) × ((loginfo.get_log_info older_disk).0 ≡ ok info)
    × IsVerified checks grown_server disk_files loginfo older_disk info (output_of two_trees)
log_info_cmd-IsVerified_example =
    log_info_cmd-IsVerified checks grown_server disk_files loginfo older_disk
      {o = output_of two_trees} printed
