-- ===== src/Sharding/Ranges/Examples.antt =====
-- Shards on which the theorems about pkg/sharding/ranges.go and log_index.go are applied.
use rekor.Base.{ℕ, ◌≡◌, refl, [], ◌∷◌, false, none, some, ok, inl, inr, arith}
use rekor.Base.Bytes.{Bytes, codes}
use rekor.Base.Int64.{ℤ, pos}
use rekor.Signer.{SignerConfig}
use rekor.Sharding.Ranges.{
  LogRange, LogRanges, get_inactive, resolve_virtual_index, virtual_log_index,
  get_log_range_by_tree_id,
}
use rekor.Sharding.Ranges.Indexing.{IsConsistent, HasLeaf, virtual-resolve, resolve-virtual}
use rekor.Sharding.Ranges.Sequence.{resolve-sequence}

abbrev no_signer : SignerConfig
no_signer = record {
  signing_scheme_or_key_path = [];
  file_signer_password = [];
  tink_kek_uri = [];
  tink_keyset_path = [];
  gcpkms_retries = 0;
  gcpkms_timeout = 0;
  mtc_cosigner = false;
}

abbrev pub shard : ℕ → ℕ → Bytes → LogRange ℕ
shard tree_id tree_length pem = record {
  tree_id = pos tree_id;
  tree_length = pos tree_length;
  signing_config = record { signer_config = no_signer; mtc = none; signers = [] };
  grpc_config = none;
  signer = some tree_id;
  pem_pub_key = pem;
  log_id = tree_id ∷ [];
  signers = tree_id ∷ [];
  pem_pub_keys = pem ∷ [];
  log_ids = (tree_id ∷ []) ∷ [];
}

-- Two inactive shards of 17 and 3 leaves, and the active one.
abbrev pub shards : LogRanges ℕ
shards = record {
  inactive = some (shard 3 17 (codes "key3") ∷ shard 4 3 (codes "key4") ∷ []);
  active = shard 5 0 (codes "key5");
}

pub shards-IsConsistent : IsConsistent shards
shards-IsConsistent = ((refl, refl, (refl, tt), (refl, refl, tt, tt)), omega arith)

virtual-resolve_example :
    (j : ℕ) × (t : ℤ) × (resolve_virtual_index shards (pos 18) ≡ (t, pos j))
    × HasLeaf t j shards.active (get_inactive shards)
    × (virtual_log_index (pos j) t shards ≡ pos 18)
virtual-resolve_example = virtual-resolve shards 18 shards-IsConsistent (omega arith)

resolve-virtual_example :
    resolve_virtual_index shards (virtual_log_index (pos 1) (pos 4) shards) ≡ (pos 4, pos 1)
resolve-virtual_example =
    resolve-virtual shards (pos 4) 1 shards-IsConsistent (inr (refl, inl (refl, omega arith)))
      (omega arith)

found_four : get_log_range_by_tree_id shards (pos 4) ≡ ok (shard 4 3 (codes "key4"))
unfolding get_log_range_by_tree_id
found_four = refl

resolve-sequence_example :
    (resolve_virtual_index shards (pos 18) ≡ (pos 4, pos 1))
    × (virtual_log_index (pos 1) (pos 4) shards ≡ pos 18)
resolve-sequence_example =
    resolve-sequence shards 5 18 (pos 4) 1 shards-IsConsistent (omega arith) refl
