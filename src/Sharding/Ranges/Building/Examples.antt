-- ===== src/Sharding/Ranges/Building/Examples.antt =====
-- A configuration on which the theorem about NewLogRanges of pkg/sharding/ranges.go is applied.
use rekor.Base.{ℕ, ◌≡◌, ◌≢◌, refl, [], ◌∷◌, false, none, some, ok, err, All, length}
use rekor.Base.Bytes.{Bytes, codes}
use rekor.Base.Int64.{pos}
use rekor.Signer.{
  SigningConfig, Providers, get_signer_configs, new, new_from_config, round, rounds,
  new_multiple_from_config, is_unset,
}
use rekor.Sharding.Ranges.{LogRange, LogRanges, get_inactive}
use rekor.Sharding.Ranges.Building.{
  Keys, Files, fresh_range, pems_and_ids, initialize_range, log_ranges_from_path, initialize_ranges,
  new_log_ranges,
}
use rekor.Sharding.Ranges.Building.Built.{IsInitialized, new_log_ranges-IsInitialized}

-- A signer is the length of its path.
abbrev providers : Providers ℕ ℕ ℕ
providers = record {
  kms_supported = [];
  gcp_scheme = codes "gcpkms";
  kms_get = λ _ _. err 0;
  new_memory = ok 0;
  new_tink = λ _ _. err 0;
  new_file = λ path _. ok (length path);
  load_key = λ path _. ok (length path);
  new_mtc = λ c. ok 100;
}

abbrev keys : Keys ℕ ℕ ℕ
keys = record {
  public_key_of = λ s. ok s;
  to_pem = λ p. ok (p ∷ []);
  key_id = λ p. ok (p ∷ p ∷ []);
}

abbrev config_at : Bytes → SigningConfig
config_at path = record {
  signer_config = record {
    signing_scheme_or_key_path = path;
    file_signer_password = [];
    tink_kek_uri = [];
    tink_keyset_path = [];
    gcpkms_retries = 0;
    gcpkms_timeout = 0;
    mtc_cosigner = false;
  };
  mtc = none;
  signers = [];
}

abbrev old_shard : LogRange ℕ
old_shard = fresh_range providers keys (pos 3) (config_at [])

-- The file names one inactive shard, without a configuration of its own.
abbrev files : Files ℕ ℕ
files = record {
  read_file = λ _. ok (codes "- treeID: 3");
  yaml_unmarshal = λ _ _. (some (old_shard ∷ []), none);
  json_unmarshal = λ _ ranges. (ranges, some 0);
}

abbrev made_range : ℕ → LogRange ℕ
made_range tree_id = record (fresh_range providers keys (pos tree_id) (config_at (codes "key"))) {
  signer = some 3;
  pem_pub_key = 3 ∷ [];
  log_id = 3 ∷ 3 ∷ [];
  signers = 3 ∷ [];
  pem_pub_keys = (3 ∷ []) ∷ [];
  log_ids = (3 ∷ 3 ∷ []) ∷ [];
}

abbrev made_ranges : LogRanges ℕ
made_ranges = record { inactive = some (made_range 3 ∷ []); active = made_range 5 }

made :
    new_log_ranges providers keys files (codes "shards") (pos 5) (config_at (codes "key"))
    ≡ ok made_ranges
unfolding new_log_ranges initialize_ranges initialize_range pems_and_ids log_ranges_from_path
    is_unset new_multiple_from_config get_signer_configs rounds round new_from_config new
made = refl

new_log_ranges-IsInitialized_example :
    (pos 5 ≡ pos 5)
    × (pos 5 ≢ pos 0)
    × (config_at (codes "key") ≡ config_at (codes "key"))
    × IsInitialized providers keys (made_range 5)
    × All (IsInitialized providers keys) (get_inactive made_ranges)
new_log_ranges-IsInitialized_example =
    new_log_ranges-IsInitialized providers keys files (codes "shards") (pos 5)
      (config_at (codes "key")) made
