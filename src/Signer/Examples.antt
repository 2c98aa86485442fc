-- ===== src/Signer/Examples.antt =====
-- Configurations on which the theorems about pkg/signer/signer.go are applied.
use rekor.Base.{
  ℕ, ◌+◌, ◌<◌, ◌≡◌, ◌≢◌, refl, [], ◌∷◌, Bool, true, false, some, ok, err, All, length,
  if◌then◌else◌, ◌==◌,
}
use rekor.Base.Bytes.{Bytes, codes}
use rekor.Base.Int64.{pos}
use rekor.Signer.{
  SignerConfig, MtcConfig, SigningConfig, panic, Providers, get_signer_configs, new,
  new_from_config, load_cosigner, round, rounds, new_multiple_from_config, mtc_signer_config,
}
use rekor.Signer.Total.{plain_count, cosigner_count, new_multiple-length}
use rekor.Signer.Order.{Made, keys, in_order, new_multiple_in_order}
use rekor.Signer.Panics.{new_multiple_no_panic}

abbrev entry : Bytes → Bool → SignerConfig
entry path cosigner = record {
  signing_scheme_or_key_path = path;
  file_signer_password = [];
  tink_kek_uri = [];
  tink_keyset_path = [];
  gcpkms_retries = 0;
  gcpkms_timeout = 0;
  mtc_cosigner = cosigner;
}

-- A signer is the length of its path; the batch signer is 100 and the number of its cosigners.
abbrev providers : Providers ℕ ℕ ℕ
providers = record {
  kms_supported = [];
  gcp_scheme = codes "gcpkms";
  kms_get = λ _ _. err 0;
  new_memory = ok 0;
  new_tink = λ _ _. err 0;
  new_file = λ path _. ok (length path);
  load_key = λ path _. ok (length path);
  new_mtc = λ c. ok (100 + length c.cosigners);
}

abbrev mtc : MtcConfig
mtc = record {
  log_id = [];
  log_origin = [];
  log_number = 1;
  batch_size = pos 10;
  flush_interval = pos 0;
}

-- Two cosigners around a signer, with another signer before them.
abbrev four_entries : SigningConfig
four_entries = record {
  signer_config = entry [] false;
  mtc = some mtc;
  signers =
      entry (codes "a") false
      ∷ entry (codes "bb") true
      ∷ entry (codes "ccc") false
      ∷ entry (codes "dddd") true
      ∷ [];
}

four_made : new_multiple_from_config providers four_entries ≡ ok (1 ∷ 102 ∷ 3 ∷ [])
unfolding new_multiple_from_config get_signer_configs rounds round new_from_config load_cosigner new
four_made = refl

new_multiple-length_example :
    (3
      ≡ plain_count (get_signer_configs four_entries)
        + (if cosigner_count (get_signer_configs four_entries) == 0 then 0 else 1))
    × (0 < 3)
new_multiple-length_example = new_multiple-length providers four_entries four_made

new_multiple_no_panic_example : new_multiple_from_config providers four_entries ≢ err panic
new_multiple_no_panic_example = new_multiple_no_panic providers four_entries

abbrev path_length : SignerConfig → ℕ
path_length c = length c.signing_scheme_or_key_path

All-Made : All (Made providers path_length path_length) (get_signer_configs four_entries)
unfolding get_signer_configs load_cosigner new
All-Made = (
  (λ e. refl, λ e. refl),
  ((λ e. refl, λ e. refl), ((λ e. refl, λ e. refl), ((λ e. refl, λ e. refl), tt))),
)

batch_made :
    providers.new_mtc (
      mtc_signer_config providers mtc
        (keys providers path_length path_length (get_signer_configs four_entries)))
    ≡ ok 102
unfolding get_signer_configs
batch_made = refl

new_multiple_in_order_example :
    new_multiple_from_config providers four_entries
    ≡ ok (in_order providers path_length path_length 102 (get_signer_configs four_entries))
new_multiple_in_order_example =
    new_multiple_in_order providers path_length path_length four_entries mtc 102 refl All-Made
      batch_made
