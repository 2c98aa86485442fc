-- ===== src/Signer.antt =====
-- pkg/signer/signer.go: the signers of a shard, from its configuration.
pub mod Order
pub mod Panics
pub mod Total
mod Examples
use rekor.Base.{
  ℕ, suc, ◌*◌, ◌+◌, Bool, true, false, ◌&&◌, not, List, [], ◌∷◌, ◌++◌, Option, none, some, ◌==◌,
  leb, ltb, if◌then◌else◌, length, take, drop, Result, ok, err, ◌>>=◌, wrap,
}
use rekor.Base.Bytes.{Bytes, bytes_eq, codes, is_prefix}
use rekor.Base.Int64.{ℤ, pos, int_lt, to_int64}

pub record SignerConfig : Type 0 where
  pub signing_scheme_or_key_path : Bytes
  pub file_signer_password : Bytes
  pub tink_kek_uri : Bytes
  pub tink_keyset_path : Bytes
  pub gcpkms_retries : ℕ
  pub gcpkms_timeout : ℕ
  pub mtc_cosigner : Bool

-- Durations are int64 nanoseconds.
pub record MtcConfig : Type 0 where
  pub log_id : Bytes
  pub log_origin : Bytes
  pub log_number : ℕ
  pub batch_size : ℤ
  pub flush_interval : ℤ

pub record SigningConfig : Type 0 where
  pub signer_config : SignerConfig
  pub mtc : Option MtcConfig
  pub signers : List SignerConfig

-- 500 milliseconds
abbrev pub default_mtc_flush_interval : ℤ
default_mtc_flush_interval = pos 500_000_000

-- `sc.SignerConfig == (SignerConfig{})`
abbrev pub is_empty_config : SignerConfig → Bool
is_empty_config c =
    bytes_eq c.signing_scheme_or_key_path []
    && bytes_eq c.file_signer_password []
    && bytes_eq c.tink_kek_uri []
    && bytes_eq c.tink_keyset_path []
    && c.gcpkms_retries == 0
    && c.gcpkms_timeout == 0
    && not c.mtc_cosigner

unfoldable pub is_unset : SigningConfig → Bool
is_unset sc = elim sc.signers as (λ _. Bool) [
  | _ ∷ _ ↦ false
  | [] ↦ elim sc.mtc as (λ _. Bool) [ some _ ↦ false | none ↦ is_empty_config sc.signer_config ]
]

abbrev pub configs_or : SignerConfig → List SignerConfig → List SignerConfig
configs_or c [] = c ∷ []
configs_or c (d ∷ ds) = d ∷ ds

unfoldable pub get_signer_configs : SigningConfig → List SignerConfig
get_signer_configs sc = configs_or sc.signer_config sc.signers

-- `panic` is an index of slices.Insert that is out of range; a number is the place of an entry.
pub data Error (E : Type 0) : Type 0 where
  cosigner_needs_mtc : Error E
  no_signer_configurations : Error E
  no_mtc_block : ℕ → Error E
  loading_cosigner : ℕ → E → Error E
  creating_signer : ℕ → Error E → Error E
  creating_batch_signer : E → Error E
  new_failed : E → Error E
  panic : Error E

-- signature.MTCSignerConfig
pub record MtcSignerConfig (K : Type 0) : Type 0 where
  pub log_id : Bytes
  pub log_origin : Bytes
  pub log_number : ℕ
  pub cosigners : List K
  pub batch_size : ℤ
  pub flush_interval : ℤ

-- What other packages make: signers `S`, cosigner keys `K`, errors `E`. A key of a service takes the
-- retries and the timeout only if it is one of Google's.
pub record Providers (E S K : Type 0) : Type 0 where
  pub kms_supported : List Bytes
  pub gcp_scheme : Bytes
  pub kms_get : Bytes → Option (ℕ × ℤ) → Result E S
  pub new_memory : Result E S
  pub new_tink : Bytes → Bytes → Result E S
  pub new_file : Bytes → Bytes → Result E S
  pub load_key : Bytes → Option Bytes → Result E K
  pub new_mtc : MtcSignerConfig K → Result E S

abbrev pub any_prefix : List Bytes → Bytes → Bool
any_prefix [] s = false
any_prefix (p ∷ ps) s = if is_prefix p s then true else any_prefix ps s

-- The signers so far, the cosigners so far, and where the batch signer goes; `none` is -1.
pub record Loop (S K : Type 0) : Type 0 where
  pub made : List S
  pub cosigners : List K
  pub insert_pos : Option ℕ

-- slices.Insert, in range
abbrev pub insert_at : {A : Type 0} → ℕ → A → List A → List A
insert_at n a xs = take n xs ++ a ∷ drop n xs

module _ {E S K : Type 0} (p : Providers E S K) where
  -- A timeout of seconds is multiplied to nanoseconds, and may wrap.
  unfoldable pub new : SignerConfig → Result E S
  new c =
      if any_prefix p.kms_supported c.signing_scheme_or_key_path
      then p.kms_get c.signing_scheme_or_key_path (
          if is_prefix p.gcp_scheme c.signing_scheme_or_key_path
          then some (c.gcpkms_retries, to_int64 (c.gcpkms_timeout * 1_000_000_000))
          else none)
      else if bytes_eq c.signing_scheme_or_key_path (codes "memory")
      then p.new_memory
      else if bytes_eq c.signing_scheme_or_key_path (codes "tink")
      then p.new_tink c.tink_kek_uri c.tink_keyset_path
      else p.new_file c.signing_scheme_or_key_path c.file_signer_password

  unfoldable pub new_from_config : SignerConfig → Result (Error E) S
  new_from_config c = if c.mtc_cosigner then err cosigner_needs_mtc else wrap new_failed (new c)

  -- No password is cryptoutils.SkipPassword.
  unfoldable pub load_cosigner : SignerConfig → Result E K
  load_cosigner c =
      p.load_key c.signing_scheme_or_key_path
        (if bytes_eq c.file_signer_password [] then none else some c.file_signer_password)

  abbrev pub add_cosigner : Loop S K → K → Loop S K
  add_cosigner l k = record {
    made = l.made;
    cosigners = l.cosigners ++ k ∷ [];
    insert_pos = if length (l.cosigners ++ k ∷ []) == 1 then some (length l.made) else l.insert_pos;
  }

  abbrev pub add_signer : Loop S K → S → Loop S K
  add_signer l s = record l { made = l.made ++ s ∷ [] }

  abbrev pub cosign : Option MtcConfig → ℕ → SignerConfig → Loop S K → Result (Error E) (Loop S K)
  cosign none i c l = err (no_mtc_block i)
  cosign (some _) i c l = wrap (loading_cosigner i) (load_cosigner c) >>= λ k. ok (add_cosigner l k)

  -- One round of the loop, for the entry at `i`.
  unfoldable pub round :
      Option MtcConfig → ℕ → SignerConfig → Loop S K → Result (Error E) (Loop S K)
  round mtc i c l =
      if c.mtc_cosigner
      then cosign mtc i c l
      else (wrap (creating_signer i) (new_from_config c) >>= λ s. ok (add_signer l s))

  unfoldable pub rounds :
      Option MtcConfig → ℕ → List SignerConfig → Loop S K → Result (Error E) (Loop S K)
  rounds mtc i [] l = ok l
  rounds mtc i (c ∷ cs) l = round mtc i c l >>= λ m. rounds mtc (suc i) cs m

  abbrev pub mtc_signer_config : MtcConfig → List K → MtcSignerConfig K
  mtc_signer_config m ks = record {
    log_id = m.log_id;
    log_origin = m.log_origin;
    log_number = m.log_number;
    cosigners = ks;
    batch_size = m.batch_size;
    flush_interval =
        if int_lt (pos 0) m.flush_interval then m.flush_interval else default_mtc_flush_interval;
  }

  abbrev pub insert_batch : Option ℕ → S → List S → Result (Error E) (List S)
  insert_batch none b made = err panic
  insert_batch (some n) b made = if leb n (length made) then ok (insert_at n b made) else err panic

  -- A configuration with a cosigner and no block is refused by the loop; here it would be a nil
  -- pointer. The start of the batch signer's own task is left out.
  abbrev pub batch : Option MtcConfig → List K → Option ℕ → List S → Result (Error E) (List S)
  batch mtc [] place made = ok made
  batch none (k ∷ ks) place made = err panic
  batch (some m) (k ∷ ks) place made =
      wrap creating_batch_signer (p.new_mtc (mtc_signer_config m (k ∷ ks))) >>= λ b.
      insert_batch place b made

  abbrev pub with_batch : Option MtcConfig → Loop S K → Result (Error E) (List S)
  with_batch mtc l = batch mtc l.cosigners l.insert_pos l.made

  abbrev pub start : Loop S K
  start = record { made = []; cosigners = []; insert_pos = none }

  -- The configurations of `get_signer_configs` are never empty.
  abbrev pub multiple : Option MtcConfig → List SignerConfig → Result (Error E) (List S)
  multiple mtc [] = err no_signer_configurations
  multiple mtc (c ∷ cs) = rounds mtc 0 (c ∷ cs) start >>= with_batch mtc

  unfoldable pub new_multiple_from_config : SigningConfig → Result (Error E) (List S)
  new_multiple_from_config sc = multiple sc.mtc (get_signer_configs sc)
