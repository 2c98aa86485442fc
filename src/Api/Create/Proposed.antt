-- ===== src/Api/Create/Proposed.antt =====
-- pkg/api/entries.go: createLogEntry up to its call of AddLeaf. Entries, keys and the registry of
-- algorithms are of other packages: `Y` is an entry, `K` a verifier, `Q` a public key.
pub mod Permitted
mod Examples
use rekor.Base.{
  ℕ, Bool, true, false, List, [], ◌∷◌, Option, none, some, if◌then◌else◌, ◌==◌, Result, ok, err,
  ◌>>=◌, wrap,
}
use rekor.Base.Bytes.{Bytes, bytes_eq, codes}
use rekor.Sharding.EntryId.{EntryId}
use rekor.Util.Sha.{Hash, sha256, sha384, sha512}
use rekor.Api.{Api, LogEntryAnon}
use rekor.Api.Create.{CreateError, create_log_entry}

-- The Crypto of an identity: a certificate with its key, another key, or nil.
pub data IdentityCrypto (Q : Type 0) : Type 0 where
  certificate other_key : Q → IdentityCrypto Q
  nil_crypto : IdentityCrypto Q

pub record EntryTypes (E X Y K Q : Type 0) : Type 0 where
  pub create_versioned_entry : X → Result E Y
  pub is_hashedrekord_v001 : Y → Bool
  pub verifiers : Y → Result E (List K)
  pub artifact_hash : Y → Result E Bytes
  pub identities : K → Result E (List (IdentityCrypto Q))
  pub is_algorithm_permitted : Q → Hash → Result E Bool
  pub canonicalize_entry : Y → Result E Bytes

pub data ProposedError (E Q : Type 0) : Type 0 where
  invalid_entry : E → ProposedError E Q
  no_verifiers no_identities : E → ProposedError E Q
  unsupported_public_key : ProposedError E Q
  checking_permission : E → ProposedError E Q
  algorithms_not_allowed : Q → Hash → ProposedError E Q
  canonicalizing_entry : E → ProposedError E Q

-- checkedAlgorithmResult: where it is not allowed, with the key and the hash.
pub data CheckedAlgorithm (Q : Type 0) : Type 0 where
  allowed : CheckedAlgorithm Q
  not_allowed : Q → Hash → CheckedAlgorithm Q

-- The bytes in front of the first colon, or none without a colon.
abbrev pub push : ℕ → Option Bytes → Option Bytes
push c none = none
push c (some s) = some (c ∷ s)

unfoldable pub before_colon : Bytes → Option Bytes
before_colon [] = none
before_colon (c ∷ s) = let rest = before_colon s in if c == b':' then some [] else push c rest

abbrev pub hash_of_algorithm : Option Bytes → Hash
hash_of_algorithm none = sha256
hash_of_algorithm (some a) =
    if bytes_eq a (codes "sha256")
    then sha256
    else if bytes_eq a (codes "sha384")
    then sha384
    else if bytes_eq a (codes "sha512")
    then sha512
    else sha256

-- SHA-256 also where the entry gives no hash.
abbrev pub hash_value_of : {E : Type 0} → Result E Bytes → Hash
hash_value_of (err _) = sha256
hash_value_of (ok h) = hash_of_algorithm (before_colon h)

module _ {E X Y K Q : Type 0} (types : EntryTypes E X Y K Q) where
  abbrev pub get_artifact_hash_value : Y → Hash
  get_artifact_hash_value entry = hash_value_of (types.artifact_hash entry)

  abbrev pub get_public_key : IdentityCrypto Q → Result (ProposedError E Q) Q
  get_public_key (certificate key) = ok key
  get_public_key (other_key key) = ok key
  get_public_key nil_crypto = err unsupported_public_key

  abbrev pub if_permitted : Q → Hash → Bool → CheckedAlgorithm Q
  if_permitted key hash true = allowed
  if_permitted key hash false = not_allowed key hash

  -- The loops return at the first key that is not allowed.
  abbrev pub and_next :
      Result (ProposedError E Q) (CheckedAlgorithm Q)
      → Result (ProposedError E Q) (CheckedAlgorithm Q)
      → Result (ProposedError E Q) (CheckedAlgorithm Q)
  and_next (ok allowed) next = next
  and_next r next = r

  unfoldable pub check_identity :
      Hash → IdentityCrypto Q → Result (ProposedError E Q) (CheckedAlgorithm Q)
  check_identity hash identity = do
    key ← get_public_key identity
    is_permitted ← wrap checking_permission (types.is_algorithm_permitted key hash)
    ok (if_permitted key hash is_permitted)

  unfoldable pub check_identities :
      Hash → List (IdentityCrypto Q) → Result (ProposedError E Q) (CheckedAlgorithm Q)
  check_identities hash [] = ok allowed
  check_identities hash (i ∷ is) = and_next (check_identity hash i) (check_identities hash is)

  unfoldable pub check_verifiers : Hash → List K → Result (ProposedError E Q) (CheckedAlgorithm Q)
  check_verifiers hash [] = ok allowed
  check_verifiers hash (v ∷ vs) =
      and_next (wrap no_identities (types.identities v) >>= check_identities hash)
        (check_verifiers hash vs)

  abbrev pub check_hashedrekord : Bool → Y → Result (ProposedError E Q) (CheckedAlgorithm Q)
  check_hashedrekord false entry = ok allowed
  check_hashedrekord true entry =
      wrap no_verifiers (types.verifiers entry) >>= check_verifiers (get_artifact_hash_value entry)

  -- Only entries of the type hashedrekord are checked.
  unfoldable pub check_entry_algorithms : Y → Result (ProposedError E Q) (CheckedAlgorithm Q)
  check_entry_algorithms entry = check_hashedrekord (types.is_hashedrekord_v001 entry) entry

  abbrev pub if_allowed : CheckedAlgorithm Q → Result (ProposedError E Q) (Unit {0})
  if_allowed allowed = ok tt
  if_allowed (not_allowed key hash) = err (algorithms_not_allowed key hash)

  unfoldable pub proposed_leaf : X → Result (ProposedError E Q) Bytes
  proposed_leaf proposed = do
    entry ← wrap invalid_entry (types.create_versioned_entry proposed)
    checked ← check_entry_algorithms entry
    _ ← if_allowed checked
    wrap canonicalizing_entry (types.canonicalize_entry entry)

-- The status of the answer to each error; one of canonicalizing may be an InputValidationError.
abbrev pub http_status : {E Q : Type 0} → (E → Bool) → ProposedError E Q → ℕ
http_status is_input_validation (canonicalizing_entry e) =
    if is_input_validation e then 400 else 500
http_status is_input_validation _ = 400

pub data Refusal (E Q : Type 0) : Type 0 where
  not_proposed : ProposedError E Q → Refusal E Q
  not_created : CreateError E → Refusal E Q

module _ {E S V P W X Y K Q : Type 0} (api : Api E S V P W) (hash_leaf : Bytes → Bytes)
    (types : EntryTypes E X Y K Q) where
  abbrev pub worded :
      Option (Result (CreateError E) (EntryId × LogEntryAnon) × W)
      → Option (Result (Refusal E Q) (EntryId × LogEntryAnon) × W)
  worded none = none
  worded (some (r, w)) = some (wrap not_created r, w)

  abbrev pub create_proposed :
      ℕ
      → Result (ProposedError E Q) Bytes
      → W
      → Option (Result (Refusal E Q) (EntryId × LogEntryAnon) × W)
  create_proposed fuel (err e) w = some (err (not_proposed e), w)
  create_proposed fuel (ok leaf) w = worded (create_log_entry api hash_leaf fuel leaf w)

  -- `none` is out of fuel for the wait of AddLeaf.
  unfoldable pub create_log_entry_handler :
      ℕ → X → W → Option (Result (Refusal E Q) (EntryId × LogEntryAnon) × W)
  create_log_entry_handler fuel proposed w = create_proposed fuel (proposed_leaf types proposed) w
