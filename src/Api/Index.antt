-- ===== src/Api/Index.antt =====
-- pkg/api/index.go: the search of the index by digest, public key and email. The pki packages, the
-- storage of the index and the lower case of Unicode are fields of `Search`.
pub mod Subsets
pub mod Membership
pub mod Distinct
pub mod Searching
mod Examples
use rekor.Base.{
  ℕ, Bool, true, false, List, [], ◌∷◌, ◌++◌, Option, none, some, if◌then◌else◌, Result, ok, err,
  ◌>>=◌, wrap,
}
use rekor.Base.Bytes.{Bytes, bytes_eq, codes}
use rekor.Golib.Hex.{hex_encode}
use rekor.Util.Sha.{prefix_sha}
use rekor.Api.Index.Subsets.{Collection, new_collection, add_subset, values}

pub record PublicKeyQuery : Type 0 where
  pub format : Bytes
  pub content : Bytes

-- models.SearchIndex
pub record Query : Type 0 where
  pub operator : Bytes
  pub hash : Bytes
  pub public_key : Option PublicKeyQuery
  pub email : Bytes

-- What the handler calls: keys of the pki packages (`F` an artifact factory, `K` a key), SHA-256,
-- strings.ToLower, and the storage of the index.
pub record Search (E F K W : Type 0) : Type 0 where
  pub new_artifact_factory : Bytes → Result E F
  pub new_public_key : F → Bytes → Result E K
  pub canonical_value : K → Result E Bytes
  pub sha256 : Bytes → Bytes
  pub to_lower : Bytes → Bytes
  pub lookup_indices : List Bytes → W → Result E (List Bytes) × W

pub data Error (E : Type 0) : Type 0 where
  unsupported_format malformed_public_key canonical_key index_storage : E → Error E

-- The status of the answer to each error.
abbrev pub http_status : {E : Type 0} → Error E → ℕ
http_status (unsupported_format _) = 400
http_status (malformed_public_key _) = 400
http_status (canonical_key _) = 500
http_status (index_storage _) = 500

-- "or" if no operator is given.
unfoldable pub operator_of : Query → Bytes
operator_of q = if bytes_eq q.operator [] then codes "or" else q.operator

module _ {E F K W : Type 0} (search : Search E F K W) where
  -- The key that a public key is found by.
  unfoldable pub public_key_key : PublicKeyQuery → Result (Error E) Bytes
  public_key_key q = do
    af ← wrap unsupported_format (search.new_artifact_factory q.format)
    key ← wrap malformed_public_key (search.new_public_key af q.content)
    canonical ← wrap canonical_key (search.canonical_value key)
    ok (search.to_lower (hex_encode (search.sha256 canonical)))

  -- The collection, and the keys that are looked up together at the end.
  abbrev pub Found : Type 0
  Found = Collection × List Bytes

  abbrev pub added : Found → Result E (List Bytes) × W → Result (Error E) Found × W
  added found (err e, w) = (err (index_storage e), w)
  added (result, lookup_keys) (ok result_uuids, w) =
      (ok (add_subset result_uuids result, lookup_keys), w)

  -- With "or" a key waits for the end; with another operator it is looked up at once.
  unfoldable pub with_key : Bool → Bytes → Found → W → Result (Error E) Found × W
  with_key true key (result, lookup_keys) w = (ok (result, lookup_keys ++ key ∷ []), w)
  with_key false key found w = added found (search.lookup_indices (key ∷ []) w)

  -- A key that the query may give, and that may be an error.
  abbrev pub with_field :
      Bool
      → Option (Result (Error E) Bytes)
      → Result (Error E) Found × W
      → Result (Error E) Found × W
  with_field is_or key (err e, w) = (err e, w)
  with_field is_or none (ok found, w) = (ok found, w)
  with_field is_or (some (err e)) (ok found, w) = (err e, w)
  with_field is_or (some (ok key)) (ok found, w) = with_key is_or key found w

  abbrev pub hash_field : Bytes → Option (Result (Error E) Bytes)
  hash_field [] = none
  hash_field (c ∷ cs) = some (ok (search.to_lower (prefix_sha (c ∷ cs))))

  abbrev pub public_key_field : Option PublicKeyQuery → Option (Result (Error E) Bytes)
  public_key_field none = none
  public_key_field (some q) = some (public_key_key q)

  abbrev pub email_field : Bytes → Option (Result (Error E) Bytes)
  email_field [] = none
  email_field (c ∷ cs) = some (ok (search.to_lower (c ∷ cs)))

  abbrev pub answered : Result (Error E) Found × W → Result (Error E) (List Bytes) × W
  answered (err e, w) = (err e, w)
  answered (ok (result, _), w) = (ok (values result), w)

  -- `if len(lookupKeys) > 0`
  abbrev pub with_lookup_keys : Result (Error E) Found × W → Result (Error E) Found × W
  with_lookup_keys (err e, w) = (err e, w)
  with_lookup_keys (ok (result, []), w) = (ok (result, []), w)
  with_lookup_keys (ok (result, k ∷ ks), w) =
      added (result, k ∷ ks) (search.lookup_indices (k ∷ ks) w)

  unfoldable pub search_index_handler : Query → W → Result (Error E) (List Bytes) × W
  search_index_handler q w =
      let is_or = bytes_eq (operator_of q) (codes "or") in
      answered (
        with_lookup_keys (
          with_field is_or (email_field q.email) (
            with_field is_or (public_key_field q.public_key)
              (with_field is_or (hash_field q.hash) (ok (new_collection (operator_of q), []), w)))))
