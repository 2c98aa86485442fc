-- ===== src/Api/Create/Proposed/Permitted.antt =====
-- Which entries createLogEntry of pkg/api/entries.go adds.
use rekor.Base.{
  ℕ, ◌≡◌, refl, ap, ◌∙◌, ◌⊎◌, inl, inr, Bool, true, false, List, [], ◌∷◌, Option, none, some,
  some-injective, Result, ok, err, ◌>>=◌, wrap, wrap-eq-ok, >>=-eq-ok, ok-injective, All,
  Bool-cases, Result-cases,
}
use rekor.Base.Bytes.{Bytes}
use rekor.Sharding.EntryId.{EntryId}
use rekor.Util.Sha.{Hash}
use rekor.Api.{Api, LogEntryAnon}
use rekor.Api.Create.{CreateError, create_log_entry}
use rekor.Api.Create.Proposed.{
  IdentityCrypto, EntryTypes, ProposedError, invalid_entry, no_verifiers, no_identities,
  checking_permission, canonicalizing_entry, CheckedAlgorithm, allowed, not_allowed,
  get_artifact_hash_value, get_public_key, if_permitted, and_next, check_identity, check_identities,
  check_verifiers, check_hashedrekord, check_entry_algorithms, if_allowed, proposed_leaf, worded,
  create_log_entry_handler,
}

module _ {E X Y K Q : Type 0} (types : EntryTypes E X Y K Q) where
  -- The registry permits the key of an identity, with the hash of the artifact.
  abbrev pub IsPermittedKey : Hash → IdentityCrypto Q → Type 0
  IsPermittedKey hash i =
      (key : Q) × (get_public_key types i ≡ ok key)
      × (types.is_algorithm_permitted key hash ≡ ok true)

  abbrev pub IsPermittedVerifier : Hash → K → Type 0
  IsPermittedVerifier hash v =
      (is : List (IdentityCrypto Q)) × (types.identities v ≡ ok is) × All (IsPermittedKey hash) is

  -- Every key of every verifier of the entry is permitted.
  abbrev pub IsPermitted : Y → Type 0
  IsPermitted entry =
      (vs : List K) × (types.verifiers entry ≡ ok vs)
      × All (IsPermittedVerifier (get_artifact_hash_value types entry)) vs

  and_next-allowed :
      (r next : Result (ProposedError E Q) (CheckedAlgorithm Q))
      → and_next types r next ≡ ok allowed
      → (r ≡ ok allowed) × (next ≡ ok allowed)
  and_next-allowed (ok allowed) next h = (refl, h)
  and_next-allowed (ok (not_allowed key hash)) next h = cc
  and_next-allowed (err e) next h = cc

  if_permitted-true :
      (key : Q) (hash : Hash) (b : Bool) → if_permitted types key hash b ≡ allowed → b ≡ true
  if_permitted-true key hash true h = refl
  if_permitted-true key hash false h = cc

  check_identity-IsPermittedKey :
      (hash : Hash) (i : IdentityCrypto Q)
      → check_identity types hash i ≡ ok allowed
      → IsPermittedKey hash i
  unfolding check_identity
  check_identity-IsPermittedKey hash i h =
      let (key, its, h1) = >>=-eq-ok (get_public_key types i) _ h in
      let (b, permitted, h2) =
        >>=-eq-ok (wrap checking_permission (types.is_algorithm_permitted key hash)) _ h1 in
      let yes : b ≡ true = if_permitted-true key hash b (ok-injective h2) in
      (
        key,
        its,
        wrap-eq-ok checking_permission (types.is_algorithm_permitted key hash) permitted
            ∙ ap ok yes,
      )

  check_identities-All :
      (hash : Hash) (is : List (IdentityCrypto Q))
      → check_identities types hash is ≡ ok allowed
      → All (IsPermittedKey hash) is
  unfolding check_identities
  check_identities-All hash [] h = tt
  check_identities-All hash (i ∷ is) h =
      let (first, rest) =
        and_next-allowed (check_identity types hash i) (check_identities types hash is) h in
      (check_identity-IsPermittedKey hash i first, check_identities-All hash is rest)

  check_verifiers-All :
      (hash : Hash) (vs : List K)
      → check_verifiers types hash vs ≡ ok allowed
      → All (IsPermittedVerifier hash) vs
  unfolding check_verifiers
  check_verifiers-All hash [] h = tt
  check_verifiers-All hash (v ∷ vs) h =
      let (first, rest) =
        and_next-allowed (wrap no_identities (types.identities v) >>= check_identities types hash)
          (check_verifiers types hash vs) h in
      let (is, its, h1) = >>=-eq-ok (wrap no_identities (types.identities v)) _ first in
      (
        (is, wrap-eq-ok no_identities (types.identities v) its, check_identities-All hash is h1),
        check_verifiers-All hash vs rest,
      )

  check_hashedrekord-IsPermitted :
      (entry : Y) → check_hashedrekord types true entry ≡ ok allowed → IsPermitted entry
  check_hashedrekord-IsPermitted entry h =
      let (vs, its, h1) = >>=-eq-ok (wrap no_verifiers (types.verifiers entry)) _ h in
      (
        vs,
        wrap-eq-ok no_verifiers (types.verifiers entry) its,
        check_verifiers-All (get_artifact_hash_value types entry) vs h1,
      )

  -- What is checked, is permitted.
  abbrev pub IsChecked : Y → Type 0
  IsChecked entry = (types.is_hashedrekord_v001 entry ≡ false) ⊎ IsPermitted entry

  check_entry_algorithms-IsChecked :
      (entry : Y) → check_entry_algorithms types entry ≡ ok allowed → IsChecked entry
  unfolding check_entry_algorithms
  check_entry_algorithms-IsChecked entry h = elim (Bool-cases (types.is_hashedrekord_v001 entry)) [
    | inl y ↦ inr (check_hashedrekord-IsPermitted entry (rw y at h))
    | inr n ↦ inl n
  ]

  if_allowed-ok : (c : CheckedAlgorithm Q) {u : Unit {0}} → if_allowed types c ≡ ok u → c ≡ allowed
  if_allowed-ok allowed h = refl
  if_allowed-ok (not_allowed key hash) h = cc

  -- The canonical form of an entry that is checked.
  abbrev pub IsLeafOf : X → Bytes → Type 0
  IsLeafOf proposed leaf =
      (entry : Y) × (types.create_versioned_entry proposed ≡ ok entry)
      × IsChecked entry
      × (types.canonicalize_entry entry ≡ ok leaf)

  proposed_leaf-IsLeafOf :
      (proposed : X) {leaf : Bytes}
      → proposed_leaf types proposed ≡ ok leaf
      → IsLeafOf proposed leaf
  unfolding proposed_leaf
  proposed_leaf-IsLeafOf proposed h =
      let (entry, its, h1) =
        >>=-eq-ok (wrap invalid_entry (types.create_versioned_entry proposed)) _ h in
      let (checked, check, h2) = >>=-eq-ok (check_entry_algorithms types entry) _ h1 in
      let (_, let_in, h3) = >>=-eq-ok (if_allowed types checked) _ h2 in
      (
        entry,
        wrap-eq-ok invalid_entry (types.create_versioned_entry proposed) its,
        check_entry_algorithms-IsChecked entry (check ∙ ap ok (if_allowed-ok checked let_in)),
        wrap-eq-ok canonicalizing_entry (types.canonicalize_entry entry) h3,
      )

module _ {E S V P W X Y K Q : Type 0} (api : Api E S V P W) (hash_leaf : Bytes → Bytes)
    (types : EntryTypes E X Y K Q) where
  worded-ok :
      (r : Option (Result (CreateError E) (EntryId × LogEntryAnon) × W))
      {o : EntryId × LogEntryAnon} {v : W}
      → worded api hash_leaf types r ≡ some (ok o, v)
      → r ≡ some (ok o, v)
  worded-ok none h = cc
  worded-ok (some (ok p, w)) {o} {v} h =
      let same = some-injective h in
      let entry : p ≡ o = ok-injective (ap (λ x. x.0) same) in
      let world : w ≡ v = ap (λ x. x.1) same in λ i. some (ok (entry i), world i)
  worded-ok (some (err e, w)) h = cc

  -- An entry that createLogEntry answers is added from the canonical form of the proposed entry; if that
  -- is of the type hashedrekord, the registry permits the key of every identity of its verifiers
  -- with the algorithm of its digest.
  pub create_log_entry_handler-IsLeafOf :
      (fuel : ℕ) (proposed : X) (w : W) {o : EntryId × LogEntryAnon} {v : W}
      → create_log_entry_handler api hash_leaf types fuel proposed w ≡ some (ok o, v)
      → (leaf : Bytes) × IsLeafOf types proposed leaf
        × (create_log_entry api hash_leaf fuel leaf w ≡ some (ok o, v))
  unfolding create_log_entry_handler
  create_log_entry_handler-IsLeafOf fuel proposed w {o} {v} h =
      elim (Result-cases (proposed_leaf types proposed)) [
        | inl (leaf, e) ↦ (
          leaf,
          proposed_leaf-IsLeafOf types proposed {leaf = leaf} e,
          worded-ok (create_log_entry api hash_leaf fuel leaf w) {o = o} {v = v} (rw e at h),
        )
        | inr (x, e) ↦ cc (rw e at h)
      ]
