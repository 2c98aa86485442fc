-- ===== src/Api/Leaf/Retrievable.antt =====
-- The entries of pkg/api/entries.go are found again by their ids and indexes.
use rekor.Base.{ℕ, ◌+◌, ◌*◌, ◌^◌, ◌<◌, ◌≡◌, ap, sym, some, none, ◌∙◌, length, ok, ok-injective, All}
use rekor.Base.Bytes.{Bytes}
use rekor.Base.Int64.{pos}
use rekor.Golib.Hex.{hex_encode, length-encode, encode-is_hex, IsByte}
use rekor.Golib.Num.{format_int}
use rekor.Sharding.EntryId.{
  EntryId, create_entry_id_from_parts, entry_id_string, get_uuid_from_id_string, tree_id_of,
}
use rekor.Sharding.EntryId.Writing.{create_format}
use rekor.Sharding.Ranges.{
  LogRange, virtual_log_index, get_log_range_by_tree_id, get_inactive, resolve_virtual_index,
}
use rekor.Sharding.Ranges.Steps.{sizes}
use rekor.Sharding.Ranges.Indexing.{IsConsistent, HasLeaf, resolve-virtual}
use rekor.Trillian.Client.{Leaf, LogRoot}
use rekor.Trillian.Client
use rekor.Api.{Api, Verification, LogEntryAnon}
use rekor.Api.Leaf.{entry_of_leaf}
use rekor.Api.Leaf.Identity.{IsSignedByAll, entry_of_leaf_lem}

-- The id of a leaf with a hash of 32 bytes, in a tree with a positive id, is read back.
id_reads_back :
    (n : ℕ) (hash : Bytes) {x : EntryId}
    → create_entry_id_from_parts (format_int 16 (pos n)) (hex_encode hash) ≡ ok x
    → 0 < n
    → n < 2 ^ 63
    → length hash ≡ 32
    → All IsByte hash
    → (tree_id_of (entry_id_string x) ≡ ok (pos n))
      × (get_uuid_from_id_string (entry_id_string x) ≡ ok (hex_encode hash))
unfolding format_int
id_reads_back n hash {x} made z b len bytes =
    let uuid = hex_encode hash in
    let k : length uuid ≡ 64 = length-encode hash ∙ ap (λ y. 2 * y) len in
    let (y, same, t, u) = create_format n uuid z b k (encode-is_hex hash bytes) in
    let q : y ≡ x = ok-injective (sym same ∙ made) in
    (
      sym (ap (λ v. tree_id_of (entry_id_string v)) q) ∙ t,
      sym (ap (λ v. get_uuid_from_id_string (entry_id_string v)) q) ∙ u,
    )

module _ {E S V P W : Type 0} (api : Api E S V P W) where
  -- An entry made from leaf `j` of a shard, where the hash of the leaf is 32 bytes, the tree id is a
  -- positive int64, the shards are consistent, the shard has a leaf `j`, and the index of the leaf
  -- over all shards is below 2^63: the key of the entry is an entry id that the tree id and the
  -- hexadecimal hash read back from, the log index of the entry resolves to the shard and the leaf, the
  -- entry has the value of the leaf, and the canonical form of the entry without its verification is
  -- signed by each signer of the shard, in order: by the first as the signed entry timestamp, and by
  -- the others, with the log id at the place of each, as the additional ones.
  pub entry_of_leaf-IsRetrievable :
      (leaf : Leaf) (signed_root : Bytes) (proof : Client.InclusionProof) (n j : ℕ)
      {o : EntryId × LogEntryAnon}
      → entry_of_leaf api leaf signed_root proof (pos n) ≡ ok o
      → 0 < n
      → n < 2 ^ 63
      → length leaf.merkle_leaf_hash ≡ 32
      → All IsByte leaf.merkle_leaf_hash
      → leaf.leaf_index ≡ pos j
      → IsConsistent api.log_ranges
      → HasLeaf (pos n) j api.log_ranges.active (get_inactive api.log_ranges)
      → sizes (get_inactive api.log_ranges) + j < 2 ^ 63
      → (tree_id_of (entry_id_string o.0) ≡ ok (pos n))
        × (get_uuid_from_id_string (entry_id_string o.0) ≡ ok (hex_encode leaf.merkle_leaf_hash))
        × (resolve_virtual_index api.log_ranges o.1.log_index ≡ (pos n, pos j))
        × (o.1.body ≡ leaf.leaf_value)
        × (r : LogRange S) × (get_log_range_by_tree_id api.log_ranges (pos n) ≡ ok r)
        × (v : Verification) × (o.1.verification ≡ some v)
        × IsSignedByAll api
            (record o.1 { verification = none })
            r.signers
            r.log_ids
            v.signed_entry_timestamp
            v.additional_signed_entry_timestamps
  entry_of_leaf-IsRetrievable leaf signed_root proof n j {o} e z b len bytes at consistent has
        fits =
      let (r, found, made, is) = entry_of_leaf_lem api leaf signed_root proof (pos n) {o = o} e in
      let (_, index, body, _, v, there, signed) = is in
      let (t, u) = id_reads_back n leaf.merkle_leaf_hash made z b len bytes in
      (
        t,
        u,
        ap (resolve_virtual_index api.log_ranges)
              (index ∙ ap (λ y. virtual_log_index y (pos n) api.log_ranges) at)
            ∙ resolve-virtual api.log_ranges (pos n) j consistent has fits,
        body,
        r,
        found,
        v,
        there,
        signed,
      )
