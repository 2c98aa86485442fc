-- ===== src/Sharding/Ranges.antt =====
-- pkg/sharding/ranges.go and pkg/sharding/log_index.go: the shards of the log, and the indexes that
-- count through them. A signer is a value of `S`; Go's int has 64 bits.
pub mod Steps
pub mod Indexing
pub mod Sequence
pub mod Lookup
pub mod Building
pub mod Examples
use rekor.Base.{
  ℕ, Bool, true, false, List, [], ◌∷◌, Option, none, some, if◌then◌else◌, Result, ok, err, map,
}
use rekor.Base.Bytes.{Bytes}
use rekor.Base.Int64.{ℤ, pos, negsuc, int_eq, int_lt, ◌+₆₄◌, ◌-₆₄◌}
use rekor.Golib.Num.{parse_int}
use rekor.Signer.{SigningConfig}
use rekor.Trillian.Config.{GrpcConfig}

pub record LogRange (S : Type 0) : Type 0 where
  pub tree_id : ℤ
  pub tree_length : ℤ
  pub signing_config : SigningConfig
  pub grpc_config : Option GrpcConfig
  pub signer : Option S
  pub pem_pub_key : Bytes
  pub log_id : Bytes
  pub signers : List S
  pub pem_pub_keys : List Bytes
  pub log_ids : List Bytes

-- A nil slice is `none`.
pub record LogRanges (S : Type 0) : Type 0 where
  pub inactive : Option (List (LogRange S))
  pub active : LogRange S

pub data Error : Type 0 where
  no_log_range : ℤ → Error
  tree_id_syntax : Bytes → Error
  no_public_key : ℤ → Error

abbrev pub or_fail : {A : Type 0} → Option A → Error → Result Error A
or_fail none e = err e
or_fail (some a) e = ok a

module _ {S : Type 0} where
  abbrev pub shards_or_none : Option (List (LogRange S)) → List (LogRange S)
  shards_or_none none = []
  shards_or_none (some rs) = rs

  abbrev pub get_inactive : LogRanges S → List (LogRange S)
  get_inactive l = shards_or_none l.inactive

  abbrev pub get_active : LogRanges S → LogRange S
  get_active l = l.active

  abbrev pub is_nil : Option (List (LogRange S)) → Bool
  is_nil none = true
  is_nil (some _) = false

  abbrev pub no_inactive : LogRanges S → Bool
  no_inactive l = is_nil l.inactive

  -- The loop of ResolveVirtualIndex.
  unfoldable pub resolve_from : LogRange S → List (LogRange S) → ℤ → ℤ × ℤ
  resolve_from active [] index_left = (active.tree_id, index_left)
  resolve_from active (r ∷ rs) index_left =
      if int_lt index_left r.tree_length
      then (r.tree_id, index_left)
      else resolve_from active rs (index_left -₆₄ r.tree_length)

  unfoldable pub resolve_virtual_index : LogRanges S → ℤ → ℤ × ℤ
  resolve_virtual_index l index = resolve_from (get_active l) (get_inactive l) index

  -- The loop of VirtualLogIndex.
  unfoldable pub virtual_from : ℤ → ℤ → ℤ → LogRange S → List (LogRange S) → ℤ
  virtual_from virtual_index leaf_index tid active [] =
      if int_eq active.tree_id tid then virtual_index +₆₄ leaf_index else negsuc 0
  virtual_from virtual_index leaf_index tid active (r ∷ rs) =
      if int_eq r.tree_id tid
      then virtual_index +₆₄ leaf_index
      else virtual_from (virtual_index +₆₄ r.tree_length) leaf_index tid active rs

  unfoldable pub virtual_log_index : ℤ → ℤ → LogRanges S → ℤ
  virtual_log_index leaf_index tid ranges =
      if no_inactive ranges
      then (if int_eq (get_active ranges).tree_id tid then leaf_index else negsuc 0)
      else virtual_from (pos 0) leaf_index tid (get_active ranges) (get_inactive ranges)

  -- The active shard first.
  unfoldable pub all_shards : LogRanges S → List ℤ
  all_shards l = (get_active l).tree_id ∷ map (λ r. r.tree_id) (get_inactive l)

  pub total_from : ℤ → List (LogRange S) → ℤ
  total_from total [] = total
  total_from total (r ∷ rs) = total_from (total +₆₄ r.tree_length) rs

  pub total_inactive_length : LogRanges S → ℤ
  total_inactive_length l = total_from (pos 0) (get_inactive l)

  -- The first of the shards with the tree id.
  abbrev pub find_tree : ℤ → List (LogRange S) → Option (LogRange S)
  find_tree tid [] = none
  find_tree tid (r ∷ rs) = if int_eq r.tree_id tid then some r else find_tree tid rs

  unfoldable pub get_log_range_by_tree_id : LogRanges S → ℤ → Result Error (LogRange S)
  get_log_range_by_tree_id l tid =
      or_fail (find_tree tid (l.active ∷ get_inactive l)) (no_log_range tid)

  abbrev pub field_or_fail :
      {A : Type 0} → (LogRange S → A) → Option (LogRange S) → Error → Result Error A
  field_or_fail f none e = err e
  field_or_fail f (some r) e = ok (f r)

  abbrev pub key_of_tree :
      {A : Type 0} → (LogRange S → A) → LogRanges S → Bytes → Option ℤ → Result Error A
  key_of_tree f l tree_id none = err (tree_id_syntax tree_id)
  key_of_tree f l tree_id (some tid) =
      field_or_fail f (find_tree tid (l.active ∷ get_inactive l)) (no_public_key tid)

  unfoldable pub public_key : LogRanges S → Bytes → Result Error Bytes
  public_key l [] = ok l.active.pem_pub_key
  public_key l (c ∷ cs) = key_of_tree (λ r. r.pem_pub_key) l (c ∷ cs) (parse_int 10 (c ∷ cs))

  unfoldable pub public_keys : LogRanges S → Bytes → Result Error (List Bytes)
  public_keys l [] = ok l.active.pem_pub_keys
  public_keys l (c ∷ cs) = key_of_tree (λ r. r.pem_pub_keys) l (c ∷ cs) (parse_int 10 (c ∷ cs))
