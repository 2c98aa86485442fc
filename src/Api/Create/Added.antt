-- ===== src/Api/Create/Added.antt =====
-- What createLogEntry of pkg/api/entries.go answers.
use rekor.Base.{
  ℕ, ◌<◌, ◌^◌, ◌*◌, ◌≡◌, ap, ◌∙◌, ◌⊎◌, inl, inr, Option, none, some, Result, ok, err, ◌>>=◌, wrap,
  ok-injective, All, length,
}
use rekor.Base.Bytes.{Bytes}
use rekor.Base.Int64.{ℤ, pos}
use rekor.Golib.Hex.{hex_encode, IsByte, length-encode, encode-is_hex}
use rekor.Golib.Num.{format_int}
use rekor.Sharding.EntryId.{
  EntryId, create_entry_id_from_parts, entry_id_string, tree_id_of, get_uuid_from_id_string,
}
use rekor.Sharding.EntryId.Writing.{create_format}
use rekor.Sharding.Ranges.{get_active}
use rekor.Trillian.Client.{
  Code, ok_code, already_exists, failed_precondition, Leaf, QueuedLeaf, Response,
}
use rekor.Api.{Api, LogEntryAnon}
use rekor.Api.Create.{
  CreateError, grpc_failed, entry_already_exists, entry_id_failed, deref, ok_or, conflict,
  check_insertion, entry_of_added, created,
}

module _ {E S V P W : Type 0} (api : Api E S V P W) (hash_leaf : Bytes → Bytes) where
  abbrev active_id : ℤ
  active_id = (get_active api.log_ranges).tree_id

  pub deref-ok : {A : Type 0} (o : Option A) {a : A} → deref {E = E} o ≡ ok a → o ≡ some a
  deref-ok none e = cc
  deref-ok (some a) e = ap some (ok-injective e)

  conflict_lem :
      (leaf : Bytes) (id : EntryId)
      → create_entry_id_from_parts (format_int 16 active_id) (hex_encode (hash_leaf leaf)) ≡ ok id
      → conflict api hash_leaf leaf ≡ err (entry_already_exists (entry_id_string id))
  conflict_lem leaf id made =
      ap (λ r. wrap entry_id_failed r >>= λ x. err (entry_already_exists (entry_id_string x))) made

  check_insertion-conflict :
      (leaf : Bytes) (c : Option Code)
      → (c ≡ some already_exists) ⊎ (c ≡ some failed_precondition)
      → check_insertion api hash_leaf leaf c ≡ conflict api hash_leaf leaf
  unfolding check_insertion
  check_insertion-conflict leaf c (inl e) = ap (check_insertion api hash_leaf leaf) e
  check_insertion-conflict leaf c (inr e) = ap (check_insertion api hash_leaf leaf) e

  refused_created :
      (leaf : Bytes) (resp : Response E) (q : QueuedLeaf) {x : CreateError E}
      → resp.status ≡ ok_code
      → resp.get_add_result ≡ some q
      → check_insertion api hash_leaf leaf q.status ≡ err x
      → created api hash_leaf leaf resp ≡ err x
  unfolding created
  refused_created leaf resp q status there refused =
      let make : QueuedLeaf → Result (CreateError E) (EntryId × LogEntryAnon) = λ y.
        check_insertion api hash_leaf leaf y.status >>= λ _.
        entry_of_added api hash_leaf y.leaf resp.get_leaf_and_proof_result
          (get_active api.log_ranges) in
      ap (λ c. ok_or (grpc_failed resp.error) c >>= λ _. deref resp.get_add_result >>= make) status
      ∙ ap (λ o. deref o >>= make) there
      ∙ ap
          (λ r. r >>= λ _.
            entry_of_added api hash_leaf q.leaf resp.get_leaf_and_proof_result
              (get_active api.log_ranges))
          refused

  -- Where the log server says of a leaf that it is there already, or that a precondition failed, the
  -- answer of createLogEntry is a conflict with the id of the entry that is there: the
  -- active tree id and the hash of the leaf read back from it. The hash is 32 bytes, and the active
  -- tree id is positive.
  pub created-conflict :
      (leaf : Bytes) (resp : Response E) (q : QueuedLeaf) (n : ℕ)
      → resp.status ≡ ok_code
      → resp.get_add_result ≡ some q
      → (q.status ≡ some already_exists) ⊎ (q.status ≡ some failed_precondition)
      → active_id ≡ pos n
      → 0 < n
      → n < 2 ^ 63
      → length (hash_leaf leaf) ≡ 32
      → All IsByte (hash_leaf leaf)
      → (id : Bytes) × (created api hash_leaf leaf resp ≡ err (entry_already_exists id))
        × (tree_id_of id ≡ ok (pos n))
        × (get_uuid_from_id_string id ≡ ok (hex_encode (hash_leaf leaf)))
  unfolding format_int
  created-conflict leaf resp q n status there dup active z b len bytes =
      let uuid = hex_encode (hash_leaf leaf) in
      let k : length uuid ≡ 64 = length-encode (hash_leaf leaf) ∙ ap (λ y. 2 * y) len in
      let (id, made, t, u) = create_format n uuid z b k (encode-is_hex (hash_leaf leaf) bytes) in
      let here = ap (λ i. create_entry_id_from_parts (format_int 16 i) uuid) active ∙ made in
      (
        entry_id_string id,
        refused_created leaf resp q status there
            (check_insertion-conflict leaf q.status dup ∙ conflict_lem leaf id here),
        t,
        u,
      )
