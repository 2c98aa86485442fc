-- ===== src/Trillian/Client/Calls.antt =====
-- pkg/trillianclient/trillian_client.go: the calls that read the log.
use rekor.Base.{
  suc, ◌==◌, Option, none, some, List, [], ◌∷◌, if◌then◌else◌, length, Result, ok, err,
}
use rekor.Base.Bytes.{Bytes, bytes_eq}
use rekor.Base.Int64.{ℤ, pos, to_int64, to_uint64}
use rekor.Trillian.Client.{
  ok_code, not_found, failed_precondition, CallError, wrong_proof_count, no_leaf, multiple_leaves,
  leaf_hash_mismatch, tree_is_empty, nil_pointer, Leaf, InclusionProof, LogRoot, EntryAndProof,
  Response, failure, failed, Server,
}

module _ {E : Type 0} where
  abbrev pub success : Response E
  success = failure ok_code none

  abbrev pub checked : Option (CallError E) → Response E → Response E
  checked none r = r
  checked (some e) r = failed e

  abbrev pub or_later : Option (CallError E) → Option (CallError E) → Option (CallError E)
  or_later none o = o
  or_later (some e) o = some e

  abbrev pub answered : {A : Type 0} → (A → Response E) → Result (CallError E) A → Response E
  answered f (ok a) = f a
  answered f (err e) = failed e

module _ {E W : Type 0} where
  -- `if resp.Err != nil { return &Response{Status: status.Code(resp.Err), Err: resp.Err} }`
  abbrev pub unless :
      Option (CallError E) → Response E → W → (Response E → W → Response E × W) → Response E × W
  unless none r w f = f r w
  unless (some e) r w f = (failed e, w)

  abbrev pub on_ok : Response E × W → (Response E → W → Response E × W) → Response E × W
  on_ok (r, w) f = unless r.error r w f

  -- A read through a pointer.
  abbrev pub deref : {A : Type 0} → Option A → W → (A → Response E × W) → Response E × W
  deref none w f = (failed nil_pointer, w)
  deref (some a) w f = f a

  abbrev pub on_answer :
      {A : Type 0} → Result (CallError E) A → W → (A → Response E × W) → Response E × W
  on_answer (ok a) w f = f a
  on_answer (err e) w f = (failed e, w)

module _ {E W : Type 0} (s : Server E W) where
  unfoldable pub get_latest : ℤ → W → Response E × W
  get_latest leaf_size w =
      let (a, v) = s.get_latest_signed_log_root leaf_size w in
      (answered (λ root. record success { get_latest_result = some root }) a, v)

  unfoldable pub get_consistency_proof : ℤ → ℤ → W → Response E × W
  get_consistency_proof first_size last_size w =
      let (a, v) = s.get_consistency_proof first_size last_size w in
      (answered (λ p. record success { get_consistency_proof_result = some p }) a, v)

  unfoldable pub get_leaves_by_range : ℤ → ℤ → W → Response E × W
  get_leaves_by_range start_index count w =
      let (a, v) = s.get_leaves_by_range start_index count w in
      (answered (λ l. record success { get_leaves_by_range_result = some l }) a, v)

  unfoldable pub get_leaf_without_proof : ℤ → W → Response E × W
  get_leaf_without_proof index w = get_leaves_by_range index (pos 1) w

  -- The first proof that does not verify.
  abbrev pub check_proofs : LogRoot → Bytes → List InclusionProof → Option (CallError E)
  check_proofs root hash [] = none
  check_proofs root hash (p ∷ ps) =
      or_later (s.verify_inclusion_by_hash root hash p) (check_proofs root hash ps)

  abbrev pub proofs_of : Bytes → LogRoot → Bytes → List InclusionProof → Response E
  proofs_of signed_root root hash ps = checked (check_proofs root hash ps) (record success {
    get_proof_result = some (record { proofs = ps; signed_log_root = signed_root });
  })

  abbrev pub proof_under : Bytes → LogRoot → Bytes → W → Response E × W
  proof_under signed_root root hash w =
      if root.tree_size == 0
      then (failed tree_is_empty, w)
      else let (a, v) = s.get_inclusion_proof_by_hash hash (to_int64 root.tree_size) w in
        (answered (proofs_of signed_root root hash) a, v)

  unfoldable pub get_proof_by_hash : Bytes → W → Response E × W
  get_proof_by_hash hash w = on_ok (get_latest (pos 0) w) λ r v.
      deref r.get_latest_result v λ signed_root.
        on_answer (s.unmarshal_log_root signed_root) v λ root. proof_under signed_root root hash v

  -- No leaf and more than one have a status of their own.
  abbrev pub only_leaf : ℤ → Bytes → InclusionProof → Bytes → Option (List Leaf) → Response E
  only_leaf index hash p signed_root none = failure not_found (some (no_leaf index))
  only_leaf index hash p signed_root (some []) = failure not_found (some (no_leaf index))
  only_leaf index hash p signed_root (some (leaf ∷ [])) =
      if bytes_eq leaf.merkle_leaf_hash hash
      then (record success {
        get_leaf_and_proof_result =
            some (record { proof = some p; leaf = some leaf; signed_log_root = signed_root });
      })
      else failed (leaf_hash_mismatch hash leaf.merkle_leaf_hash)
  only_leaf index hash p signed_root (some (_ ∷ _ ∷ _)) =
      failure failed_precondition (some (multiple_leaves index))

  unfoldable pub get_standalone_leaf : ℤ → Bytes → InclusionProof → Bytes → W → Response E × W
  get_standalone_leaf index hash p signed_root w =
      on_ok (get_leaf_without_proof index w)
        λ r v. (only_leaf index hash p signed_root r.get_leaves_by_range_result, v)

  abbrev pub leaf_of_proofs : Bytes → Bytes → List InclusionProof → W → Response E × W
  leaf_of_proofs hash signed_root (p ∷ []) w =
      on_ok (get_standalone_leaf p.leaf_index hash p signed_root w) λ r v. (r, v)
  leaf_of_proofs hash signed_root [] w = (failed (wrong_proof_count 0), w)
  leaf_of_proofs hash signed_root (p ∷ q ∷ ps) w =
      (failed (wrong_proof_count (suc (suc (length ps)))), w)

  unfoldable pub get_leaf_and_proof_by_hash : Bytes → W → Response E × W
  get_leaf_and_proof_by_hash hash w =
      on_ok (get_proof_by_hash hash w)
        λ r v. deref r.get_proof_result v λ g. leaf_of_proofs hash g.signed_log_root g.proofs v

  -- A message without a proof gives the status OK, and no result.
  abbrev pub entry_of :
      ℤ → Bytes → LogRoot → EntryAndProof → Option InclusionProof → W → Response E × W
  entry_of index signed_root root m none w = (success, w)
  entry_of index signed_root root m (some p) w = deref m.leaf w λ leaf. (
    checked
        (s.verify_inclusion (to_uint64 index) root.tree_size leaf.merkle_leaf_hash p.hashes
          root.root_hash)
        (record success {
          get_leaf_and_proof_result =
              some (record { proof = some p; leaf = m.leaf; signed_log_root = signed_root });
        }),
    w,
  )

  unfoldable pub get_leaf_and_proof_by_index : ℤ → W → Response E × W
  get_leaf_and_proof_by_index index w = on_ok (get_latest (pos 0) w) λ r v.
      deref r.get_latest_result v λ signed_root.
        on_answer (s.unmarshal_log_root signed_root) v λ root.
          let (a, u) = s.get_entry_and_proof index (to_int64 root.tree_size) v in
          on_answer a u λ m. entry_of index signed_root root m m.proof u
