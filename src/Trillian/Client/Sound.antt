-- ===== src/Trillian/Client/Sound.antt =====
-- What the reading calls of pkg/trillianclient/trillian_client.go have verified when they succeed.
use rekor.Base.{
  ◌==◌, ◌≡◌, refl, Bool, true, false, Option, none, some, List, [], ◌∷◌, if◌then◌else◌, Result, ok,
  err, All, ◌⊎◌, inl, inr, Bool-cases, Option-cases,
}
use rekor.Base.Bytes.{Bytes, bytes_eq, bytes_eq_iff}
use rekor.Base.Int64.{ℤ, pos}
use rekor.Trillian.Client.{
  ok_code, CallError, Leaf, InclusionProof, LogRoot, EntryAndProof, ProofByHash, Response, Server,
}
use rekor.Trillian.Client.Calls.{
  success, checked, answered, unless, deref, on_answer, get_latest, check_proofs, proofs_of,
  proof_under, get_proof_by_hash, only_leaf, get_leaf_without_proof, get_standalone_leaf,
  leaf_of_proofs, get_leaf_and_proof_by_hash,
}

module _ {E W : Type 0} (s : Server E W) where
  -- A success has the status OK and a result that satisfies `P`; a failure has an error, no result.
  abbrev pub Outcome : (EntryAndProof → Type 0) → Response E → Type 0
  Outcome P r =
      ((m : EntryAndProof) × (r.error ≡ none)
        × (r.status ≡ ok_code)
        × (r.get_leaf_and_proof_result ≡ some m)
        × P m)
      ⊎ ((e : CallError E) × (r.error ≡ some e) × (r.get_leaf_and_proof_result ≡ none))

  -- The proofs of a result are verified, against the root that the result carries.
  abbrev pub Proved : Bytes → Option ProofByHash → Type 0
  Proved hash none = Unit
  Proved hash (some g) =
      (root : LogRoot) × (s.unmarshal_log_root g.signed_log_root ≡ ok root)
      × All (λ p. s.verify_inclusion_by_hash root hash p ≡ none) g.proofs

  -- The leaf has the hash, and its proof is verified against the root that comes with it.
  abbrev pub IsVerified : Bytes → EntryAndProof → Type 0
  IsVerified hash m =
      (leaf : Leaf) × (p : InclusionProof) × (root : LogRoot) × (m.leaf ≡ some leaf)
      × (m.proof ≡ some p)
      × (leaf.merkle_leaf_hash ≡ hash)
      × (s.unmarshal_log_root m.signed_log_root ≡ ok root)
      × (s.verify_inclusion_by_hash root hash p ≡ none)

  unless-Proved :
      (hash : Bytes) (o : Option (CallError E)) (r : Response E) (w : W)
      (f : Response E → W → Response E × W)
      → Proved hash (f r w).0.get_proof_result
      → Proved hash (unless o r w f).0.get_proof_result
  unless-Proved hash none r w f h = h
  unless-Proved hash (some e) r w f h = tt

  check_proofs_lem :
      (root : LogRoot) (hash : Bytes) (ps : List InclusionProof)
      → check_proofs s root hash ps ≡ none
      → All (λ p. s.verify_inclusion_by_hash root hash p ≡ none) ps
  check_proofs_lem root hash [] e = tt
  check_proofs_lem root hash (p ∷ ps) e =
      elim (Option-cases (s.verify_inclusion_by_hash root hash p)) [
        | inl q ↦ (q, check_proofs_lem root hash ps (rw q at e))
        | inr (x, q) ↦ cc (rw q at e)
      ]

  checked-Proved :
      (signed_root : Bytes) (root : LogRoot) (hash : Bytes) (ps : List InclusionProof)
      (o : Option (CallError E))
      → s.unmarshal_log_root signed_root ≡ ok root
      → check_proofs s root hash ps ≡ o
      → Proved hash
          (checked o (record success {
            get_proof_result = some (record { proofs = ps; signed_log_root = signed_root });
          })).get_proof_result
  checked-Proved signed_root root hash ps none u e = (root, u, check_proofs_lem root hash ps e)
  checked-Proved signed_root root hash ps (some x) u e = tt

  answered-Proved :
      (signed_root : Bytes) (root : LogRoot) (hash : Bytes)
      (a : Result (CallError E) (List InclusionProof))
      → s.unmarshal_log_root signed_root ≡ ok root
      → Proved hash (answered (proofs_of s signed_root root hash) a).get_proof_result
  answered-Proved signed_root root hash (ok ps) u = checked-Proved signed_root root hash ps _ u refl
  answered-Proved signed_root root hash (err e) u = tt

  if-Proved :
      (hash : Bytes) (b : Bool) (x y : Response E × W)
      → Proved hash x.0.get_proof_result
      → Proved hash y.0.get_proof_result
      → Proved hash (if b then x else y).0.get_proof_result
  if-Proved hash true x y h k = h
  if-Proved hash false x y h k = k

  proof_under-Proved :
      (signed_root : Bytes) (root : LogRoot) (hash : Bytes) (w : W)
      → s.unmarshal_log_root signed_root ≡ ok root
      → Proved hash (proof_under s signed_root root hash w).0.get_proof_result
  proof_under-Proved signed_root root hash w u =
      if-Proved hash (root.tree_size == 0) _ _ tt (answered-Proved signed_root root hash _ u)

  unmarshalled-Proved :
      (signed_root hash : Bytes) (a : Result (CallError E) LogRoot) (w : W)
      → s.unmarshal_log_root signed_root ≡ a
      → Proved hash
          (on_answer a w (λ root. proof_under s signed_root root hash w)).0.get_proof_result
  unmarshalled-Proved signed_root hash (ok root) w u = proof_under-Proved signed_root root hash w u
  unmarshalled-Proved signed_root hash (err e) w u = tt

  latest-Proved :
      (hash : Bytes) (o : Option Bytes) (w : W)
      → Proved hash
          (deref o w (λ signed_root.
            on_answer
              (s.unmarshal_log_root signed_root)
              w
              (λ root. proof_under s signed_root root hash w))).0.get_proof_result
  latest-Proved hash none w = tt
  latest-Proved hash (some signed_root) w = unmarshalled-Proved signed_root hash _ w refl

  pub get_proof_by_hash-Proved :
      (hash : Bytes) (w : W) → Proved hash (get_proof_by_hash s hash w).0.get_proof_result
  unfolding get_proof_by_hash
  get_proof_by_hash-Proved hash w =
      let (r, v) = get_latest s (pos 0) w in
      unless-Proved hash r.error r v _ (latest-Proved hash r.get_latest_result v)

  module _ (P : EntryAndProof → Type 0) where
    unless-Outcome :
        (o : Option (CallError E)) (r : Response E) (w : W) (f : Response E → W → Response E × W)
        → Outcome P (f r w).0
        → Outcome P (unless o r w f).0
    unless-Outcome none r w f h = h
    unless-Outcome (some e) r w f h = inr (e, refl, refl)

  only_leaf-Outcome :
      (index : ℤ) (hash : Bytes) (p : InclusionProof) (signed_root : Bytes) (root : LogRoot)
      (o : Option (List Leaf))
      → s.unmarshal_log_root signed_root ≡ ok root
      → s.verify_inclusion_by_hash root hash p ≡ none
      → Outcome (IsVerified hash) (only_leaf s index hash p signed_root o)
  only_leaf-Outcome index hash p signed_root root none u v = inr (_, refl, refl)
  only_leaf-Outcome index hash p signed_root root (some []) u v = inr (_, refl, refl)
  only_leaf-Outcome index hash p signed_root root (some (leaf ∷ [])) u v =
      elim (Bool-cases (bytes_eq leaf.merkle_leaf_hash hash)) [
        | inl same ↦ rw same (
            inl (
              _,
              refl,
              refl,
              refl,
              (leaf, p, root, refl, refl, (bytes_eq_iff leaf.merkle_leaf_hash hash).0 same, u, v),
            ))
        | inr different ↦ rw different (inr (_, refl, refl))
      ]
  only_leaf-Outcome index hash p signed_root root (some (_ ∷ _ ∷ _)) u v = inr (_, refl, refl)

  pub get_standalone_leaf-Outcome :
      (index : ℤ) (hash : Bytes) (p : InclusionProof) (signed_root : Bytes) (root : LogRoot) (w : W)
      → s.unmarshal_log_root signed_root ≡ ok root
      → s.verify_inclusion_by_hash root hash p ≡ none
      → Outcome (IsVerified hash) (get_standalone_leaf s index hash p signed_root w).0
  unfolding get_standalone_leaf
  get_standalone_leaf-Outcome index hash p signed_root root w u v =
      let (r, x) = get_leaf_without_proof s index w in
      unless-Outcome (IsVerified hash) r.error r x _
        (only_leaf-Outcome index hash p signed_root root r.get_leaves_by_range_result u v)

  leaf_of_proofs-Outcome :
      (hash signed_root : Bytes) (root : LogRoot) (ps : List InclusionProof) (w : W)
      → s.unmarshal_log_root signed_root ≡ ok root
      → All (λ p. s.verify_inclusion_by_hash root hash p ≡ none) ps
      → Outcome (IsVerified hash) (leaf_of_proofs s hash signed_root ps w).0
  leaf_of_proofs-Outcome hash signed_root root [] w u h = inr (_, refl, refl)
  leaf_of_proofs-Outcome hash signed_root root (p ∷ []) w u (h, _) =
      let (r, v) = get_standalone_leaf s p.leaf_index hash p signed_root w in
      unless-Outcome (IsVerified hash) r.error r v (λ q x. (q, x))
        (get_standalone_leaf-Outcome p.leaf_index hash p signed_root root w u h)
  leaf_of_proofs-Outcome hash signed_root root (p ∷ q ∷ ps) w u h = inr (_, refl, refl)

  proofs-Outcome :
      (hash : Bytes) (o : Option ProofByHash) (w : W)
      → Proved hash o
      → Outcome
          (IsVerified hash)
          (deref o w (λ g. leaf_of_proofs s hash g.signed_log_root g.proofs w)).0
  proofs-Outcome hash none w h = inr (_, refl, refl)
  proofs-Outcome hash (some g) w (root, u, h) =
      leaf_of_proofs-Outcome hash g.signed_log_root root g.proofs w u h

  -- GetLeafAndProofByHash either fails with an error and no result, or gives a leaf with the hash and
  -- one proof of it, which was verified against the log root that comes with them.
  pub get_leaf_and_proof_by_hash-IsVerified :
      (hash : Bytes) (w : W) → Outcome (IsVerified hash) (get_leaf_and_proof_by_hash s hash w).0
  unfolding get_leaf_and_proof_by_hash
  get_leaf_and_proof_by_hash-IsVerified hash w =
      let (r, v) = get_proof_by_hash s hash w in
      unless-Outcome (IsVerified hash) r.error r v _
        (proofs-Outcome hash r.get_proof_result v (get_proof_by_hash-Proved hash w))
