-- ===== src/Verify/Created/Accepted.antt =====
-- An entry that createLogEntry of pkg/api/entries.go answers, checked with pkg/verify/verify.go.
use rekor.Base.{
  ℕ, ◌^◌, ◌<◌, ◌≡◌, refl, ap, sym, ◌∙◌, subst, List, [], ◌∷◌, none, some, some-injective,
  ok-injective, map, ok, inl, inr, All, arith,
}
use rekor.Base.Bytes.{Bytes}
use rekor.Base.Int64.{ℤ, to_int64, to_uint64}
use rekor.Golib.Base64
use rekor.Golib.Base64.RoundTrip.{decode-encode}
use rekor.Golib.Hex.{IsByte, hex_encode, hex_decode}
use rekor.Golib.Hex
use rekor.Sharding.Ranges.{get_active}
use rekor.Sharding.EntryId.{EntryId}
use rekor.Trillian.Client.{Leaf, LogRoot, QueuedLeaf, EntryAndProof, Response, Server}
use rekor.Trillian.Client
use rekor.Trillian.Client.Sound.{IsVerified}
use rekor.Trillian.Client.Adding.{add_leaf}
use rekor.Trillian.Client.Adding.Verified.{add_leaf-Added}
use rekor.Util.SignedNote.{verify}
use rekor.Util.SignedCheckpoint.{checkpoint_of, create_and_sign_checkpoint_multiple}
use rekor.Util.SignedCheckpoint.Signing.{Pair, signers_of}
use rekor.Util.Checkpoint.{Checkpoint}
use rekor.Util.Checkpoint.RoundTrip.{IsPrintable}
use rekor.Util.NoteText.Signed.{Reads, create_and_sign-Reads}
use rekor.Api.{Api, LogEntryAnon}
use rekor.Api.Leaf.{anon_of_leaf, verification_of, verified}
use rekor.Api.Create.{created}
use rekor.Api.Create.Made.{IsSignedBy, IsNewEntry, created-IsNewEntry}
use rekor.Verify.{
  InclusionProof, Verification, Entry, Checks, decode_hashes, bundle_of, verify_log_entry,
}
use rekor.Verify.Sound.{Includes, HasCheckpoint, HasTimestamp, IsAccepted, verify_log_entry_iff}
use rekor.Verify.Created.{received, IsClientOf, AreWellFormed, IsWellFormed, IsServer}

decode_hashes-encode :
    (hs : List Bytes) → All (All IsByte) hs → decode_hashes (map hex_encode hs) ≡ some hs
unfolding decode_hashes
decode_hashes-encode [] _ = refl
decode_hashes-encode (h ∷ hs) (b, bs) = rw (Hex.decode-encode h b, decode_hashes-encode hs bs) refl

uint64-int64 : (n : ℕ) → n < 2 ^ 64 → to_uint64 (to_int64 n) ≡ n
uint64-int64 n h = ground arith

-- What is known of a response of AddLeaf that has a leaf and a result.
added-IsVerified :
    {E W : Type 0} (tc : Server E W) (fuel : ℕ) (leaf : Bytes) (w v : W) (resp : Response E)
    (q : QueuedLeaf) (m : EntryAndProof)
    → add_leaf tc fuel leaf w ≡ some (resp, v)
    → resp.get_add_result ≡ some q
    → resp.get_leaf_and_proof_result ≡ some m
    → (m.leaf ≡ some q.leaf) × IsVerified tc q.leaf.merkle_leaf_hash m
added-IsVerified tc fuel leaf w v resp q m added there got =
    elim (add_leaf-Added tc fuel leaf w {r = (resp, v)} added) [
      | inl (x, _, nothing) ↦ absurd (cc (got, nothing))
      | inr (inl (x, _, _, _, _, nothing)) ↦ absurd (cc (got, nothing))
      | inr (inr (x, _, _, (read, n, _, _, there2, got2, back, hash, proved))) ↦
          let same_leaf : read ≡ q.leaf = ap (λ y. y.leaf) (some-injective (sym there2 ∙ there)) in
          let same_m : n ≡ m = some-injective (sym got2 ∙ got) in
          let same_hash = sym hash ∙ ap (λ y. y.merkle_leaf_hash) same_leaf in
          (
            ap (λ y. y.leaf) (sym same_m) ∙ back ∙ ap some same_leaf,
            subst (λ y. IsVerified tc y m) same_hash
                (subst (IsVerified tc x.leaf.merkle_leaf_hash) same_m proved),
          )
    ]

module _ {E S V P W : Type 0} (api : Api E S V P W) (c : Checks E S V P) where
  module _ (tc : Server E W) (client : IsClientOf api c tc) (leaf : Leaf) (root : LogRoot)
      (proof : Client.InclusionProof) where
    abbrev made_proof : Bytes → InclusionProof
    made_proof sc = record {
      log_index = leaf.leaf_index;
      tree_size = to_int64 root.tree_size;
      root_hash = hex_encode root.root_hash;
      hashes = map hex_encode proof.hashes;
      checkpoint = sc;
    }

    made-Includes :
        (e : Entry) (sc : Bytes)
        → e.body ≡ some (Base64.encode leaf.leaf_value)
        → tc.verify_inclusion_by_hash root leaf.merkle_leaf_hash proof ≡ none
        → AreWellFormed api c leaf proof root
        → Includes c e (made_proof sc)
    made-Includes e sc body proved (hash, index, value, hs, r, size) = (
      proof.hashes,
      root.root_hash,
      Base64.encode leaf.leaf_value,
      leaf.leaf_value,
      decode_hashes-encode proof.hashes hs,
      Hex.decode-encode root.root_hash r,
      body,
      decode-encode leaf.leaf_value value,
      ap
            (λ i.
              c.prove_inclusion (to_uint64 i) (to_uint64 (to_int64 root.tree_size))
                (c.hash_leaf leaf.leaf_value) proof.hashes root.root_hash)
            (sym index)
          ∙ ap
              (λ n.
                c.prove_inclusion (to_uint64 proof.leaf_index) n (c.hash_leaf leaf.leaf_value)
                  proof.hashes root.root_hash)
              (uint64-int64 root.tree_size size)
          ∙ ap
              (λ h.
                c.prove_inclusion (to_uint64 proof.leaf_index) root.tree_size h proof.hashes
                  root.root_hash)
              hash
          ∙ client.same_proofs root leaf.merkle_leaf_hash proof proved,
    )

    made-HasCheckpoint :
        (cp : Checkpoint) (v : V) (sc : Bytes)
        → cp.hash ≡ root.root_hash
        → All IsByte root.root_hash
        → Reads api.crypto c.fscanf cp v sc
        → HasCheckpoint c (made_proof sc) v
    made-HasCheckpoint cp v sc same bytes (sth, read, is, right) = (
      sth,
      root.root_hash,
      read,
      ap (λ k. verify k sth.signed_note v) client.same_crypto ∙ right,
      Hex.decode-encode root.root_hash bytes,
      ap (c.equal_fold root.root_hash) (ap (λ x. x.hash) is ∙ same)
          ∙ client.folds_itself root.root_hash,
    )

  made-HasTimestamp :
      (tc : Server E W) (client : IsClientOf api c tc) (hash_leaf : Bytes → Bytes)
      (anon : LogEntryAnon) (p : Pair api.crypto) (primary : Bytes) (w : Verification)
      → anon.verification ≡ none
      → anon.attestation ≡ none
      → All IsByte anon.body
      → IsSignedBy api hash_leaf p.signer anon primary
      → (e : Entry) → bundle_of c e ≡ bundle_of c (received anon)
      → w.signed_entry_timestamp ≡ some primary
      → HasTimestamp c e w p.verifier
  made-HasTimestamp tc client hash_leaf anon p primary w no_v no_a body
        (payload, canonical, marshalled, made, signed) e same there =
      (
        primary,
        canonical,
        there,
        ap c.canonical_bundle same
            ∙ client.same_json anon payload canonical no_v no_a body marshalled made,
        ap (λ k. k.verify_signature p.verifier primary canonical) client.same_crypto
            ∙ (p.correct canonical primary signed).1,
      )

  abbrev active_id : ℤ
  active_id = (get_active api.log_ranges).tree_id

  made-IsPrintable :
      (p : Pair api.crypto) (ps : List (Pair api.crypto)) (root : LogRoot)
      → IsServer api c p ps
      → All IsByte root.root_hash
      → root.tree_size < 2 ^ 64
      → IsPrintable (checkpoint_of api.hostname active_id root.tree_size root.root_hash)
  made-IsPrintable p ps root server bytes size = record {
    origin_full = server.origin_full;
    size_fits = size;
    hash_bytes = bytes;
    others_full = tt;
  }

  -- The entry of a leaf, with the parts of its verification.
  abbrev new_entry :
      Leaf → LogRoot → Client.InclusionProof → Bytes → Bytes → List (Bytes × Bytes) → LogEntryAnon
  new_entry leaf root proof sc primary more =
      verified api (anon_of_leaf api leaf active_id (get_active api.log_ranges))
        (verification_of api root (record proof { leaf_index = leaf.leaf_index }) sc primary more)

  new_entry-IsAccepted :
      (tc : Server E W) (hash_leaf : Bytes → Bytes) (p : Pair api.crypto)
      (ps : List (Pair api.crypto)) (leaf : Leaf) (root : LogRoot) (proof : Client.InclusionProof)
      (sc primary : Bytes) (more : List (Bytes × Bytes))
      → IsClientOf api c tc
      → IsServer api c p ps
      → AreWellFormed api c leaf proof root
      → tc.verify_inclusion_by_hash root leaf.merkle_leaf_hash proof ≡ none
      → create_and_sign_checkpoint_multiple api.crypto api.hostname active_id root.tree_size
          root.root_hash
          (get_active api.log_ranges).signers
        ≡ ok sc
      → IsSignedBy api hash_leaf p.signer
          (anon_of_leaf api leaf active_id (get_active api.log_ranges))
          primary
      → IsAccepted c (received (new_entry leaf root proof sc primary more)) p.verifier
  unfolding anon_of_leaf verification_of verified
  new_entry-IsAccepted tc hash_leaf p ps leaf root proof sc primary more client server facts proved
        signed signed_by =
      let e = received (new_entry leaf root proof sc primary more) in
      let cp = checkpoint_of api.hostname active_id root.tree_size root.root_hash in
      let sealed =
        ap
          (create_and_sign_checkpoint_multiple api.crypto api.hostname active_id root.tree_size
            root.root_hash)
          (sym server.signers)
        ∙ signed in
      let reads =
        create_and_sign-Reads api.crypto c.fscanf api.hostname active_id root.tree_size
          root.root_hash p ps {text = sc} client.reads_words
          (made-IsPrintable p ps root server facts.4 facts.5) server.host server.hints
          server.signs_bytes sealed in
      let w : Verification = record {
        inclusion_proof = some (made_proof tc client leaf root proof sc);
        signed_entry_timestamp = some primary;
      } in
      (
        w,
        made_proof tc client leaf root proof sc,
        refl,
        refl,
        made-Includes tc client leaf root proof e sc refl proved facts,
        made-HasCheckpoint tc client leaf root proof cp p.verifier sc refl facts.4 reads,
        made-HasTimestamp tc client hash_leaf
            (anon_of_leaf api leaf active_id (get_active api.log_ranges)) p primary w refl refl
            facts.2 signed_by e refl refl,
      )

  new-IsAccepted :
      (tc : Server E W) (hash_leaf : Bytes → Bytes) (p : Pair api.crypto)
      (ps : List (Pair api.crypto)) (leaf : Leaf) (m : EntryAndProof) (e : LogEntryAnon)
      → IsClientOf api c tc
      → IsServer api c p ps
      → IsWellFormed api c m
      → m.leaf ≡ some leaf
      → IsVerified tc leaf.merkle_leaf_hash m
      → IsNewEntry api hash_leaf leaf m (get_active api.log_ranges) p.signer e
      → IsAccepted c (received e) p.verifier
  new-IsAccepted tc hash_leaf p ps leaf m e client server well back
        (leaf2, proof2, root2, _, its2, _, read2, proved)
        (primary, v, (root, proof, sc, more, read, its, signed, is_v), signed_by, is_e) =
      let same_root : root2 ≡ root =
        ok-injective (sym read2 ∙ client.same_roots m.signed_log_root ∙ read) in
      let same_proof : proof2 ≡ proof = some-injective (sym its2 ∙ its) in
      let proved2 =
        subst (λ x. tc.verify_inclusion_by_hash x leaf.merkle_leaf_hash proof ≡ none) same_root
          (subst (λ x. tc.verify_inclusion_by_hash root2 leaf.merkle_leaf_hash x ≡ none) same_proof
            proved) in
      let anon = anon_of_leaf api leaf active_id (get_active api.log_ranges) in
      subst (λ x. IsAccepted c (received x) p.verifier) (ap (verified api anon) is_v ∙ is_e)
        (new_entry-IsAccepted tc hash_leaf p ps leaf root proof sc primary more client server
          (well leaf proof root back its read) proved2 signed signed_by)

  -- What the server answers for a new entry, a client accepts: if AddLeaf gives a response of which
  -- createLogEntry makes an entry, VerifyLogEntry with the key of the first signer has no error on it.
  -- The client and the server call the same packages, the log server's answers are well formed, and
  -- the server's hostname and signatures fit on the lines of a note.
  pub created-IsAccepted :
      (tc : Server E W) (hash_leaf : Bytes → Bytes) (p : Pair api.crypto)
      (ps : List (Pair api.crypto)) (fuel : ℕ) (leaf : Bytes) (w v : W) (resp : Response E)
      {o : EntryId × LogEntryAnon}
      → IsClientOf api c tc
      → IsServer api c p ps
      → ((m : EntryAndProof) → resp.get_leaf_and_proof_result ≡ some m → IsWellFormed api c m)
      → add_leaf tc fuel leaf w ≡ some (resp, v)
      → created api hash_leaf leaf resp ≡ ok o
      → verify_log_entry c (received o.1) p.verifier ≡ ok tt
  created-IsAccepted tc hash_leaf p ps fuel leaf w v resp {o} client server well added e =
      let (q, m, there, got, new) =
        created-IsNewEntry api hash_leaf leaf resp p.signer (signers_of api.crypto ps) {o = o}
          server.signers e in
      let (back, proved) = added-IsVerified tc fuel leaf w v resp q m added there got in
      (verify_log_entry_iff c (received o.1) p.verifier).1
        (new-IsAccepted tc hash_leaf p ps q.leaf m o.1 client server (well m got) back proved new)
