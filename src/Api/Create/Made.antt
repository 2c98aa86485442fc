-- ===== src/Api/Create/Made.antt =====
-- pkg/api/entries.go: every value that createLogEntry puts into a new entry, and where it is from.
use rekor.Base.{
  ◌≡◌, ap, sym, ◌∙◌, List, ◌∷◌, Option, some, ok, wrap, wrap-eq-ok, >>=-eq-ok, ok-injective, guard,
  length, ◌==◌,
}
use rekor.Base.Bytes.{Bytes}
use rekor.Base.Int64.{ℤ}
use rekor.Sharding.EntryId.{EntryId}
use rekor.Sharding.Ranges.{LogRange, get_active}
use rekor.Trillian.Client.{Leaf, InclusionProof, LogRoot, QueuedLeaf, EntryAndProof, Response}
use rekor.Util.SignedCheckpoint.{create_and_sign_checkpoint_multiple}
use rekor.Api.{
  Api, marshalling, canonicalizing, signing, length_mismatch, Verification, LogEntryAnon,
}
use rekor.Api.Leaf.{
  sign_each, anon_of_leaf, verification_of, verified, sign_entry_multiple, first_or_panic,
  behind_first,
}
use rekor.Api.Create.{
  grpc_failed, signing_failed, bad_log_root, sth_generate, deref, ok_or, active_entry_id,
  check_insertion, entry_of_added, added_verification, created,
}
use rekor.Api.Create.Added.{deref-ok}

module _ {E S V P W : Type 0} (api : Api E S V P W) (hash_leaf : Bytes → Bytes) where
  abbrev active_id : ℤ
  active_id = (get_active api.log_ranges).tree_id

  -- The first signer's signature of the canonical form of the entry without its verification.
  abbrev pub IsSignedBy : S → LogEntryAnon → Bytes → Type 0
  IsSignedBy s anon sig =
      (payload : Bytes) × (canonical : Bytes) × (api.marshal_binary anon ≡ ok payload)
      × (api.canonical_json payload ≡ ok canonical)
      × (api.crypto.sign_message s canonical ≡ ok sig)

  -- A verification whose parts come from the log server's answer and the signers.
  abbrev pub IsMade : Leaf → EntryAndProof → List S → Bytes → Verification → Type 0
  IsMade leaf m ss primary v =
      (root : LogRoot) × (proof : InclusionProof) × (sc : Bytes) × (more : List (Bytes × Bytes))
      × (api.unmarshal_log_root m.signed_log_root ≡ ok root)
      × (m.proof ≡ some proof)
      × (create_and_sign_checkpoint_multiple api.crypto api.hostname active_id root.tree_size
            root.root_hash ss
          ≡ ok sc)
      × (verification_of api root (record proof { leaf_index = leaf.leaf_index }) sc primary more
          ≡ v)

  added_verification-IsMade :
      (leaf : Leaf) (m : EntryAndProof) (r : LogRange S) (sigs ids : List Bytes) (primary : Bytes)
      {v : Verification}
      → added_verification api hash_leaf leaf m r sigs ids primary ≡ ok v
      → IsMade leaf m r.signers primary v
  unfolding added_verification
  added_verification-IsMade leaf m r sigs ids primary {v} e =
      let (root, read, e5) =
        >>=-eq-ok (wrap bad_log_root (api.unmarshal_log_root m.signed_log_root)) _ e in
      let (proof, there, e6) = >>=-eq-ok (deref m.proof) _ e5 in
      let (sc, signed, e7) =
        >>=-eq-ok
          (wrap sth_generate (
            create_and_sign_checkpoint_multiple api.crypto api.hostname active_id root.tree_size
              root.root_hash r.signers))
          _ e6 in
      let (more, rest, e8) = >>=-eq-ok (wrap signing_failed (behind_first api ids sigs)) _ e7 in
      let at = record proof { leaf_index = leaf.leaf_index } in
      (
        root,
        proof,
        sc,
        more,
        wrap-eq-ok bad_log_root (api.unmarshal_log_root m.signed_log_root) read,
        deref-ok api hash_leaf m.proof there,
        wrap-eq-ok sth_generate
            (create_and_sign_checkpoint_multiple api.crypto api.hostname active_id root.tree_size
              root.root_hash r.signers)
            signed,
        ok-injective {a = verification_of api root at sc primary more} {b = v} e8,
      )

  sign_each-first :
      (msg : Bytes) (s : S) (ss : List S) {sigs : List Bytes} {primary : Bytes}
      → sign_each api 0 msg (s ∷ ss) ≡ ok sigs
      → first_or_panic api sigs ≡ ok primary
      → api.crypto.sign_message s msg ≡ ok primary
  unfolding sign_each
  sign_each-first msg s ss {sigs} {primary} e f =
      let (sig, first, e1) = >>=-eq-ok (wrap (signing 0) (api.crypto.sign_message s msg)) _ e in
      let (more, _, e2) = >>=-eq-ok (sign_each api 1 msg ss) _ e1 in
      let same : sig ≡ primary =
        ok-injective (ap (first_or_panic api) (ok-injective {a = sig ∷ more} {b = sigs} e2) ∙ f) in
      wrap-eq-ok (signing 0) (api.crypto.sign_message s msg) first ∙ ap ok same

  sign_entry_multiple-IsSignedBy :
      (s : S) (ss : List S) (ids : List Bytes) (anon : LogEntryAnon) {o : List Bytes × List Bytes}
      {primary : Bytes}
      → sign_entry_multiple api (s ∷ ss) ids anon ≡ ok o
      → first_or_panic api o.0 ≡ ok primary
      → IsSignedBy s anon primary
  unfolding sign_entry_multiple
  sign_entry_multiple-IsSignedBy s ss ids anon {o} {primary} h f =
      let (u, _, e1) =
        >>=-eq-ok
          (guard (length (s ∷ ss) == length ids) (length_mismatch (length (s ∷ ss)) (length ids))) _
          h in
      let (payload, marshalled, e2) = >>=-eq-ok (wrap marshalling (api.marshal_binary anon)) _ e1 in
      let (msg, canonical, e3) =
        >>=-eq-ok (wrap canonicalizing (api.canonical_json payload)) _ e2 in
      let (sigs, signed, e4) = >>=-eq-ok (sign_each api 0 msg (s ∷ ss)) _ e3 in
      let q = ok-injective {a = (sigs, ids)} {b = o} e4 in
      (
        payload,
        msg,
        wrap-eq-ok marshalling (api.marshal_binary anon) marshalled,
        wrap-eq-ok canonicalizing (api.canonical_json payload) canonical,
        sign_each-first msg s ss {sigs = sigs} {primary = primary} signed
            (ap (λ x. first_or_panic api x.0) q ∙ f),
      )

  -- The new entry of a leaf, signed by `s` first.
  abbrev pub IsNewEntry : Leaf → EntryAndProof → LogRange S → S → LogEntryAnon → Type 0
  IsNewEntry leaf m r s e =
      (primary : Bytes) × (v : Verification) × (IsMade leaf m r.signers primary v)
      × IsSignedBy s (anon_of_leaf api leaf active_id r) primary
      × (verified api (anon_of_leaf api leaf active_id r) v ≡ e)

  entry_of_added-IsNewEntry :
      (leaf : Leaf) (result : Option EntryAndProof) (r : LogRange S) (s : S) (ss : List S)
      {o : EntryId × LogEntryAnon}
      → r.signers ≡ s ∷ ss
      → entry_of_added api hash_leaf leaf result r ≡ ok o
      → (m : EntryAndProof) × (result ≡ some m) × IsNewEntry leaf m r s o.1
  unfolding entry_of_added
  entry_of_added-IsNewEntry leaf result r s ss {o} first e =
      let anon = anon_of_leaf api leaf active_id r in
      let (id, _, e1) = >>=-eq-ok (active_entry_id api hash_leaf leaf.merkle_leaf_hash) _ e in
      let (sg, signed, e2) =
        >>=-eq-ok (wrap signing_failed (sign_entry_multiple api r.signers r.log_ids anon)) _ e1 in
      let (primary, at, e3) = >>=-eq-ok (wrap signing_failed (first_or_panic api sg.0)) _ e2 in
      let (m, there, e4) = >>=-eq-ok (deref result) _ e3 in
      let (v, sealed, e5) =
        >>=-eq-ok (added_verification api hash_leaf leaf m r sg.0 sg.1 primary) _ e4 in
      let q = ok-injective {a = (id, verified api anon v)} {b = o} e5 in
      (
        m,
        deref-ok api hash_leaf result there,
        (
          primary,
          v,
          added_verification-IsMade leaf m r sg.0 sg.1 primary {v = v} sealed,
          sign_entry_multiple-IsSignedBy s ss r.log_ids anon {o = sg} {primary = primary}
              (ap (λ l. sign_entry_multiple api l r.log_ids anon) (sym first)
                ∙ wrap-eq-ok signing_failed (sign_entry_multiple api r.signers r.log_ids anon)
                    signed)
              (wrap-eq-ok signing_failed (first_or_panic api sg.0) at),
          ap (λ x. x.1) q,
        ),
      )

  pub created-IsNewEntry :
      (leaf : Bytes) (resp : Response E) (s : S) (ss : List S) {o : EntryId × LogEntryAnon}
      → (get_active api.log_ranges).signers ≡ s ∷ ss
      → created api hash_leaf leaf resp ≡ ok o
      → (q : QueuedLeaf) × (m : EntryAndProof) × (resp.get_add_result ≡ some q)
        × (resp.get_leaf_and_proof_result ≡ some m)
        × IsNewEntry q.leaf m (get_active api.log_ranges) s o.1
  unfolding created
  created-IsNewEntry leaf resp s ss {o} first e =
      let (_, _, e1) = >>=-eq-ok (ok_or (grpc_failed resp.error) resp.status) _ e in
      let (q, there, e2) = >>=-eq-ok (deref resp.get_add_result) _ e1 in
      let (_, _, e3) = >>=-eq-ok (check_insertion api hash_leaf leaf q.status) _ e2 in
      let (m, got, new) =
        entry_of_added-IsNewEntry q.leaf resp.get_leaf_and_proof_result (get_active api.log_ranges)
          s ss {o = o} first e3 in
      (q, m, deref-ok api hash_leaf resp.get_add_result there, got, new)
