-- ===== src/Verify/Sound.antt =====
-- What the checks of pkg/verify/verify.go say of what they accept.
use rekor.Base.{
  ◌≡◌, refl, ap, sym, ◌∙◌, subst, ◌↔◌, true, List, Option, none, some, some-injective, ok,
  >>=-eq-ok, guard, guard-ok, wrap, wrap-eq-ok, ok-injective,
}
use rekor.Base.Bytes.{Bytes}
use rekor.Base.Int64.{to_uint64}
use rekor.Golib.Base64
use rekor.Golib.Hex.{hex_decode}
use rekor.Util.SignedNote.{verify}
use rekor.Util.SignedCheckpoint.{SignedCheckpoint}
use rekor.Util.NoteText.{unmarshal_signed_checkpoint}
use rekor.Verify.{
  InclusionProof, Verification, Entry, Error, Checks, bad_tree_head, checkpoint_not_verified,
  bad_root_hash, root_hash_differs, no_inclusion_proof, body_not_string, bad_body, bad_proof_hash,
  not_included, missing_verification, signature_missing, bad_bundle, timestamp_not_verified, panic,
  decode_hashes, ok_or, passes, proof_or, bundle_of, verify_checkpoint_signature, verify_inclusion,
  verify_signed_entry_timestamp, verify_log_entry,
}

module _ {E : Type 0} where
  pub ok_or-ok : {A : Type 0} (e : Error E) (o : Option A) {a : A} → ok_or e o ≡ ok a → o ≡ some a
  ok_or-ok e none h = cc
  ok_or-ok e (some a) h = ap some (ok-injective h)

  pub passes-ok : (f : E → Error E) (o : Option E) {u : Unit {0}} → passes f o ≡ ok u → o ≡ none
  passes-ok f none h = refl
  passes-ok f (some e) h = cc

module _ {E S V P : Type 0} (c : Checks E S V P) where
  proof_or-ok :
      (e : Error E) (o : Option Verification) {p : InclusionProof}
      → proof_or c e o ≡ ok p
      → (v : Verification) × (o ≡ some v) × (v.inclusion_proof ≡ some p)
  proof_or-ok e none h = cc
  proof_or-ok e (some v) h = (v, refl, ok_or-ok e v.inclusion_proof h)

  -- The proof that the entry carries is of its body, against the root hash that it names.
  abbrev pub Includes : Entry → InclusionProof → Type 0
  Includes e p =
      (hashes : List Bytes) × (root : Bytes) × (body : Bytes) × (bytes : Bytes) × (decode_hashes
          p.hashes
        ≡ some hashes)
      × (hex_decode p.root_hash ≡ some root)
      × (e.body ≡ some body)
      × (Base64.decode body ≡ some bytes)
      × (c.prove_inclusion (to_uint64 p.log_index) (to_uint64 p.tree_size) (c.hash_leaf bytes)
            hashes root
          ≡ none)

  -- The checkpoint that the proof carries is signed, and bytes.EqualFold takes its hash as the root hash
  -- of the proof.
  abbrev pub HasCheckpoint : InclusionProof → V → Type 0
  HasCheckpoint p v =
      (sth : SignedCheckpoint) × (root : Bytes) × (unmarshal_signed_checkpoint c.fscanf p.checkpoint
        ≡ ok sth)
      × (verify c.crypto sth.signed_note v ≡ true)
      × (hex_decode p.root_hash ≡ some root)
      × (c.equal_fold root sth.checkpoint.hash ≡ true)

  -- The timestamp is a signature of the bundle of the entry.
  abbrev pub HasTimestamp : Entry → Verification → V → Type 0
  HasTimestamp e w v =
      (set : Bytes) × (canonicalized : Bytes) × (w.signed_entry_timestamp ≡ some set)
      × (c.canonical_bundle (bundle_of c e) ≡ ok canonicalized)
      × (c.crypto.verify_signature v set canonicalized ≡ true)

  -- An entry that carries a verification, with a proof, on which the three hold.
  abbrev pub IsAccepted : Entry → V → Type 0
  IsAccepted e v =
      (w : Verification) × (p : InclusionProof) × (e.verification ≡ some w)
      × (w.inclusion_proof ≡ some p)
      × Includes e p
      × HasCheckpoint p v
      × HasTimestamp e w v

  verify_inclusion_lem :
      (e : Entry) {u : Unit {0}}
      → verify_inclusion c e ≡ ok u
      → (w : Verification) × (p : InclusionProof) × (e.verification ≡ some w)
        × (w.inclusion_proof ≡ some p)
        × Includes e p
  unfolding verify_inclusion
  verify_inclusion_lem e h =
      let (p, carried, h1) = >>=-eq-ok (proof_or c no_inclusion_proof e.verification) _ h in
      let (hashes, hs, h2) = >>=-eq-ok (ok_or bad_proof_hash (decode_hashes p.hashes)) _ h1 in
      let (root, r, h3) = >>=-eq-ok (ok_or bad_root_hash (hex_decode p.root_hash)) _ h2 in
      let (body, b, h4) = >>=-eq-ok (ok_or body_not_string e.body) _ h3 in
      let (bytes, d, h5) = >>=-eq-ok (ok_or bad_body (Base64.decode body)) _ h4 in
      let (w, there, its) = proof_or-ok no_inclusion_proof e.verification carried in
      (
        w,
        p,
        there,
        its,
        (
          hashes,
          root,
          body,
          bytes,
          ok_or-ok bad_proof_hash (decode_hashes p.hashes) hs,
          ok_or-ok bad_root_hash (hex_decode p.root_hash) r,
          ok_or-ok body_not_string e.body b,
          ok_or-ok bad_body (Base64.decode body) d,
          passes-ok not_included _ h5,
        ),
      )

  verify_checkpoint_lem :
      (e : Entry) (v : V) (w : Verification) (p : InclusionProof) {u : Unit {0}}
      → e.verification ≡ some w
      → w.inclusion_proof ≡ some p
      → verify_checkpoint_signature c e v ≡ ok u
      → HasCheckpoint p v
  unfolding verify_checkpoint_signature
  verify_checkpoint_lem e v w p there its h =
      let (q, carried, h1) = >>=-eq-ok (proof_or c panic e.verification) _ h in
      let (sth, read, h2) =
        >>=-eq-ok (wrap bad_tree_head (unmarshal_signed_checkpoint c.fscanf q.checkpoint)) _ h1 in
      let (_, signed, h3) =
        >>=-eq-ok (guard (verify c.crypto sth.signed_note v) checkpoint_not_verified) _ h2 in
      let (root, r, h4) = >>=-eq-ok (ok_or bad_root_hash (hex_decode q.root_hash)) _ h3 in
      let (x, there2, its2) = proof_or-ok panic e.verification carried in
      let y : x ≡ w = some-injective (sym there2 ∙ there) in
      let same : q ≡ p = some-injective (sym its2 ∙ ap (λ z. z.inclusion_proof) y ∙ its) in
      subst (λ z. HasCheckpoint z v) same
        (
          sth,
          root,
          wrap-eq-ok bad_tree_head (unmarshal_signed_checkpoint c.fscanf q.checkpoint) read,
          guard-ok (verify c.crypto sth.signed_note v) checkpoint_not_verified signed,
          ok_or-ok bad_root_hash (hex_decode q.root_hash) r,
          guard-ok (c.equal_fold root sth.checkpoint.hash) root_hash_differs h4,
        )

  verify_timestamp_lem :
      (e : Entry) (v : V) (w : Verification) {u : Unit {0}}
      → e.verification ≡ some w
      → verify_signed_entry_timestamp c e v ≡ ok u
      → HasTimestamp e w v
  unfolding verify_signed_entry_timestamp
  verify_timestamp_lem e v w there h =
      let (x, carried, h1) = >>=-eq-ok (ok_or missing_verification e.verification) _ h in
      let (set, s, h2) = >>=-eq-ok (ok_or signature_missing x.signed_entry_timestamp) _ h1 in
      let (canonicalized, made, h3) =
        >>=-eq-ok (wrap bad_bundle (c.canonical_bundle (bundle_of c e))) _ h2 in
      let same : x ≡ w =
        some-injective (sym (ok_or-ok missing_verification e.verification carried) ∙ there) in
      subst (λ z. HasTimestamp e z v) same
        (
          set,
          canonicalized,
          ok_or-ok signature_missing x.signed_entry_timestamp s,
          wrap-eq-ok bad_bundle (c.canonical_bundle (bundle_of c e)) made,
          guard-ok (c.crypto.verify_signature v set canonicalized) timestamp_not_verified h3,
        )

  IsAccepted-if_verified : (e : Entry) (v : V) → verify_log_entry c e v ≡ ok tt → IsAccepted e v
  unfolding verify_log_entry
  IsAccepted-if_verified e v h =
      let (_, included, h1) = >>=-eq-ok (verify_inclusion c e) _ h in
      let (_, head, h2) = >>=-eq-ok (verify_checkpoint_signature c e v) _ h1 in
      let (w, p, there, its, inc) = verify_inclusion_lem e included in
      (
        w,
        p,
        there,
        its,
        inc,
        verify_checkpoint_lem e v w p there its head,
        verify_timestamp_lem e v w there h2,
      )

  included_if :
      (e : Entry) (w : Verification) (p : InclusionProof)
      → e.verification ≡ some w
      → w.inclusion_proof ≡ some p
      → Includes e p
      → verify_inclusion c e ≡ ok tt
  unfolding verify_inclusion
  included_if e w p there its (hashes, root, body, bytes, hs, r, b, d, proved) =
      rw (there, its, hs, r, b, d, proved) refl

  head_if :
      (e : Entry) (v : V) (w : Verification) (p : InclusionProof)
      → e.verification ≡ some w
      → w.inclusion_proof ≡ some p
      → HasCheckpoint p v
      → verify_checkpoint_signature c e v ≡ ok tt
  unfolding verify_checkpoint_signature
  head_if e v w p there its (sth, root, read, signed, r, same) =
      rw (there, its, read, signed, r, same) refl

  timestamp_if :
      (e : Entry) (v : V) (w : Verification)
      → e.verification ≡ some w
      → HasTimestamp e w v
      → verify_signed_entry_timestamp c e v ≡ ok tt
  unfolding verify_signed_entry_timestamp
  timestamp_if e v w there (set, canonicalized, s, made, signed) = rw (there, s, made, signed) refl

  -- VerifyLogEntry accepts an entry exactly if it carries a proof, verified against a root hash, that
  -- its body is in the log, a signed checkpoint whose hash bytes.EqualFold takes as that root hash, and
  -- a timestamp that signs the entry. (EqualFold is a parameter, and need not be equality.)
  pub verify_log_entry_iff : (e : Entry) (v : V) → (verify_log_entry c e v ≡ ok tt) ↔ IsAccepted e v
  unfolding verify_log_entry
  verify_log_entry_iff e v = (
    IsAccepted-if_verified e v,
    λ (w, p, there, its, inc, head, set).
        rw
          (
            included_if e w p there its inc,
            head_if e v w p there its head,
            timestamp_if e v w there set,
          )
          refl,
  )
