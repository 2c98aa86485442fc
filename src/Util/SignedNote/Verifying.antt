-- ===== src/Util/SignedNote/Verifying.antt =====
-- Which notes of pkg/util/signed_note.go verify.
use rekor.Base.{
  ℕ, ◌==◌, ◌≡◌, refl, ap, ap, ◌∙◌, false, List, [], ◌∷◌, ◌++◌, ok, ◌>>=◌, wrap, All, ==_true,
}
use rekor.Base.Bytes.{Bytes}
use rekor.Golib.Base64
use rekor.Util.SignedNote.{
  Signature, Crypto, get_public_key_hash, retrieving_public_key, check_signature, verify_from,
  verify_with, verify,
}

module _ {E S V P : Type 0} (c : Crypto E S V P) where
  -- The hash of the verifier's key.
  abbrev pub KeyHash : V → ℕ → Type 0
  KeyHash v h = (wrap retrieving_public_key (c.verifier_key v) >>= get_public_key_hash c) ≡ ok h

  -- No signature of the list has the hash.
  abbrev pub IsNew : ℕ → List Signature → Type 0
  IsNew h ss = All (λ s. (s.hash == h) ≡ false) ss

  verify_from-skip :
      (v : V) (msg : Bytes) (h : ℕ) (before ss : List Signature)
      → IsNew h before
      → verify_from c v msg h (before ++ ss) ≡ verify_from c v msg h ss
  unfolding verify_from
  verify_from-skip v msg h [] ss _ = refl
  verify_from-skip v msg h (b ∷ before) ss (n, ns) = rw n (verify_from-skip v msg h before ss ns)

  verify_from-first :
      (v : V) (msg : Bytes) (h : ℕ) (s : Signature) (ss : List Signature)
      → s.hash ≡ h
      → verify_from c v msg h (s ∷ ss) ≡ check_signature c v msg (Base64.decode s.base64)
  unfolding verify_from
  verify_from-first v msg h s ss e = rw (==_true s.hash h e) refl

  -- The first signature with the hash of the verifier's key decides alone: whatever stands behind it,
  -- the note verifies exactly if it decodes and is a signature of the note.
  pub verify_decided_by_first :
      (v : V) (msg : Bytes) (h : ℕ) (before after : List Signature) (s : Signature)
      → KeyHash v h
      → IsNew h before
      → s.hash ≡ h
      → verify c (record { note = msg; signatures = before ++ s ∷ after }) v
        ≡ check_signature c v msg (Base64.decode s.base64)
  unfolding verify
  verify_decided_by_first v msg h before after s k n e =
      ap (verify_with c v msg (before ++ s ∷ after)) k
      ∙ verify_from-skip v msg h before (s ∷ after) n
      ∙ verify_from-first v msg h s after e
