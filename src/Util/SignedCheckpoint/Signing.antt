-- ===== src/Util/SignedCheckpoint/Signing.antt =====
-- The checkpoints that pkg/util/checkpoint.go signs verify, and are read back.
use rekor.Base.{
  ℕ, suc, ◌==◌, ◌≡◌, refl, ap, sym, ◌∙◌, subst, true, false, List, [], ◌∷◌, ◌++◌, ok, ◌>>=◌, wrap,
  wrap-eq-ok, >>=-eq-ok, ok-injective, All, All-append, append_assoc, append-nil,
}
use rekor.Base.Bytes.{Bytes}
use rekor.Base.Int64.{ℤ}
use rekor.Golib.Base64
use rekor.Golib.Base64.RoundTrip.{decode-encode}
use rekor.Golib.Hex.{IsByte}
use rekor.Golib.Lines.{newline}
use rekor.Util.Checkpoint.{marshal_checkpoint, unmarshal_checkpoint}
use rekor.Util.Checkpoint.RoundTrip.{IsPrintable, unmarshal-marshal}
use rekor.Util.SignedNote.{
  Signature, SignedNote, Crypto, get_public_key_hash, retrieving_public_key, signing_note, sign,
  check_signature, all_verify, verify_all, note_string, signature_lines,
}
use rekor.Util.SignedNote.Verifying.{KeyHash, IsNew, verify_decided_by_first}
use rekor.Util.SignedCheckpoint.{
  signing_checkpoint, create_signed_checkpoint, checkpoint_of, sign_all,
  create_and_sign_checkpoint_multiple,
}

module _ {E S V P : Type 0} (c : Crypto E S V P) where
  -- A signer and a verifier of one key, and the hash of the key.
  pub record Pair : Type 0 where
    pub signer : S
    pub verifier : V
    pub hint : ℕ
    pub signer_hint :
        (wrap retrieving_public_key (c.signer_key signer) >>= get_public_key_hash c) ≡ ok hint
    pub verifier_hint : KeyHash c verifier hint
    pub correct :
        (msg sig : Bytes)
        → c.sign_message signer msg ≡ ok sig
        → All IsByte sig × (c.verify_signature verifier sig msg ≡ true)

  abbrev pub signers_of : List Pair → List S
  signers_of [] = []
  signers_of (p ∷ ps) = p.signer ∷ signers_of ps

  abbrev pub verifiers_of : List Pair → List V
  verifiers_of [] = []
  verifiers_of (p ∷ ps) = p.verifier ∷ verifiers_of ps

  -- The hashes of the keys differ.
  abbrev pub AreDistinct : List Pair → Type 0
  AreDistinct [] = Unit
  AreDistinct (p ∷ ps) = All (λ q. (p.hint == q.hint) ≡ false) ps × AreDistinct ps

  -- One signature for each pair, which has the hash and is right.
  abbrev pub Signed : Bytes → List Pair → List Signature → Type 0
  Signed msg [] [] = Unit
  Signed msg (p ∷ ps) (s ∷ ss) =
      (s.hash ≡ p.hint)
      × (check_signature c p.verifier msg (Base64.decode s.base64) ≡ true)
      × Signed msg ps ss
  Signed msg _ _ = ⊥

  sign_lem :
      (identity : Bytes) (p : Pair) (n m : SignedNote)
      → sign c identity p.signer n ≡ ok m
      → (s : Signature) × (m ≡ record { note = n.note; signatures = n.signatures ++ s ∷ [] })
        × (s.hash ≡ p.hint)
        × (check_signature c p.verifier n.note (Base64.decode s.base64) ≡ true)
  unfolding sign
  sign_lem identity p n m e =
      let (sig, e1, e2) = >>=-eq-ok (wrap signing_note (c.sign_message p.signer n.note)) _ e in
      let (pk, e3, e4) = >>=-eq-ok (wrap retrieving_public_key (c.signer_key p.signer)) _ e2 in
      let (h, e5, e6) = >>=-eq-ok (get_public_key_hash c pk) _ e4 in
      let same : h ≡ p.hint =
        ok-injective (sym e5 ∙ sym (ap (λ r. r >>= get_public_key_hash c) e3) ∙ p.signer_hint) in
      let (bytes, right) = p.correct n.note sig (wrap-eq-ok signing_note _ e1) in
      (
        record { name = identity; hash = h; base64 = Base64.encode sig },
        sym (ok-injective e6),
        same,
        ap (check_signature c p.verifier n.note) (decode-encode sig bytes) ∙ right,
      )

  pub sign_all_lem :
      (identity : Bytes) (i : ℕ) (ps : List Pair) (n m : SignedNote)
      → sign_all c identity i (signers_of ps) n ≡ ok m
      → (ss : List Signature) × (m ≡ record { note = n.note; signatures = n.signatures ++ ss })
        × Signed n.note ps ss
  unfolding sign_all
  sign_all_lem identity i [] n m e = (
    [],
    sym (ok-injective e)
        ∙ ap (λ t. record { note = n.note; signatures = t }) (sym (append-nil n.signatures)),
    tt,
  )
  sign_all_lem identity i (p ∷ ps) n m e =
      let (k, first, others) =
        >>=-eq-ok (wrap (signing_checkpoint i) (sign c identity p.signer n)) _ e in
      let (s, is, h, right) = sign_lem identity p n k (wrap-eq-ok (signing_checkpoint i) _ first) in
      let next : SignedNote = record { note = n.note; signatures = n.signatures ++ s ∷ [] } in
      let (ss, q, signed) =
        sign_all_lem identity (suc i) ps next m
          (subst (λ x. sign_all c identity (suc i) (signers_of ps) x ≡ ok m) is others) in
      (
        s ∷ ss,
        q
            ∙ ap (λ t. record { note = n.note; signatures = t })
                (append_assoc n.signatures (s ∷ []) ss),
        (h, right, signed),
      )

  IsNew-behind :
      (p : Pair) (ps : List Pair) (before : List Signature) (s : Signature)
      → s.hash ≡ p.hint
      → All (λ q. (p.hint == q.hint) ≡ false) ps
      → All (λ q. IsNew c q.hint before) ps
      → All (λ q. IsNew c q.hint (before ++ s ∷ [])) ps
  IsNew-behind p [] before s e d n = tt
  IsNew-behind p (q ∷ ps) before s e (d, ds) (n, ns) = (
    All-append (λ x. (x.hash == q.hint) ≡ false) before (s ∷ []) n
        (subst (λ x. (x == q.hint) ≡ false) (sym e) d, tt),
    IsNew-behind p ps before s e ds ns,
  )

  all_verify_lem :
      (msg : Bytes) (ps : List Pair) (before ss : List Signature)
      → AreDistinct ps
      → All (λ q. IsNew c q.hint before) ps
      → Signed msg ps ss
      → all_verify c (record { note = msg; signatures = before ++ ss }) (verifiers_of ps) ≡ true
  all_verify_lem msg [] before ss d n h = refl
  all_verify_lem msg (p ∷ ps) before [] d n h = absurd h
  all_verify_lem msg (p ∷ ps) before (s ∷ ss) (d, ds) (n, ns) (e, right, signed) =
      rw (verify_decided_by_first c p.verifier msg p.hint before ss s p.verifier_hint n e ∙ right) (
        subst (λ t. all_verify c (record { note = msg; signatures = t }) (verifiers_of ps) ≡ true)
          (append_assoc before (s ∷ []) ss)
          (all_verify_lem msg ps (before ++ s ∷ []) ss ds (IsNew-behind p ps before s e d ns)
            signed))

  none_before : (ps : List Pair) → All (λ q. IsNew c q.hint []) ps
  none_before [] = tt
  none_before (p ∷ ps) = (tt, none_before ps)

  verify_all_lem :
      (n : SignedNote) (p : Pair) (ps : List Pair)
      → all_verify c n (verifiers_of (p ∷ ps)) ≡ true
      → verify_all c n (verifiers_of (p ∷ ps)) ≡ true
  unfolding verify_all
  verify_all_lem n p ps h = h

  -- A checkpoint signed by one signer at least is the text of a note on which the verifiers of all the
  -- signers agree, where their keys differ in their hashes and each verifier takes the signatures of
  -- its signer.
  pub create_and_sign-verify_all :
      (hostname : Bytes) (tree_id : ℤ) (tree_size : ℕ) (root_hash : Bytes) (p : Pair)
      (ps : List Pair) {text : Bytes}
      → AreDistinct (p ∷ ps)
      → create_and_sign_checkpoint_multiple c hostname tree_id tree_size root_hash
          (signers_of (p ∷ ps))
        ≡ ok text
      → (n : SignedNote) × (text ≡ note_string n)
        × (n.note ≡ marshal_checkpoint (checkpoint_of hostname tree_id tree_size root_hash))
        × (verify_all c n (verifiers_of (p ∷ ps)) ≡ true)
  unfolding create_and_sign_checkpoint_multiple create_signed_checkpoint
  create_and_sign-verify_all hostname tree_id tree_size root_hash p ps d e =
      let msg = marshal_checkpoint (checkpoint_of hostname tree_id tree_size root_hash) in
      let unsigned : SignedNote = record { note = msg; signatures = [] } in
      let (n, made, is) = >>=-eq-ok (sign_all c hostname 0 (signers_of (p ∷ ps)) unsigned) _ e in
      let (ss, q, signed) = sign_all_lem hostname 0 (p ∷ ps) unsigned n made in
      let v = all_verify_lem msg (p ∷ ps) [] ss d (none_before (p ∷ ps)) signed in
      (
        n,
        sym (ok-injective is),
        ap (λ x. x.note) q,
        verify_all_lem n p ps
            (subst (λ x. all_verify c x (verifiers_of (p ∷ ps)) ≡ true) (sym q) v),
      )

  sign-note :
      (identity : Bytes) (s : S) (n m : SignedNote) → sign c identity s n ≡ ok m → m.note ≡ n.note
  unfolding sign
  sign-note identity s n m e =
      let (sig, _, e2) = >>=-eq-ok (wrap signing_note (c.sign_message s n.note)) _ e in
      let (pk, _, e4) = >>=-eq-ok (wrap retrieving_public_key (c.signer_key s)) _ e2 in
      let (h, _, e6) = >>=-eq-ok (get_public_key_hash c pk) _ e4 in
      sym (ap (λ x. x.note) (ok-injective e6))

  sign_all-note :
      (identity : Bytes) (i : ℕ) (ss : List S) (n m : SignedNote)
      → sign_all c identity i ss n ≡ ok m
      → m.note ≡ n.note
  unfolding sign_all
  sign_all-note identity i [] n m e = sym (ap (λ x. x.note) (ok-injective e))
  sign_all-note identity i (s ∷ ss) n m e =
      let (k, first, others) = >>=-eq-ok (wrap (signing_checkpoint i) (sign c identity s n)) _ e in
      sign_all-note identity (suc i) ss k m others
      ∙ sign-note identity s n k (wrap-eq-ok (signing_checkpoint i) _ first)

  -- Whoever signs it, the text of a checkpoint is read back as the checkpoint that was signed, where
  -- that can be printed.
  pub create_and_sign-unmarshal :
      (hostname : Bytes) (tree_id : ℤ) (tree_size : ℕ) (root_hash : Bytes) (signers : List S)
      {text : Bytes}
      → IsPrintable (checkpoint_of hostname tree_id tree_size root_hash)
      → create_and_sign_checkpoint_multiple c hostname tree_id tree_size root_hash signers ≡ ok text
      → unmarshal_checkpoint text ≡ ok (checkpoint_of hostname tree_id tree_size root_hash)
  unfolding create_and_sign_checkpoint_multiple create_signed_checkpoint note_string
  create_and_sign-unmarshal hostname tree_id tree_size root_hash [] h e = cc
  create_and_sign-unmarshal hostname tree_id tree_size root_hash (s ∷ ss) h e =
      let cp = checkpoint_of hostname tree_id tree_size root_hash in
      let unsigned : SignedNote = record { note = marshal_checkpoint cp; signatures = [] } in
      let (n, made, is) = >>=-eq-ok (sign_all c hostname 0 (s ∷ ss) unsigned) _ e in
      let same = sign_all-note hostname 0 (s ∷ ss) unsigned n made in
      subst (λ t. unmarshal_checkpoint t ≡ ok cp)
        (ap (λ t. t ++ newline ∷ signature_lines n.signatures) (sym same) ∙ ok-injective is)
        (unmarshal-marshal cp (signature_lines n.signatures) h).1
