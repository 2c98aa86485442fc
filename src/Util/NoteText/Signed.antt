-- ===== src/Util/NoteText/Signed.antt =====
-- A checkpoint that pkg/util/checkpoint.go signs, read by UnmarshalText and verified.
use rekor.Base.{
  Option, ℕ, suc, ◌*◌, ◌^◌, ◌≤◌, ◌<◌, ◌≡◌, ◌≢◌, refl, ap, sym, ◌∙◌, subst, true, List, [], ◌∷◌,
  ◌++◌, ok, ◌>>=◌, wrap, wrap-eq-ok, >>=-eq-ok, ok-injective, length, length-append, All,
  All-append, arith,
}
use rekor.Base.Bytes.{Bytes}
use rekor.Base.Int64.{ℤ}
use rekor.Golib.Base64
use rekor.Golib.Base64.RoundTrip.{decode_prefix-encode}
use rekor.Golib.Hex.{IsByte}
use rekor.Golib.Lines.{newline, join-ends}
use rekor.Golib.Num.{format_uint}
use rekor.Util.Checkpoint.{Checkpoint, marshal_checkpoint, unmarshal_checkpoint}
use rekor.Util.Checkpoint.RoundTrip.{IsPrintable, unmarshal-marshal}
use rekor.Util.SignedNote.{
  Signature, SignedNote, Crypto, put_uint32, get_public_key_hash, retrieving_public_key,
  computing_key_identity, signing_note, sign, verify, note_string, check_signature,
}
use rekor.Util.SignedNote.Verifying.{verify_decided_by_first}
use rekor.Util.SignedCheckpoint.{
  SignedCheckpoint, signing_checkpoint, checkpoint_of, sign_all, create_signed_checkpoint,
  create_and_sign_checkpoint_multiple,
}
use rekor.Util.SignedCheckpoint.Signing.{Pair, signers_of, Signed, sign_all_lem}
use rekor.Util.NoteText.{
  signed_note_invalid, checkpoint_invalid, unmarshal_text, unmarshal_signed_checkpoint,
  max_scan_token_size,
}
use rekor.Util.NoteText.RoundTrip.{
  IsWord, line_of, ReadsWords, IsReadable, unmarshal_text-note_string,
}

encode-length : (s : Bytes) → length (Base64.encode s) ≤ 4 * length s
unfolding Base64.encode
encode-length [] = omega arith
encode-length (a ∷ []) = omega arith
encode-length (a ∷ b ∷ []) = omega arith
encode-length (a ∷ b ∷ c ∷ s) = omega (arith, encode-length s)

marshal-ends : (cp : Checkpoint) → (t : Bytes) × (marshal_checkpoint cp ≡ t ++ newline ∷ [])
unfolding marshal_checkpoint
marshal-ends cp =
    join-ends cp.origin (format_uint 10 cp.size ∷ Base64.encode cp.hash ∷ cp.other_content)

-- The name of a host, which is a word of at most 255 bytes.
abbrev pub IsHost : Bytes → Type 0
IsHost name = IsWord name × (length name ≤ 255)

module _ {E S V P : Type 0} (c : Crypto E S V P) where
  -- The hint of a key is a uint32, and a signature is some bytes, at most 4096.
  abbrev pub HasHints : Type 0
  HasHints = (key : P) (h : ℕ) → c.key_hint key ≡ ok h → h < 2 ^ 32

  abbrev pub SignsBytes : S → Type 0
  SignsBytes signer =
      (msg sig : Bytes)
      → c.sign_message signer msg ≡ ok sig
      → (sig ≢ []) × All IsByte sig × (length sig ≤ 4096)

  line_length :
      (name : Bytes) (h : ℕ) (sig : Bytes)
      → length name ≤ 255
      → length sig ≤ 4096
      → length (line_of name (Base64.encode (put_uint32 h ++ sig))) < max_scan_token_size
  line_length name h sig n s = omega (
    arith,
    n,
    s,
    length-append name (b' ' ∷ Base64.encode (put_uint32 h ++ sig)),
    encode-length (put_uint32 h ++ sig),
  )

  pub made-IsReadable :
      (name : Bytes) (h : ℕ) (sig : Bytes)
      → IsHost name
      → h < 2 ^ 32
      → sig ≢ []
      → All IsByte sig
      → length sig ≤ 4096
      → IsReadable (record { name = name; hash = h; base64 = Base64.encode sig })
  made-IsReadable name h sig (word, short) fits some_bytes are len = record {
    name_word = word;
    bytes = sig;
    bytes_some = some_bytes;
    are_bytes = are;
    base64_of = refl;
    hash_fits = fits;
    line_short =
        subst (λ t. length (line_of name (Base64.encode (put_uint32 h ++ t))) < max_scan_token_size)
          (sym (decode_prefix-encode sig are)) (line_length name h sig short len);
  }

  sign-IsReadable :
      (name : Bytes) (s : S) (n m : SignedNote)
      → IsHost name
      → HasHints
      → SignsBytes s
      → sign c name s n ≡ ok m
      → All IsReadable n.signatures
      → All IsReadable m.signatures
  unfolding sign get_public_key_hash
  sign-IsReadable name s n m host hints signs e before =
      let (sig, e1, e2) = >>=-eq-ok (wrap signing_note (c.sign_message s n.note)) _ e in
      let (pk, _, e4) = >>=-eq-ok (wrap retrieving_public_key (c.signer_key s)) _ e2 in
      let (h, e5, e6) = >>=-eq-ok (get_public_key_hash c pk) _ e4 in
      let (some_bytes, are, len) = signs n.note sig (wrap-eq-ok signing_note _ e1) in
      let fits = hints pk h (wrap-eq-ok computing_key_identity (c.key_hint pk) e5) in
      let made : Signature = record { name = name; hash = h; base64 = Base64.encode sig } in
      subst (λ x. All IsReadable x.signatures) (ok-injective e6)
        (All-append IsReadable n.signatures (made ∷ []) before
          (made-IsReadable name h sig host fits some_bytes are len, tt))

  sign_all-IsReadable :
      (name : Bytes) (i : ℕ) (ss : List S) (n m : SignedNote)
      → IsHost name
      → HasHints
      → All SignsBytes ss
      → sign_all c name i ss n ≡ ok m
      → All IsReadable n.signatures
      → All IsReadable m.signatures
  unfolding sign_all
  sign_all-IsReadable name i [] n m host hints _ e before =
      subst (λ x. All IsReadable x.signatures) (ok-injective e) before
  sign_all-IsReadable name i (s ∷ ss) n m host hints (signs, others) e before =
      let (k, first, rest) = >>=-eq-ok (wrap (signing_checkpoint i) (sign c name s n)) _ e in
      sign_all-IsReadable name (suc i) ss k m host hints others rest (
        sign-IsReadable name s n k host hints signs (wrap-eq-ok (signing_checkpoint i) _ first)
          before)

  -- What a client finds in the text: the checkpoint, in a note that the verifier takes.
  abbrev pub Reads : (Bytes → Option (Bytes × Bytes)) → Checkpoint → V → Bytes → Type 0
  Reads fscanf cp v text =
      (sth : SignedCheckpoint) × (unmarshal_signed_checkpoint fscanf text ≡ ok sth)
      × (sth.checkpoint ≡ cp)
      × (verify c sth.signed_note v ≡ true)

  read_text :
      (fscanf : Bytes → Option (Bytes × Bytes)) (cp : Checkpoint) (s : Signature)
      (ss : List Signature)
      → ReadsWords fscanf
      → IsPrintable cp
      → All IsReadable (s ∷ ss)
      → unmarshal_signed_checkpoint fscanf
          (note_string (record { note = marshal_checkpoint cp; signatures = s ∷ ss }))
        ≡ ok (record {
          checkpoint = cp;
          signed_note = record { note = marshal_checkpoint cp; signatures = s ∷ ss };
        })
  unfolding unmarshal_signed_checkpoint
  read_text fscanf cp s ss reads printable readable =
      let (t, ends) = marshal-ends cp in
      ap
        (λ r. wrap signed_note_invalid r >>= λ n.
          wrap checkpoint_invalid (unmarshal_checkpoint n.note) >>= λ k.
          ok (record { checkpoint = k; signed_note = n }))
        (subst
          (λ m.
            unmarshal_text fscanf (note_string (record { note = m; signatures = s ∷ ss }))
            ≡ ok (record { note = m; signatures = s ∷ ss }))
          (sym ends) (unmarshal_text-note_string fscanf reads t s ss readable))
      ∙ ap
          (λ r. wrap checkpoint_invalid r >>= λ k. ok (record {
            checkpoint = k;
            signed_note = record { note = marshal_checkpoint cp; signatures = s ∷ ss };
          }))
          (unmarshal-marshal cp [] printable).0

  read_note :
      (fscanf : Bytes → Option (Bytes × Bytes)) (cp : Checkpoint) (p : Pair c) (s : Signature)
      (ss : List Signature)
      → ReadsWords fscanf
      → IsPrintable cp
      → All IsReadable (s ∷ ss)
      → s.hash ≡ p.hint
      → check_signature c p.verifier (marshal_checkpoint cp) (Base64.decode s.base64) ≡ true
      → Reads fscanf cp p.verifier
          (note_string (record { note = marshal_checkpoint cp; signatures = s ∷ ss }))
  read_note fscanf cp p s ss reads printable readable same right =
      let note : SignedNote = record { note = marshal_checkpoint cp; signatures = s ∷ ss } in
      (
        record { checkpoint = cp; signed_note = note },
        read_text fscanf cp s ss reads printable readable,
        refl,
        verify_decided_by_first c p.verifier (marshal_checkpoint cp) p.hint [] ss s p.verifier_hint
              tt same
            ∙ right,
      )

  Signed-Reads :
      (fscanf : Bytes → Option (Bytes × Bytes)) (cp : Checkpoint) (p : Pair c) (n : SignedNote)
      (ss : List Signature) (ps : List (Pair c))
      → ReadsWords fscanf
      → IsPrintable cp
      → n ≡ record { note = marshal_checkpoint cp; signatures = ss }
      → All IsReadable n.signatures
      → Signed c (marshal_checkpoint cp) (p ∷ ps) ss
      → Reads fscanf cp p.verifier (note_string n)
  Signed-Reads fscanf cp p n [] ps reads printable is readable h = absurd h
  Signed-Reads fscanf cp p n (s ∷ ss) ps reads printable is readable (same, right, _) =
      subst (λ x. Reads fscanf cp p.verifier (note_string x)) (sym is)
        (read_note fscanf cp p s ss reads printable
          (subst (λ x. All IsReadable x.signatures) is readable) same right)

  -- What CreateAndSignCheckpointMultiple signs, UnmarshalText of a checkpoint reads back, with a note
  -- that the verifier of the first signer takes: where the checkpoint can be printed, the hostname is a
  -- word of at most 255 bytes, every signer gives some bytes, at most 4096, and hints are uint32.
  pub create_and_sign-Reads :
      (fscanf : Bytes → Option (Bytes × Bytes)) (hostname : Bytes) (tree_id : ℤ) (tree_size : ℕ)
      (root_hash : Bytes) (p : Pair c) (ps : List (Pair c)) {text : Bytes}
      → ReadsWords fscanf
      → IsPrintable (checkpoint_of hostname tree_id tree_size root_hash)
      → IsHost hostname
      → HasHints
      → All SignsBytes (signers_of c (p ∷ ps))
      → create_and_sign_checkpoint_multiple c hostname tree_id tree_size root_hash
          (signers_of c (p ∷ ps))
        ≡ ok text
      → Reads fscanf (checkpoint_of hostname tree_id tree_size root_hash) p.verifier text
  unfolding create_and_sign_checkpoint_multiple create_signed_checkpoint
  create_and_sign-Reads fscanf hostname tree_id tree_size root_hash p ps reads printable host hints
        signs e =
      let cp = checkpoint_of hostname tree_id tree_size root_hash in
      let unsigned : SignedNote = record { note = marshal_checkpoint cp; signatures = [] } in
      let all = signers_of c (p ∷ ps) in
      let (n, made, is) = >>=-eq-ok (sign_all c hostname 0 all unsigned) _ e in
      let (ss, q, signed) = sign_all_lem c hostname 0 (p ∷ ps) unsigned n made in
      subst (Reads fscanf cp p.verifier) (ok-injective is) (
        Signed-Reads fscanf cp p n ss ps reads printable q
          (sign_all-IsReadable hostname 0 all unsigned n host hints signs made tt) signed)
