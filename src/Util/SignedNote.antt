-- ===== src/Util/SignedNote.antt =====
-- pkg/util/signed_note.go: notes with signatures. A signer is a value of `S`, a verifier one of `V`;
-- their keys and signatures are of other packages. Util.NoteText has UnmarshalText.
pub mod Verifying
use rekor.Base.{
  ℕ, ◌/◌, ◌%◌, ◌==◌, Bool, true, false, List, [], ◌∷◌, ◌++◌, Option, none, some, if◌then◌else◌,
  Result, ok, err, ◌>>=◌, wrap,
}
use rekor.Base.Bytes.{Bytes, codes}
use rekor.Golib.Base64
use rekor.Golib.Lines.{newline}

-- note.Signature; the hash is a uint32.
pub record Signature : Type 0 where
  pub name : Bytes
  pub hash : ℕ
  pub base64 : Bytes

pub record SignedNote : Type 0 where
  pub note : Bytes
  pub signatures : List Signature

pub data Error (E : Type 0) : Type 0 where
  signing_note : E → Error E
  retrieving_public_key : E → Error E
  computing_key_identity : E → Error E

-- What signers and verifiers do: the key, the hint of its identity as a uint32, a signature of a
-- message, and whether a signature is one.
pub record Crypto (E S V P : Type 0) : Type 0 where
  pub sign_message : S → Bytes → Result E Bytes
  pub signer_key : S → Result E P
  pub verifier_key : V → Result E P
  pub key_hint : P → Result E ℕ
  pub verify_signature : V → Bytes → Bytes → Bool

-- binary.BigEndian.PutUint32
abbrev pub put_uint32 : ℕ → Bytes
put_uint32 n = n / 16777216 % 256 ∷ n / 65536 % 256 ∷ n / 256 % 256 ∷ n % 256 ∷ []

-- The dash of a signature line, U+2014.
abbrev pub em_dash : Bytes
em_dash = 0xe2 ∷ 0x80 ∷ 0x94 ∷ []

abbrev pub signature_line : Signature → Bytes
signature_line s =
    em_dash
    ++ b' '
      ∷ (s.name
          ++ b' '
            ∷ (Base64.encode (put_uint32 s.hash ++ Base64.decode_prefix s.base64) ++ newline ∷ []))

abbrev pub signature_lines : List Signature → Bytes
signature_lines [] = []
signature_lines (s ∷ ss) = signature_line s ++ signature_lines ss

-- String
unfoldable pub note_string : SignedNote → Bytes
note_string s = s.note ++ newline ∷ signature_lines s.signatures

module _ {E S V P : Type 0} (c : Crypto E S V P) where
  unfoldable pub get_public_key_hash : P → Result (Error E) ℕ
  get_public_key_hash key = wrap computing_key_identity (c.key_hint key)

  -- Sign adds the signature behind those that the note has.
  unfoldable pub sign : Bytes → S → SignedNote → Result (Error E) SignedNote
  sign identity signer s = do
    sig ← wrap signing_note (c.sign_message signer s.note)
    pk ← wrap retrieving_public_key (c.signer_key signer)
    pk_hash ← get_public_key_hash pk
    ok (record s {
      signatures =
          s.signatures
          ++ record { name = identity; hash = pk_hash; base64 = Base64.encode sig } ∷ [];
    })

  abbrev pub check_signature : V → Bytes → Option Bytes → Bool
  check_signature v msg none = false
  check_signature v msg (some sig) = c.verify_signature v sig msg

  -- The loop: the first signature with the hash of the verifier's key decides.
  unfoldable pub verify_from : V → Bytes → ℕ → List Signature → Bool
  verify_from v msg key_hash [] = false
  verify_from v msg key_hash (s ∷ ss) =
      if s.hash == key_hash
      then check_signature v msg (Base64.decode s.base64)
      else verify_from v msg key_hash ss

  abbrev pub verify_with : V → Bytes → List Signature → Result (Error E) ℕ → Bool
  verify_with v msg ss (err e) = false
  verify_with v msg ss (ok key_hash) = verify_from v msg key_hash ss

  -- A note without signatures has an empty loop.
  unfoldable pub verify : SignedNote → V → Bool
  verify s v =
      verify_with v s.note s.signatures
        (wrap retrieving_public_key (c.verifier_key v) >>= get_public_key_hash)

  abbrev pub all_verify : SignedNote → List V → Bool
  all_verify s [] = true
  all_verify s (v ∷ vs) = if verify s v then all_verify s vs else false

  unfoldable pub verify_all : SignedNote → List V → Bool
  verify_all s [] = false
  verify_all s (v ∷ vs) = all_verify s (v ∷ vs)
