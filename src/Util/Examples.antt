-- ===== src/Util/Examples.antt =====
-- Checkpoints, notes and digests on which the theorems about pkg/util are applied.
use rekor.Base.{
  ℕ, ◌<◌, ◌%◌, ap, ◌≡◌, refl, subst, [], ◌∷◌, ◌++◌, true, Result, ok, All, arith, ok-injective,
}
use rekor.Base.Bytes.{Bytes, bytes_eq, bytes_eq_refl, codes}
use rekor.Base.Int64.{pos}
use rekor.Golib.Base64
use rekor.Golib.Base64.{encode}
use rekor.Golib.Hex.{IsByte}
use rekor.Golib.Lines.{newline}
use rekor.Golib.Num.{format_int, format_uint, digits}
use rekor.Util.Checkpoint.{Checkpoint, marshal_checkpoint, unmarshal_checkpoint}
use rekor.Util.Checkpoint.RoundTrip.{IsPrintable, unmarshal-marshal}
use rekor.Util.SignedNote.{
  Signature, SignedNote, Crypto, get_public_key_hash, note_string, verify, verify_all,
  check_signature, sign,
}
use rekor.Util.SignedNote.Verifying.{verify_decided_by_first}
use rekor.Util.SignedCheckpoint.{
  checkpoint_of, create_and_sign_checkpoint_multiple, create_signed_checkpoint, sign_all,
}
use rekor.Util.SignedCheckpoint.Signing.{Pair, create_and_sign-verify_all}

-- A signer is a number below 256, which is its key, its hint, and its signature of every message;
-- a larger key has the hint of its last byte.
abbrev pub crypto : Crypto ℕ ℕ ℕ ℕ
crypto = record {
  sign_message = λ s _. ok (s ∷ []);
  signer_key = λ s. ok s;
  verifier_key = λ v. ok v;
  key_hint = λ p. ok (p % 256);
  verify_signature = λ v sig _. bytes_eq sig (v ∷ []);
}

pub hint_itself : (n : ℕ) → n < 256 → get_public_key_hash crypto n ≡ ok n
unfolding get_public_key_hash
hint_itself n h = ap ok (omega (arith, h))

-- The one byte of a signature is that of the verifier.
pub right_signature :
    (s : ℕ)
    → s < 256
    → (msg sig : Bytes) → ◌≡◌ {A = Result ℕ Bytes} (ok (s ∷ [])) (ok sig)
    → All IsByte sig × (bytes_eq sig (s ∷ []) ≡ true)
right_signature s h msg sig e =
    subst (λ t. All IsByte t × (bytes_eq t (s ∷ []) ≡ true)) (ok-injective e)
      ((h, tt), bytes_eq_refl (s ∷ []))

-- The signer with this number, and its verifier.
abbrev pub pair : (s : ℕ) → s < 256 → Pair crypto
pair s h = record {
  signer = s;
  verifier = s;
  hint = s;
  signer_hint = hint_itself s h;
  verifier_hint = hint_itself s h;
  correct = right_signature s h;
}

abbrev pub pair_three : Pair crypto
pair_three = pair 3 (omega arith)

abbrev pub pair_four : Pair crypto
pair_four = pair 4 (omega arith)

abbrev pub hash_one : Bytes
hash_one = 1 ∷ 2 ∷ 3 ∷ []

abbrev pub rekor_three : Checkpoint
rekor_three = checkpoint_of (codes "rekor") (pos 3) 7 hash_one

-- What the two signers make of the checkpoint.
abbrev pub signed_three : SignedNote
signed_three = record {
  note = marshal_checkpoint rekor_three;
  signatures =
      record { name = codes "rekor"; hash = 3; base64 = encode (3 ∷ []) }
      ∷ record { name = codes "rekor"; hash = 4; base64 = encode (4 ∷ []) }
      ∷ [];
}

pub made_three :
    create_and_sign_checkpoint_multiple crypto (codes "rekor") (pos 3) 7 hash_one (3 ∷ 4 ∷ [])
    ≡ ok (note_string signed_three)
unfolding create_and_sign_checkpoint_multiple create_signed_checkpoint sign_all sign
    get_public_key_hash
made_three = refl

create_and_sign-verify_all_example :
    (n : SignedNote) × (note_string signed_three ≡ note_string n)
    × (n.note ≡ marshal_checkpoint rekor_three)
    × (verify_all crypto n (3 ∷ 4 ∷ []) ≡ true)
create_and_sign-verify_all_example =
    create_and_sign-verify_all crypto (codes "rekor") (pos 3) 7 hash_one pair_three (pair_four ∷ [])
      ((refl, tt), (tt, tt)) made_three

pub three_IsPrintable : IsPrintable rekor_three
unfolding format_int format_uint digits
three_IsPrintable = record {
  origin_full = (λ e. cc, ground arith);
  size_fits = omega arith;
  hash_bytes = ground arith;
  others_full = tt;
}

unmarshal-marshal_example :
    (unmarshal_checkpoint (marshal_checkpoint rekor_three) ≡ ok rekor_three)
    × (unmarshal_checkpoint (marshal_checkpoint rekor_three ++ newline ∷ codes "signatures")
        ≡ ok rekor_three)
unmarshal-marshal_example = unmarshal-marshal rekor_three (codes "signatures") three_IsPrintable

-- A signature with the hash of the key that is not a signature of the note, before one that is.
abbrev wrong_four : Signature
wrong_four = record { name = []; hash = 4; base64 = encode (9 ∷ []) }

abbrev right_sig : Signature
right_sig = record { name = []; hash = 4; base64 = encode (4 ∷ []) }

verify_decided_by_first_example :
    verify crypto (record { note = hash_one; signatures = [] ++ wrong_four ∷ right_sig ∷ [] }) 4
    ≡ check_signature crypto 4 hash_one (Base64.decode wrong_four.base64)
verify_decided_by_first_example =
    verify_decided_by_first crypto 4 hash_one 4 [] (right_sig ∷ []) wrong_four
      (hint_itself 4 (omega arith)) tt refl
