-- ===== src/Util/SignedCheckpoint.antt =====
-- pkg/util/checkpoint.go: checkpoints that are signed notes. Util.NoteText has UnmarshalText.
pub mod Signing
use rekor.Base.{ℕ, zero, suc, List, [], ◌∷◌, ◌++◌, Result, ok, err, ◌>>=◌, wrap}
use rekor.Base.Bytes.{Bytes, codes}
use rekor.Base.Int64.{ℤ}
use rekor.Golib.Num.{format_int}
use rekor.Util.Checkpoint.{Checkpoint, marshal_checkpoint}
use rekor.Util.SignedNote.{SignedNote, Crypto, sign, note_string}
use rekor.Util.SignedNote

pub record SignedCheckpoint : Type 0 where
  pub checkpoint : Checkpoint
  pub signed_note : SignedNote

pub data Error (E : Type 0) : Type 0 where
  no_signers : Error E
  signing_checkpoint : ℕ → SignedNote.Error E → Error E

unfoldable pub create_signed_checkpoint : Checkpoint → SignedCheckpoint
create_signed_checkpoint c = record {
  checkpoint = c;
  signed_note = record { note = marshal_checkpoint c; signatures = [] };
}

-- The checkpoint of a tree: its origin is "hostname - tree id".
abbrev pub checkpoint_of : Bytes → ℤ → ℕ → Bytes → Checkpoint
checkpoint_of hostname tree_id tree_size root_hash = record {
  origin = hostname ++ (codes " - " ++ format_int 10 tree_id);
  size = tree_size;
  hash = root_hash;
  other_content = [];
}

module _ {E S V P : Type 0} (c : Crypto E S V P) where
  -- The signers from the place `i` on.
  unfoldable pub sign_all : Bytes → ℕ → List S → SignedNote → Result (Error E) SignedNote
  sign_all identity i [] n = ok n
  sign_all identity i (s ∷ ss) n =
      wrap (signing_checkpoint i) (sign c identity s n) >>= sign_all identity (suc i) ss

  abbrev pub signed_by : Bytes → SignedCheckpoint → List S → Result (Error E) Bytes
  signed_by hostname sth ss = sign_all hostname 0 ss sth.signed_note >>= λ n. ok (note_string n)

  unfoldable pub create_and_sign_checkpoint : Bytes → ℤ → ℕ → Bytes → S → Result (Error E) Bytes
  create_and_sign_checkpoint hostname tree_id tree_size root_hash signer = do
    n ← wrap (signing_checkpoint 0) (
        sign c hostname signer
          (create_signed_checkpoint
            (checkpoint_of hostname tree_id tree_size root_hash)).signed_note)
    ok (note_string n)

  unfoldable pub create_and_sign_checkpoint_multiple :
      Bytes → ℤ → ℕ → Bytes → List S → Result (Error E) Bytes
  create_and_sign_checkpoint_multiple hostname tree_id tree_size root_hash [] = err no_signers
  create_and_sign_checkpoint_multiple hostname tree_id tree_size root_hash (s ∷ ss) =
      signed_by hostname
        (create_signed_checkpoint (checkpoint_of hostname tree_id tree_size root_hash)) (s ∷ ss)
