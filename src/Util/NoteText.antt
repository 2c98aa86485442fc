-- ===== src/Util/NoteText.antt =====
-- pkg/util/signed_note.go and checkpoint.go: UnmarshalText, and the validators. The bytes of a line
-- that fmt.Fscanf reads with the format of a signature line are a parameter.
pub mod Reading
pub mod RoundTrip
pub mod Signed
pub mod Examples
use rekor.Base.{
  ℕ, ◌+◌, ◌*◌, ◌==◌, Bool, true, false, ◌&&◌, List, [], ◌∷◌, Option, none, some, if◌then◌else◌, ltb,
  length, Result, ok, err, ◌>>=◌, wrap, is_ok,
}
use rekor.Base.Bytes.{Bytes}
use rekor.Golib.Base64
use rekor.Golib.Lines.{newline, split_lines}
use rekor.Util.Checkpoint.{Checkpoint, unmarshal_checkpoint}
use rekor.Util.Checkpoint
use rekor.Util.SignedNote.{Signature, SignedNote}
use rekor.Util.SignedCheckpoint.{SignedCheckpoint}

pub data Error : Type 0 where
  malformed_note parsing_signature decoding_signature signature_too_small no_signatures_found :
      Error

pub data CheckpointError : Type 0 where
  signed_note_invalid : Error → CheckpointError
  checkpoint_invalid : Checkpoint.Error → CheckpointError

abbrev pub starts_newline : Bytes → Bool
starts_newline [] = false
starts_newline (c ∷ s) = c == newline

abbrev pub behind : ℕ → Bytes → Option (Bytes × Bytes) → Option (Bytes × Bytes)
behind c s (some (text, rest)) = some (c ∷ text, rest)
behind c [] none = none
behind c (d ∷ s) none = if (c == newline) && (d == newline) then some (c ∷ [], s) else none

-- The text up to the first newline of the last two in a row, and what stands behind the second.
unfoldable pub split_last : Bytes → Option (Bytes × Bytes)
split_last [] = none
split_last (c ∷ s) = behind c s (split_last s)

abbrev pub ends_newline : Bytes → Bool
ends_newline [] = false
ends_newline (c ∷ []) = c == newline
ends_newline (c ∷ d ∷ s) = ends_newline (d ∷ s)

-- bufio.Scanner gives no empty line behind the last newline.
abbrev pub terminated : List Bytes → List Bytes
terminated [] = []
terminated ([] ∷ []) = []
terminated ((c ∷ l) ∷ []) = (c ∷ l) ∷ []
terminated (l ∷ m ∷ ls) = l ∷ terminated (m ∷ ls)

-- bufio.MaxScanTokenSize
abbrev pub max_scan_token_size : ℕ
max_scan_token_size = 65536

-- The scanner stops in front of a line that, with its newline, does not fit its buffer; the source
-- does not ask it for the error.
abbrev pub until_long : List Bytes → List Bytes
until_long [] = []
until_long (l ∷ ls) = if ltb (length l) max_scan_token_size then l ∷ until_long ls else []

-- bufio.ScanLines takes one carriage return off the end of a line.
abbrev pub drop_cr : Bytes → Bytes
drop_cr [] = []
drop_cr (c ∷ []) = if c == 13 then [] else c ∷ []
drop_cr (c ∷ d ∷ s) = c ∷ drop_cr (d ∷ s)

-- binary.BigEndian.Uint32
abbrev pub big_endian : ℕ → ℕ → ℕ → ℕ → ℕ
big_endian a b c d = a * 16777216 + b * 65536 + c * 256 + d

abbrev pub signature_of_bytes : Bytes → Option Bytes → Result Error Signature
signature_of_bytes name none = err decoding_signature
signature_of_bytes name (some (a ∷ b ∷ c ∷ d ∷ e ∷ sig)) =
    ok (record { name = name; hash = big_endian a b c d; base64 = Base64.encode (e ∷ sig) })
signature_of_bytes name (some _) = err signature_too_small

abbrev pub signature_of_words : Option (Bytes × Bytes) → Result Error Signature
signature_of_words none = err parsing_signature
signature_of_words (some (name, signature)) = signature_of_bytes name (Base64.decode signature)

module _ (fscanf : Bytes → Option (Bytes × Bytes)) where
  unfoldable pub read_signatures : List Bytes → Result Error (List Signature)
  read_signatures [] = ok []
  read_signatures (l ∷ ls) = do
    sig ← signature_of_words (fscanf (drop_cr l))
    sigs ← read_signatures ls
    ok (sig ∷ sigs)

  abbrev pub note_with : Bytes → List Signature → Result Error SignedNote
  note_with text [] = err no_signatures_found
  note_with text (s ∷ ss) = ok (record { note = text; signatures = s ∷ ss })

  abbrev pub from_parts : Option (Bytes × Bytes) → Result Error SignedNote
  from_parts none = err malformed_note
  from_parts (some (text, rest)) =
      if ends_newline rest
      then (read_signatures (until_long (terminated (split_lines rest))) >>= note_with text)
      else err malformed_note

  unfoldable pub unmarshal_text : Bytes → Result Error SignedNote
  unmarshal_text bytes = from_parts (split_last bytes)

  pub signed_note_validator : Bytes → Bool
  signed_note_validator s = is_ok (unmarshal_text s)

  unfoldable pub unmarshal_signed_checkpoint : Bytes → Result CheckpointError SignedCheckpoint
  unmarshal_signed_checkpoint bytes = do
    s ← wrap signed_note_invalid (unmarshal_text bytes)
    c ← wrap checkpoint_invalid (unmarshal_checkpoint s.note)
    ok (record { checkpoint = c; signed_note = s })

  pub signed_checkpoint_validator : Bytes → Bool
  signed_checkpoint_validator s = is_ok (unmarshal_signed_checkpoint s)
