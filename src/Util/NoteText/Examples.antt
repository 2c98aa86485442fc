-- ===== src/Util/NoteText/Examples.antt =====
-- Notes on which the theorems about UnmarshalText of pkg/util are applied.
use rekor.Base.{
  ℕ, ◌==◌, ◌≡◌, ◌<◌, ◌≤◌, ◌≢◌, refl, ap, subst, [], ◌∷◌, ◌++◌, Option, some, ok, All, arith, drop,
  if◌then◌else◌, ok-injective, length,
}
use rekor.Base.Bytes.{Bytes, codes}
use rekor.Base.Int64.{pos}
use rekor.Golib.Base64
use rekor.Golib.Hex.{IsByte}
use rekor.Golib.Lines.{newline}
use rekor.Util.SignedNote.{Signature, note_string}
use rekor.Util.NoteText.{unmarshal_text}
use rekor.Util.NoteText.RoundTrip.{IsInk, ReadsWords, IsReadable, unmarshal_text-note_string}
use rekor.Util.NoteText.Signed.{
  IsHost, HasHints, SignsBytes, Reads, made-IsReadable, create_and_sign-Reads,
}
use rekor.Util.Examples.{
  crypto, pair_three, pair_four, hash_one, rekor_three, three_IsPrintable, signed_three, made_three,
}

-- The bytes in front of the first space, and those behind it.
abbrev word_and_rest : Bytes → Bytes × Bytes
word_and_rest [] = ([], [])
word_and_rest (c ∷ s) = let (w, r) = word_and_rest s in if c == b' ' then ([], s) else (c ∷ w, r)

-- The dash of a signature line and its space are four bytes.
abbrev pub fscanf : Bytes → Option (Bytes × Bytes)
fscanf l = some (word_and_rest (drop 4 l))

word_and_rest_lem : (w s : Bytes) → All IsInk w → word_and_rest (w ++ b' ' ∷ s) ≡ (w, s)
word_and_rest_lem [] s _ = refl
word_and_rest_lem (c ∷ w) s (h, hs) = ground (arith, word_and_rest_lem w s hs)

pub fscanf-ReadsWords : ReadsWords fscanf
fscanf-ReadsWords name sig (_, n) _ = ap some (word_and_rest_lem name sig n)

abbrev name : Bytes
name = codes "rekor"

pub name-IsHost : IsHost name
name-IsHost = (((λ e. cc), ground arith), omega arith)

pub crypto-HasHints : HasHints crypto
crypto-HasHints key h e = subst (λ x. x < 4294967296) (ok-injective e) (omega arith)

-- The signature of a signer is one byte.
pub crypto-SignsBytes : (s : ℕ) → s < 256 → SignsBytes crypto s
crypto-SignsBytes s small msg sig e =
    subst (λ t. (t ≢ []) × All IsByte t × (length t ≤ 4096)) (ok-injective e)
      ((λ q. cc), (small, tt), omega arith)

abbrev sig_three : Signature
sig_three = record { name = name; hash = 3; base64 = Base64.encode (3 ∷ []) }

three-IsReadable : IsReadable sig_three
three-IsReadable =
    made-IsReadable crypto name 3 (3 ∷ []) name-IsHost (omega arith) (λ e. cc) (omega arith, tt)
      (omega arith)

unmarshal_text-note_string_example :
    unmarshal_text fscanf
      (note_string (record { note = codes "text" ++ newline ∷ []; signatures = sig_three ∷ [] }))
    ≡ ok (record { note = codes "text" ++ newline ∷ []; signatures = sig_three ∷ [] })
unmarshal_text-note_string_example =
    unmarshal_text-note_string fscanf fscanf-ReadsWords (codes "text") sig_three []
      (three-IsReadable, tt)

create_and_sign-Reads_example : Reads crypto fscanf rekor_three 3 (note_string signed_three)
create_and_sign-Reads_example =
    create_and_sign-Reads crypto fscanf (codes "rekor") (pos 3) 7 hash_one pair_three
      (pair_four ∷ []) fscanf-ReadsWords three_IsPrintable name-IsHost crypto-HasHints
      (crypto-SignsBytes 3 (omega arith), (crypto-SignsBytes 4 (omega arith), tt)) made_three
