-- ===== src/Util/NoteText/RoundTrip.antt =====
-- A note of pkg/util/signed_note.go, printed by String and read by UnmarshalText.
use rekor.Base.{
  ℕ, ◌/◌, ◌%◌, ◌^◌, ◌≤◌, ◌<◌, ◌==◌, ◌≡◌, ◌≢◌, refl, ap, sym, ◌∙◌, subst, false, List, [], ◌∷◌, ◌++◌,
  Option, some, map, if◌then◌else◌, ok, err, ◌>>=◌, All, All-map, All-append, arith, append_assoc,
}
use rekor.Base.Bytes.{Bytes}
use rekor.Golib.Base64
use rekor.Golib.Base64.{char_of}
use rekor.Golib.Base64.RoundTrip.{decode-encode, decode_prefix-encode, encode-All}
use rekor.Golib.Hex.{IsByte}
use rekor.Golib.Lines.{newline, split_lines, join_lines}
use rekor.Util.Checkpoint.RoundTrip.{IsFull}
use rekor.Util.SignedNote.{
  Signature, put_uint32, em_dash, signature_line, signature_lines, note_string,
}
use rekor.Util.NoteText.{
  malformed_note, drop_cr, big_endian, signature_of_bytes, signature_of_words, read_signatures,
  note_with, from_parts, unmarshal_text, split_last, until_long, terminated,
}
use rekor.Util.NoteText.Reading.{split_last-lines, ends-join, IsShort, scanned-join, drop_cr_none}

-- A printing character of ASCII that is no space.
abbrev pub IsInk : ℕ → Type 0
IsInk c = (33 ≤ c) × (c < 127)

abbrev pub IsWord : Bytes → Type 0
IsWord w = (w ≢ []) × All IsInk w

-- A signature line without its newline.
abbrev pub line_of : Bytes → Bytes → Bytes
line_of name sig = em_dash ++ b' ' ∷ (name ++ b' ' ∷ sig)

-- What fmt.Fscanf does with "\u2014 %s %s\n": two words are read back.
abbrev pub ReadsWords : (Bytes → Option (Bytes × Bytes)) → Type 0
ReadsWords fscanf =
    (name sig : Bytes) → IsWord name → IsWord sig → fscanf (line_of name sig) ≡ some (name, sig)

-- The text of a signature, which has the hash in front of its bytes.
abbrev pub encoded : Signature → Bytes
encoded s = Base64.encode (put_uint32 s.hash ++ Base64.decode_prefix s.base64)

-- A signature of some bytes, with a word for its name, on a line that is not too long.
pub record IsReadable (s : Signature) : Type 0 where
  pub name_word : IsWord s.name
  pub bytes : Bytes
  pub bytes_some : bytes ≢ []
  pub are_bytes : All IsByte bytes
  pub base64_of : s.base64 ≡ Base64.encode bytes
  pub hash_fits : s.hash < 2 ^ 32
  pub line_short : IsShort (line_of s.name (encoded s))

abbrev lines_of : List Signature → List Bytes
lines_of ss = map (λ s. line_of s.name (encoded s)) ss

signature_lines-join : (ss : List Signature) → signature_lines ss ≡ join_lines (lines_of ss)
signature_lines-join [] = refl
signature_lines-join (s ∷ ss) =
    ap (λ t. signature_line s ++ t) (signature_lines-join ss)
    ∙ ap (λ t. em_dash ++ b' ' ∷ t)
        (append_assoc s.name (b' ' ∷ (encoded s ++ newline ∷ [])) (join_lines (lines_of ss))
          ∙ ap (λ t. s.name ++ b' ' ∷ t)
              (append_assoc (encoded s) (newline ∷ []) (join_lines (lines_of ss)))
          ∙ sym (append_assoc s.name (b' ' ∷ encoded s) (newline ∷ join_lines (lines_of ss))))

put_uint32-bytes : (n : ℕ) → All IsByte (put_uint32 n)
put_uint32-bytes n = (omega arith, (omega arith, (omega arith, (omega arith, tt))))

char-IsInk : (n : ℕ) → n < 64 → IsInk (char_of n)
char-IsInk n h = ground arith

encode_some : (n : ℕ) (bytes : Bytes) → Base64.encode (put_uint32 n ++ bytes) ≢ []
unfolding Base64.encode
encode_some n bytes e = cc

big_endian-put :
    (n : ℕ)
    → n < 2 ^ 32
    → big_endian (n / 16777216 % 256) (n / 65536 % 256) (n / 256 % 256) (n % 256) ≡ n
big_endian-put n h = omega arith

-- The hash and the bytes are taken apart where they were put together.
signature_of_bytes-put :
    (name : Bytes) (n : ℕ) (bytes : Bytes)
    → n < 2 ^ 32
    → bytes ≢ []
    → signature_of_bytes name (some (put_uint32 n ++ bytes))
      ≡ ok (record { name = name; hash = n; base64 = Base64.encode bytes })
signature_of_bytes-put name n [] h k = absurd (k refl)
signature_of_bytes-put name n (e ∷ bytes) h k =
    ap (λ m. ok (record { name = name; hash = m; base64 = Base64.encode (e ∷ bytes) }))
      (big_endian-put n h)

module _ (s : Signature) (h : IsReadable s) where
  encoded_lem : encoded s ≡ Base64.encode (put_uint32 s.hash ++ h.bytes)
  encoded_lem =
      ap (λ t. Base64.encode (put_uint32 s.hash ++ t))
        (ap Base64.decode_prefix h.base64_of ∙ decode_prefix-encode h.bytes h.are_bytes)

  encoded_bytes_lem : All IsByte (put_uint32 s.hash ++ h.bytes)
  encoded_bytes_lem =
      All-append IsByte (put_uint32 s.hash) h.bytes (put_uint32-bytes s.hash) h.are_bytes

  encoded-IsWord : IsWord (encoded s)
  encoded-IsWord = (
    λ e. encode_some s.hash h.bytes (sym encoded_lem ∙ e),
    subst (All IsInk) (sym encoded_lem) (
        encode-All IsInk char-IsInk (omega arith, omega arith) (put_uint32 s.hash ++ h.bytes)
          encoded_bytes_lem),
  )

  high_line : All (λ c. 32 ≤ c) (line_of s.name (encoded s))
  high_line = (
    omega arith,
    (
      omega arith,
      (
        omega arith,
        (
          omega arith,
          All-append (λ c. 32 ≤ c) s.name (b' ' ∷ encoded s)
              (All-map (λ c k. omega (arith, k.0)) s.name (h.name_word.1))
              (omega arith, All-map (λ c k. omega (arith, k.0)) (encoded s) (encoded-IsWord.1)),
        ),
      ),
    ),
  )

  line-IsFull : IsFull (line_of s.name (encoded s))
  line-IsFull = (λ e. cc, All-map (λ c k. ground arith) (line_of s.name (encoded s)) high_line)

  line_no_cr : All (λ c. (c == 13) ≡ false) (line_of s.name (encoded s))
  line_no_cr = All-map (λ c k. ground arith) (line_of s.name (encoded s)) high_line

  read_one :
      (fscanf : Bytes → Option (Bytes × Bytes))
      → ReadsWords fscanf
      → signature_of_words (fscanf (drop_cr (line_of s.name (encoded s)))) ≡ ok s
  read_one fscanf reads =
      ap (λ l. signature_of_words (fscanf l)) (drop_cr_none (line_of s.name (encoded s)) line_no_cr)
      ∙ ap signature_of_words (reads s.name (encoded s) h.name_word encoded-IsWord)
      ∙ ap (λ t. signature_of_bytes s.name (Base64.decode t)) encoded_lem
      ∙ ap (signature_of_bytes s.name)
          (decode-encode (put_uint32 s.hash ++ h.bytes) encoded_bytes_lem)
      ∙ signature_of_bytes-put s.name s.hash h.bytes h.hash_fits h.bytes_some
      ∙ ap (λ t. ok (record { name = s.name; hash = s.hash; base64 = t })) (sym h.base64_of)

module _ (fscanf : Bytes → Option (Bytes × Bytes)) (reads : ReadsWords fscanf) where
  read-All :
      (ss : List Signature) → All IsReadable ss → read_signatures fscanf (lines_of ss) ≡ ok ss
  unfolding read_signatures
  read-All [] _ = refl
  read-All (s ∷ ss) (h, hs) = rw (read_one s h fscanf reads, read-All ss hs) refl

  lines-IsFull : (ss : List Signature) → All IsReadable ss → All IsFull (lines_of ss)
  lines-IsFull [] _ = tt
  lines-IsFull (s ∷ ss) (h, hs) = (line-IsFull s h, lines-IsFull ss hs)

  lines-IsShort : (ss : List Signature) → All IsReadable ss → All IsShort (lines_of ss)
  lines-IsShort [] _ = tt
  lines-IsShort (s ∷ ss) (h, hs) = (h.line_short, lines-IsShort ss hs)

  -- A note that ends in a newline, with a signature at least, and whose signatures can be read on their
  -- lines, is read back from its text, where Fscanf reads the two words of a line.
  pub unmarshal_text-note_string :
      (t : Bytes) (s : Signature) (ss : List Signature)
      → All IsReadable (s ∷ ss)
      → unmarshal_text fscanf
          (note_string (record { note = t ++ newline ∷ []; signatures = s ∷ ss }))
        ≡ ok (record { note = t ++ newline ∷ []; signatures = s ∷ ss })
  unfolding unmarshal_text note_string
  unmarshal_text-note_string t s ss h =
      let ls = lines_of (s ∷ ss) in
      let text = t ++ newline ∷ [] in
      let full = lines-IsFull (s ∷ ss) h in
      let same : (t ++ newline ∷ []) ++ newline ∷ signature_lines (s ∷ ss)
          ≡ t ++ newline ∷ newline ∷ join_lines ls =
        append_assoc t (newline ∷ []) (newline ∷ signature_lines (s ∷ ss))
        ∙ ap (λ x. t ++ newline ∷ newline ∷ x) (signature_lines-join (s ∷ ss)) in
      ap (λ x. from_parts fscanf (split_last x)) same
      ∙ ap (from_parts fscanf) (split_last-lines t ls full)
      ∙ ap
          (λ b.
            if b
            then (read_signatures fscanf (until_long (terminated (split_lines (join_lines ls))))
                >>= note_with fscanf text)
            else err malformed_note)
          (ends-join (line_of s.name (encoded s)) (lines_of ss))
      ∙ ap (λ x. read_signatures fscanf x >>= note_with fscanf text)
          (scanned-join ls full (lines-IsShort (s ∷ ss) h))
      ∙ ap (λ r. r >>= note_with fscanf text) (read-All (s ∷ ss) h)
