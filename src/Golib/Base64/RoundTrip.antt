-- ===== src/Golib/Base64/RoundTrip.antt =====
-- Decoding what StdEncoding has encoded.
use rekor.Base.{
  ℕ, ◌+◌, ◌*◌, ◌/◌, ◌%◌, ◌<◌, ◌≡◌, refl, ap, ◌∙◌, false, [], ◌∷◌, Option, some, arith, ◌==◌, All,
}
use rekor.Base.Bytes.{Bytes}
use rekor.Golib.Hex.{IsByte}
use rekor.Golib.Base64.{
  char_of, value_of, encode, four, decode_groups, is_newline, strip, decode, groups_prefix,
  decode_prefix,
}

value-char : (n : ℕ) → n < 64 → value_of (char_of n) ≡ some n
value-char n h = ground arith

char_no_newline : (n : ℕ) → n < 64 → is_newline (char_of n) ≡ false
char_no_newline n h = ground arith

char_no_pad : (n : ℕ) → n < 64 → (char_of n == b'=') ≡ false
char_no_pad n h = ground arith

-- What holds of every character of the alphabet and of the padding holds of an encoding.
pub encode-All :
    (P : ℕ → Type 0)
    → ((n : ℕ) → n < 64 → P (char_of n))
    → P b'='
    → (s : Bytes) → All IsByte s
    → All P (encode s)
unfolding encode
encode-All P f pad [] _ = tt
encode-All P f pad (a ∷ []) (ha, _) =
    (f (a / 4) (omega arith), (f (a % 4 * 16) (omega arith), (pad, (pad, tt))))
encode-All P f pad (a ∷ b ∷ []) (ha, (hb, _)) = (
  f (a / 4) (omega arith),
  (f (a % 4 * 16 + b / 16) (omega arith), (f (b % 16 * 4) (omega arith), (pad, tt))),
)
encode-All P f pad (a ∷ b ∷ c ∷ s) (ha, (hb, (hc, hs))) = (
  f (a / 4) (omega arith),
  (
    f (a % 4 * 16 + b / 16) (omega arith),
    (f (b % 16 * 4 + c / 64) (omega arith), (f (c % 64) (omega arith), encode-All P f pad s hs)),
  ),
)

-- No character of an encoding is a newline.
pub encode_no_newline : (s : Bytes) → All IsByte s → All (λ c. is_newline c ≡ false) (encode s)
encode_no_newline = encode-All (λ c. is_newline c ≡ false) char_no_newline refl

strip_none : (s : Bytes) → All (λ c. is_newline c ≡ false) s → strip s ≡ s
strip_none [] _ = refl
strip_none (c ∷ s) (h, hs) = rw h (ap (λ t. c ∷ t) (strip_none s hs))

groups_more :
    (w x y z : ℕ) (s : Bytes)
    → (z == b'=') ≡ false
    → decode_groups (w ∷ x ∷ y ∷ z ∷ s)
      ≡ four (value_of w) (value_of x) (value_of y) (value_of z) (decode_groups s)
unfolding decode_groups
groups_more w x y z [] h = rw h refl
groups_more w x y z (c ∷ s) h = refl

four_bytes :
    (a b c : ℕ) (s : Bytes) (t : Option Bytes)
    → a < 256
    → b < 256
    → c < 256
    → t ≡ some s
    → four
        (some (a / 4))
        (some (a % 4 * 16 + b / 16))
        (some (b % 16 * 4 + c / 64))
        (some (c % 64))
        t
      ≡ some (a ∷ b ∷ c ∷ s)
four_bytes a b c s t ha hb hc e = rw e (ground arith)

one_byte : (a : ℕ) → a < 256 → decode_groups (encode (a ∷ [])) ≡ some (a ∷ [])
unfolding encode decode_groups
one_byte a h =
    rw (value-char (a / 4) (omega arith), value-char (a % 4 * 16) (omega arith)) (ground arith)

two_bytes : (a b : ℕ) → a < 256 → b < 256 → decode_groups (encode (a ∷ b ∷ [])) ≡ some (a ∷ b ∷ [])
unfolding encode decode_groups
two_bytes a b h k =
    rw
      (
        char_no_pad (b % 16 * 4) (omega arith),
        value-char (a / 4) (omega arith),
        value-char (a % 4 * 16 + b / 16) (omega arith),
        value-char (b % 16 * 4) (omega arith),
      )
      (ground arith)

decode_groups-encode : (s : Bytes) → All IsByte s → decode_groups (encode s) ≡ some s
unfolding encode
decode_groups-encode [] _ = unfold decode_groups in refl
decode_groups-encode (a ∷ []) (ha, _) = one_byte a ha
decode_groups-encode (a ∷ b ∷ []) (ha, (hb, _)) = two_bytes a b ha hb
decode_groups-encode (a ∷ b ∷ c ∷ s) (ha, (hb, (hc, hs))) =
    groups_more _ _ _ _ (encode s) (char_no_pad (c % 64) (omega arith))
    ∙ rw
        (
          value-char (a / 4) (omega arith),
          value-char (a % 4 * 16 + b / 16) (omega arith),
          value-char (b % 16 * 4 + c / 64) (omega arith),
          value-char (c % 64) (omega arith),
        )
        (four_bytes a b c s (decode_groups (encode s)) ha hb hc (decode_groups-encode s hs))

pub decode-encode : (s : Bytes) → All IsByte s → decode (encode s) ≡ some s
unfolding decode
decode-encode s h =
    ap decode_groups (strip_none (encode s) (encode_no_newline s h)) ∙ decode_groups-encode s h

groups_prefix-encode : (s : Bytes) → All IsByte s → groups_prefix (encode s) ≡ s
unfolding encode groups_prefix
groups_prefix-encode [] _ = refl
groups_prefix-encode (a ∷ []) (ha, _) =
    rw (value-char (a / 4) (omega arith), value-char (a % 4 * 16) (omega arith)) (ground arith)
groups_prefix-encode (a ∷ b ∷ []) (ha, (hb, _)) =
    rw
      (
        char_no_pad (b % 16 * 4) (omega arith),
        value-char (a / 4) (omega arith),
        value-char (a % 4 * 16 + b / 16) (omega arith),
        value-char (b % 16 * 4) (omega arith),
      )
      (ground arith)
groups_prefix-encode (a ∷ b ∷ c ∷ s) (ha, (hb, (hc, hs))) =
    rw
      (
        value-char (a / 4) (omega arith),
        value-char (a % 4 * 16 + b / 16) (omega arith),
        value-char (b % 16 * 4 + c / 64) (omega arith),
        value-char (c % 64) (omega arith),
        groups_prefix-encode s hs,
      )
      (ground arith)

pub decode_prefix-encode : (s : Bytes) → All IsByte s → decode_prefix (encode s) ≡ s
unfolding decode_prefix
decode_prefix-encode s h =
    ap groups_prefix (strip_none (encode s) (encode_no_newline s h)) ∙ groups_prefix-encode s h
