-- ===== src/Golib/Hex.antt =====
-- encoding/hex: EncodeToString and DecodeString.
use rekor.Base.{
  ℕ, ◌+◌, ◌-◌, ◌*◌, ◌/◌, ◌%◌, ◌<◌, ◌≡◌, refl, Bool, true, false, ◌&&◌, [], ◌∷◌, Option, none, some,
  arith, leb, ltb, if◌then◌else◌, length, All, all, Option-cases, inl, inr, ap, and-eq-true,
}
use rekor.Base.Bytes.{Bytes}

-- one character of `0123456789abcdef`
abbrev pub hex_char : ℕ → ℕ
hex_char n = if ltb n 10 then b'0' + n else b'a' + (n - 10)

-- the value of a digit of either case
abbrev pub hex_value : ℕ → Option ℕ
hex_value c =
    if leb b'0' c && leb c b'9'
    then some (c - b'0')
    else if leb b'a' c && leb c b'f'
    then some (c - b'a' + 10)
    else if leb b'A' c && leb c b'F'
    then some (c - b'A' + 10)
    else none

abbrev char_test : Option ℕ → Bool
char_test none = false
char_test (some _) = true

abbrev pub is_hex_char : ℕ → Bool
is_hex_char c = char_test (hex_value c)

unfoldable pub hex_encode : Bytes → Bytes
hex_encode [] = []
hex_encode (b ∷ s) = hex_char (b / 16) ∷ hex_char (b % 16) ∷ hex_encode s

abbrev push_byte : Option ℕ → Option ℕ → Option Bytes → Option Bytes
push_byte (some h) (some l) (some s) = some ((h * 16 + l) ∷ s)
push_byte _ _ _ = none

-- `none` on a character that is no digit, and on an odd length
unfoldable pub hex_decode : Bytes → Option Bytes
hex_decode [] = some []
hex_decode (_ ∷ []) = none
hex_decode (h ∷ l ∷ s) = push_byte (hex_value h) (hex_value l) (hex_decode s)

abbrev pub is_hex : Bytes → Bool
is_hex s = all is_hex_char s

abbrev pub IsByte : ℕ → Type 0
IsByte b = b < 256

hex_value-char : (n : ℕ) → n < 16 → hex_value (hex_char n) ≡ some n
hex_value-char n h = ground arith

pub decode-encode : (s : Bytes) → All IsByte s → hex_decode (hex_encode s) ≡ some s
unfolding hex_decode hex_encode
decode-encode [] _ = refl
decode-encode (b ∷ s) (hb, hs) =
    ground (arith, hex_value-char (b / 16), hex_value-char (b % 16), decode-encode s hs)

pub length-encode : (s : Bytes) → length (hex_encode s) ≡ 2 * length s
unfolding hex_encode
length-encode [] = refl
length-encode (b ∷ s) = omega (arith, length-encode s)

hex_char_is_hex : (n : ℕ) → n < 16 → is_hex_char (hex_char n) ≡ true
hex_char_is_hex n h = ground arith

pub encode-is_hex : (s : Bytes) → All IsByte s → is_hex (hex_encode s) ≡ true
unfolding hex_encode
encode-is_hex [] _ = refl
encode-is_hex (b ∷ s) (hb, hs) =
    ground (arith, hex_char_is_hex (b / 16), hex_char_is_hex (b % 16), encode-is_hex s hs)

is_hex_char-some : (c : ℕ) → is_hex_char c ≡ true → (v : ℕ) × (hex_value c ≡ some v)
is_hex_char-some c d = elim (Option-cases (hex_value c)) [
  | inl e ↦ cc (ap char_test e, d)
  | inr found ↦ found
]

push_byte-some :
    {h l : Option ℕ} {s : Option Bytes} {v w : ℕ} {t : Bytes}
    → h ≡ some v
    → l ≡ some w
    → s ≡ some t
    → push_byte h l s ≡ some ((v * 16 + w) ∷ t)
push_byte-some e f g = λ i. push_byte (e i) (f i) (g i)

-- Decoding succeeds exactly on an even number of digits.
pub decode_some :
    (s : Bytes) → length s % 2 ≡ 0 → is_hex s ≡ true → (t : Bytes) × (hex_decode s ≡ some t)
unfolding hex_decode
decode_some [] _ _ = ([], refl)
decode_some (_ ∷ []) e _ = absurd (omega arith)
decode_some (h ∷ l ∷ s) e d =
    let even : length s % 2 ≡ 0 = omega (arith, e) in
    let (hd, rest) = and-eq-true (is_hex_char h) (is_hex_char l && is_hex s) d in
    let (ld, sd) = and-eq-true (is_hex_char l) (is_hex s) rest in
    let (t, q) = decode_some s even sd in
    let (v, hv) = is_hex_char-some h hd in
    let (w, lw) = is_hex_char-some l ld in ((v * 16 + w) ∷ t, push_byte-some hv lw q)

pub decode_none : (s : Bytes) → length s % 2 ≡ 0 → is_hex s ≡ false → hex_decode s ≡ none
unfolding hex_decode
decode_none [] _ d = ground arith
decode_none (_ ∷ []) e _ = absurd (omega arith)
decode_none (h ∷ l ∷ s) e d = ground (arith, decode_none s (omega arith))
