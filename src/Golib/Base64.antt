-- ===== src/Golib/Base64.antt =====
-- encoding/base64: EncodeToString and DecodeString of StdEncoding.
pub mod RoundTrip
use rekor.Base.{
  ℕ, ◌+◌, ◌-◌, ◌*◌, ◌/◌, ◌%◌, ◌≡◌, refl, Bool, true, false, ◌&&◌, ◌||◌, [], ◌∷◌, ◌++◌, Option, none,
  some, leb, ltb, ◌==◌, if◌then◌else◌,
}
use rekor.Base.Bytes.{Bytes, codes}

-- one character of the alphabet
abbrev pub char_of : ℕ → ℕ
char_of n =
    if ltb n 26
    then b'A' + n
    else if ltb n 52
    then b'a' + (n - 26)
    else if ltb n 62
    then b'0' + (n - 52)
    else if n == 62
    then b'+'
    else b'/'

abbrev pub value_of : ℕ → Option ℕ
value_of c =
    if leb b'A' c && leb c b'Z'
    then some (c - b'A')
    else if leb b'a' c && leb c b'z'
    then some (c - b'a' + 26)
    else if leb b'0' c && leb c b'9'
    then some (c - b'0' + 52)
    else if c == b'+'
    then some 62
    else if c == b'/'
    then some 63
    else none

unfoldable pub encode : Bytes → Bytes
encode [] = []
encode (a ∷ []) = char_of (a / 4) ∷ char_of (a % 4 * 16) ∷ b'=' ∷ b'=' ∷ []
encode (a ∷ b ∷ []) =
    char_of (a / 4) ∷ char_of (a % 4 * 16 + b / 16) ∷ char_of (b % 16 * 4) ∷ b'=' ∷ []
encode (a ∷ b ∷ c ∷ s) =
    char_of (a / 4)
    ∷ char_of (a % 4 * 16 + b / 16)
    ∷ char_of (b % 16 * 4 + c / 64)
    ∷ char_of (c % 64)
    ∷ encode s

abbrev pub two : Option ℕ → Option ℕ → Option Bytes
two (some a) (some b) = some ((a * 4 + b / 16) ∷ [])
two _ _ = none

abbrev pub three : Option ℕ → Option ℕ → Option ℕ → Option Bytes
three (some a) (some b) (some c) = some ((a * 4 + b / 16) ∷ (b % 16 * 16 + c / 4) ∷ [])
three _ _ _ = none

-- The bytes of four characters in front of those of the rest.
abbrev pub four : Option ℕ → Option ℕ → Option ℕ → Option ℕ → Option Bytes → Option Bytes
four (some a) (some b) (some c) (some d) (some s) =
    some ((a * 4 + b / 16) ∷ (b % 16 * 16 + c / 4) ∷ (c % 4 * 64 + d) ∷ s)
four _ _ _ _ _ = none

-- Only the last group may be padded; the bits that the padding leaves over are not looked at.
unfoldable pub decode_groups : Bytes → Option Bytes
decode_groups [] = some []
decode_groups (w ∷ x ∷ y ∷ z ∷ []) =
    if z == b'='
    then (if y == b'='
        then two (value_of w) (value_of x)
        else three (value_of w) (value_of x) (value_of y))
    else four (value_of w) (value_of x) (value_of y) (value_of z) (some [])
decode_groups (w ∷ x ∷ y ∷ z ∷ c ∷ s) =
    four (value_of w) (value_of x) (value_of y) (value_of z) (decode_groups (c ∷ s))
decode_groups _ = none

abbrev pub is_newline : ℕ → Bool
is_newline c = c == 10 || c == 13

-- Newlines are passed over.
abbrev pub strip : Bytes → Bytes
strip [] = []
strip (c ∷ s) = if is_newline c then strip s else c ∷ strip s

unfoldable pub decode : Bytes → Option Bytes
unfolding decode_groups
decode s = decode_groups (strip s)

tests :
    (encode (codes "rekor") ≡ codes "cmVrb3I=")
    × (decode (codes "cmVrb3I=") ≡ some (codes "rekor"))
    × (decode (codes "cm=r") ≡ none)
unfolding encode decode
tests = (refl, refl, refl)

-- DecodeString on a text that is not valid still returns the bytes of the groups in front of the
-- first bad one; a padded group with something behind it is read too.
abbrev pub bytes_of : Option Bytes → Bytes
bytes_of none = []
bytes_of (some s) = s

abbrev pub in_front : Option Bytes → Bytes → Bytes → Bytes
in_front none padded rest = padded
in_front (some s) padded rest = s ++ rest

unfoldable pub groups_prefix : Bytes → Bytes
groups_prefix (w ∷ x ∷ y ∷ z ∷ s) =
    in_front (four (value_of w) (value_of x) (value_of y) (value_of z) (some []))
      (if z == b'='
        then bytes_of (
            if y == b'='
            then two (value_of w) (value_of x)
            else three (value_of w) (value_of x) (value_of y))
        else [])
      (groups_prefix s)
groups_prefix _ = []

unfoldable pub decode_prefix : Bytes → Bytes
unfolding groups_prefix
decode_prefix s = groups_prefix (strip s)
