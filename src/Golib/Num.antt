-- ===== src/Golib/Num.antt =====
-- strconv.ParseUint and strconv.ParseInt for 64 bits, in base 10 and 16, and the verbs %d and %x of
-- fmt for an int64. A failure, of the syntax or of the range, is `none`.
pub mod RoundTrip
use rekor.Base.{
  ℕ, zero, suc, ◌+◌, ◌-◌, ◌*◌, ◌/◌, ◌%◌, ◌^◌, ◌<◌, ◌≡◌, refl, Bool, true, false, ◌&&◌, List, [],
  ◌∷◌, ◌++◌, Option, none, some, arith, leb, ltb, ◌==◌, if◌then◌else◌, length, replicate, ◌⊎◌,
}
use rekor.Base.Bytes.{Bytes}
use rekor.Base.Int64.{ℤ, pos, negsuc}
use rekor.Golib.Hex.{hex_char, hex_value}

-- The digits of a base up to 16 are those of encoding/hex below the base.
unfoldable pub digit_value : ℕ → ℕ → Option ℕ
digit_value base c = elim (hex_value c) [
  | none ↦ none
  | some v ↦ if ltb v base then some v else none
]

unfoldable pub scan : ℕ → ℕ → Bytes → Option ℕ
scan base n [] = some n
scan base n (c ∷ s) = elim (digit_value base c) [
  | none ↦ none
  | some v ↦ if ltb (n * base + v) (2 ^ 64) then scan base (n * base + v) s else none
]

unfoldable pub parse_uint : ℕ → Bytes → Option ℕ
unfolding scan digit_value
parse_uint base [] = none
parse_uint base (c ∷ s) = scan base 0 (c ∷ s)

abbrev positive : Option ℕ → Option ℤ
positive none = none
positive (some n) = if ltb n (2 ^ 63) then some (pos n) else none

abbrev negative : Option ℕ → Option ℤ
negative none = none
negative (some zero) = some (pos 0)
negative (some (suc n)) = if ltb n (2 ^ 63) then some (negsuc n) else none

unfoldable pub parse_int : ℕ → Bytes → Option ℤ
unfolding parse_uint
parse_int base [] = none
parse_int base (c ∷ s) =
    if c == b'+'
    then positive (parse_uint base s)
    else if c == b'-'
    then negative (parse_uint base s)
    else positive (parse_uint base (c ∷ s))

-- The digits of `n` in front of `out`; the fuel counts them.
unfoldable pub digits : ℕ → ℕ → ℕ → Bytes → Bytes
digits base zero n out = out
digits base (suc fuel) n out =
    let more = digits base fuel (n / base) (hex_char (n % base) ∷ out) in
    if ltb n base then hex_char n ∷ out else more

-- A number of 64 bits has at most 64 digits in any base.
unfoldable pub format_uint : ℕ → ℕ → Bytes
unfolding digits
format_uint base n = digits base 64 n []

unfoldable pub format_int : ℕ → ℤ → Bytes
unfolding format_uint
format_int base (pos n) = format_uint base n
format_int base (negsuc n) = b'-' ∷ format_uint base (suc n)

tests :
    (format_uint 16 0 ≡ b'0' ∷ [])
    × (parse_uint 16 (format_uint 16 48879) ≡ some 48879)
    × (format_uint 10 907 ≡ b'9' ∷ b'0' ∷ b'7' ∷ [])
    × (parse_int 16 (b'-' ∷ b'a' ∷ []) ≡ some (negsuc 9))
unfolding format_uint parse_uint parse_int
tests = (refl, refl, refl, refl)
