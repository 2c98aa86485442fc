-- ===== src/Golib/Num/RoundTrip.antt =====
-- Formatting a number and reading it back.
use rekor.Base.{
  ℕ, zero, suc, ◌+◌, ◌*◌, ◌/◌, ◌%◌, ◌^◌, ◌<◌, ◌≤◌, ◌≡◌, refl, sym, true, [], ◌∷◌, ◌++◌, some, arith,
  length-append, All-append, All-replicate, ap, ◌∙◌, Bool-cases, ltb→lt, ltb, if◌then◌else◌, length,
  replicate, ◌⊎◌, inl, inr, All, subst,
}
use rekor.Base.Bytes.{Bytes}
use rekor.Base.Int64.{pos}
use rekor.Golib.Hex.{hex_char}
use rekor.Golib.Num.{scan, parse_uint, parse_int, digits, format_uint, digit_value}

-- The bases that the program uses.
abbrev pub IsBase : ℕ → Type 0
IsBase b = (b ≡ 10) ⊎ (b ≡ 16)

digit_value-char : (b n : ℕ) → IsBase b → n < b → digit_value b (hex_char n) ≡ some n
unfolding digit_value
digit_value-char b n (inl e) h = rw e (ground arith)
digit_value-char b n (inr e) h = rw e (ground arith)

quotient_halves : (b n k : ℕ) → IsBase b → n < 2 * k → n / b < k
quotient_halves b n k (inl e) h = rw e (omega arith)
quotient_halves b n k (inr e) h = rw e (omega arith)

quotient_remainder : (b n : ℕ) → IsBase b → n / b * b + n % b ≡ n
quotient_remainder b n (inl e) = rw e (omega arith)
quotient_remainder b n (inr e) = rw e (omega arith)

remainder_lt : (b n : ℕ) → IsBase b → n % b < b
remainder_lt b n (inl e) = rw e (omega arith)
remainder_lt b n (inr e) = rw e (omega arith)

two_le : (b : ℕ) → IsBase b → 2 ≤ b
two_le b h = ground arith

pow_two_suc : (f : ℕ) → 2 ^ suc f ≡ 2 * 2 ^ f
pow_two_suc f = grind arith

digits_step :
    (b f n : ℕ) (out : Bytes)
    → digits b (suc f) n out
      ≡ (if ltb n b then hex_char n ∷ out else digits b f (n / b) (hex_char (n % b) ∷ out))
unfolding digits
digits_step b f n out = refl

module _ (b : ℕ) (base : IsBase b) where
  scan_digit :
      (m v : ℕ) (out : Bytes)
      → v < b
      → m * b + v < 2 ^ 64
      → scan b m (hex_char v ∷ out) ≡ scan b (m * b + v) out
  unfolding scan
  scan_digit m v out h k = ground (arith, digit_value-char b v base h)

  scan_first :
      (v : ℕ) (out : Bytes) → v < b → v < 2 ^ 64 → scan b 0 (hex_char v ∷ out) ≡ scan b v out
  scan_first v out h k =
      subst (λ t. scan b 0 (hex_char v ∷ out) ≡ scan b t out) (omega arith)
        (scan_digit 0 v out h (omega arith))

  scan-digits :
      (f n : ℕ) (out : Bytes)
      → n < 2 ^ suc f
      → n < 2 ^ 64
      → scan b 0 (digits b (suc f) n out) ≡ scan b n out
  scan-digits zero n out h k =
      let small : ltb n b ≡ true = grind (arith, two_le b base) in
      rw (digits_step, small) (scan_first n out (ltb→lt n b small) k)
  scan-digits (suc f) n out h k = elim (Bool-cases (ltb n b)) [
    | inl last ↦ rw (digits_step, last) (scan_first n out (ltb→lt n b last) k)
    | inr more ↦
        let q : n / b < 2 ^ suc f =
          quotient_halves b n (2 ^ suc f) base (rw (← pow_two_suc (suc f)) h) in
        let e = quotient_remainder b n base in
        let r = remainder_lt b n base in
        rw (digits_step, more)
          (scan-digits f (n / b) (hex_char (n % b) ∷ out) q (omega arith)
            ∙ scan_digit (n / b) (n % b) out r (rw e k)
            ∙ ap (λ t. scan b t out) e)
  ]

  parse_uint-scan : (s : Bytes) → 0 < length s → parse_uint b s ≡ scan b 0 s
  unfolding parse_uint
  parse_uint-scan [] h = elim h [ ]
  parse_uint-scan (c ∷ s) h = refl

  length-digits_ge : (f n : ℕ) (out : Bytes) → length out < length (digits b (suc f) n out)
  unfolding digits
  length-digits_ge zero n out = ground arith
  length-digits_ge (suc f) n out = elim (Bool-cases (ltb n b)) [
    | inl last ↦ rw (digits_step, last) (omega arith)
    | inr more ↦
        rw (digits_step, more) (omega (arith, length-digits_ge f (n / b) (hex_char (n % b) ∷ out)))
  ]

  -- A 64-bit number is read back from its print.
  pub parse-format : (n : ℕ) → n < 2 ^ 64 → parse_uint b (format_uint b n) ≡ some n
  unfolding format_uint scan
  parse-format n h =
      parse_uint-scan (digits b 64 n []) (length-digits_ge 63 n []) ∙ scan-digits 63 n [] h h

  -- Leading zeros do not change the number that a text spells.
  pub scan-zeros : (k : ℕ) (s : Bytes) → scan b 0 (replicate k b'0' ++ s) ≡ scan b 0 s
  scan-zeros zero s = refl
  scan-zeros (suc k) s =
      scan_first 0 (replicate k b'0' ++ s) (omega (arith, two_le b base)) (omega arith)
      ∙ scan-zeros k s

  pub format_uint_pos : (n : ℕ) → 0 < length (format_uint b n)
  unfolding format_uint
  format_uint_pos n = length-digits_ge 63 n []

  parse-format_zeros :
      (k n : ℕ) → n < 2 ^ 64 → parse_uint b (replicate k b'0' ++ format_uint b n) ≡ some n
  parse-format_zeros k n h =
      parse_uint-scan (replicate k b'0' ++ format_uint b n)
        (omega (arith, length-append {0} (replicate k b'0') (format_uint b n), format_uint_pos n))
      ∙ scan-zeros k (format_uint b n)
      ∙ sym (parse_uint-scan (format_uint b n) (format_uint_pos n))
      ∙ parse-format n h

-- Neither a sign nor a byte beyond ASCII.
abbrev pub IsPlain : ℕ → Type 0
IsPlain c = (48 ≤ c) × (c < 128)

hex_char-IsPlain : (v : ℕ) → v < 16 → IsPlain (hex_char v)
hex_char-IsPlain v h = ground arith

digits-IsPlain :
    (b f n : ℕ) (out : Bytes) → IsBase b → All IsPlain out → All IsPlain (digits b f n out)
unfolding digits
digits-IsPlain b zero n out base h = h
digits-IsPlain b (suc f) n out base h = elim (Bool-cases (ltb n b)) [
  | inl last ↦ rw last (hex_char-IsPlain n (grind (arith, ltb→lt n b last)), h)
  | inr more ↦ rw more (
      digits-IsPlain b f (n / b) _ base
        (hex_char-IsPlain (n % b) (grind (arith, remainder_lt b n base)), h))
]

pub format_uint-IsPlain : (b n : ℕ) → IsBase b → All IsPlain (format_uint b n)
unfolding format_uint
format_uint-IsPlain b n base = digits-IsPlain b 64 n [] base tt

pub parse_int_plain :
    (b : ℕ) (s : Bytes) (n : ℕ)
    → All IsPlain s
    → parse_uint b s ≡ some n
    → n < 2 ^ 63
    → parse_int b s ≡ some (pos n)
unfolding parse_int parse_uint
parse_int_plain b [] n p e h = cc
parse_int_plain b (c ∷ s) n p e h = ground (arith, e)

-- A positive int64 is read back from its print, behind any leading zeros.
pub parse_int-format :
    (b k n : ℕ)
    → IsBase b
    → n < 2 ^ 63
    → parse_int b (replicate k b'0' ++ format_uint b n) ≡ some (pos n)
parse_int-format b k n base h =
    parse_int_plain b (replicate k b'0' ++ format_uint b n) n
      (All-append IsPlain (replicate k b'0') (format_uint b n)
        (All-replicate IsPlain k b'0' (omega arith)) (format_uint-IsPlain b n base))
      (parse-format_zeros b base k n (omega arith)) h

pow_sixteen_suc : (f : ℕ) → 16 ^ suc f ≡ 16 * 16 ^ f
pow_sixteen_suc f = grind arith

quotient_lt : (n k : ℕ) → n < 16 * k → n / 16 < k
quotient_lt n k h = omega arith

length-digits_le :
    (f k n : ℕ) (out : Bytes) → n < 16 ^ suc k → length (digits 16 f n out) ≤ suc k + length out
unfolding digits
length-digits_le zero k n out h = omega arith
length-digits_le (suc f) zero n out h = ground (arith)
length-digits_le (suc f) (suc k) n out h = elim (Bool-cases (ltb n 16)) [
  | inl last ↦ rw last (omega arith)
  | inr more ↦
      let q : n / 16 < 16 ^ suc k = quotient_lt n (16 ^ suc k) (rw (← pow_sixteen_suc (suc k)) h) in
      rw more (omega (arith, length-digits_le f k (n / 16) (hex_char (n % 16) ∷ out) q))
]

pub length-format_16 : (n : ℕ) → n < 2 ^ 64 → length (format_uint 16 n) ≤ 16
unfolding format_uint
length-format_16 n h = length-digits_le 64 15 n [] h
