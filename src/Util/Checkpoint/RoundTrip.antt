-- ===== src/Util/Checkpoint/RoundTrip.antt =====
-- A checkpoint of pkg/util/checkpoint.go, printed and read.
use rekor.Base.{
  ℕ, ◌^◌, ◌<◌, ◌≡◌, ◌≢◌, refl, ap, ◌∙◌, false, List, [], ◌∷◌, ◌++◌, ok, arith, All, inl, subst,
  append-nil,
}
use rekor.Base.Bytes.{Bytes}
use rekor.Golib.Base64
use rekor.Golib.Base64.{is_newline}
use rekor.Golib.Base64.RoundTrip.{decode-encode, encode_no_newline}
use rekor.Golib.Hex.{IsByte}
use rekor.Golib.Lines.{newline, split_lines, split-join, IsLine}
use rekor.Golib.Num.{parse_uint, format_uint}
use rekor.Golib.Num.RoundTrip.{IsPlain, format_uint-IsPlain, parse-format}
use rekor.Util.Checkpoint.{
  Checkpoint, marshal_checkpoint, until_empty, from_lines, with_size, unmarshal_checkpoint,
}

-- A line that is not empty.
abbrev pub IsFull : Bytes → Type 0
IsFull l = (l ≢ []) × IsLine l

-- The origin and the other lines are lines, and not empty; the hash is bytes; the size is a uint64.
pub record IsPrintable (c : Checkpoint) : Type 0 where
  pub origin_full : IsFull c.origin
  pub size_fits : c.size < 2 ^ 64
  pub hash_bytes : All IsByte c.hash
  pub others_full : All IsFull c.other_content

until_empty_lem : (ls more : List Bytes) → All IsFull ls → until_empty (ls ++ [] ∷ more) ≡ ls
until_empty_lem [] more _ = refl
until_empty_lem ([] ∷ ls) more ((h, _), _) = absurd (h refl)
until_empty_lem ((c ∷ l) ∷ ls) more (_, hs) = ap (λ t. (c ∷ l) ∷ t) (until_empty_lem ls more hs)

lines_of_full : (ls : List Bytes) → All IsFull ls → All IsLine ls
lines_of_full [] _ = tt
lines_of_full (l ∷ ls) ((_, h), hs) = (h, lines_of_full ls hs)

plain-IsLine : (s : Bytes) → All IsPlain s → IsLine s
plain-IsLine [] _ = tt
plain-IsLine (c ∷ s) (h, hs) = (ground arith, plain-IsLine s hs)

base64-IsLine : (s : Bytes) → All (λ c. is_newline c ≡ false) s → IsLine s
base64-IsLine [] _ = tt
base64-IsLine (c ∷ s) (h, hs) = (ground arith, base64-IsLine s hs)

with_size_lem :
    (origin : Bytes) (size : ℕ) (hash : Bytes) (others more : List Bytes)
    → size < 2 ^ 64
    → All IsByte hash
    → All IsFull others
    → with_size origin
        (parse_uint 10 (format_uint 10 size))
        (Base64.encode hash)
        (others ++ [] ∷ more)
      ≡ ok (record { origin = origin; size = size; hash = hash; other_content = others })
with_size_lem origin size hash others more b h o =
    rw (parse-format 10 (inl refl) size b, decode-encode hash h, until_empty_lem others more o) refl

from_lines_lem :
    (origin : Bytes) (size : ℕ) (hash : Bytes) (others more : List Bytes)
    → origin ≢ []
    → size < 2 ^ 64
    → All IsByte hash
    → All IsFull others
    → from_lines (origin ∷ format_uint 10 size ∷ Base64.encode hash ∷ (others ++ [] ∷ more))
      ≡ ok (record { origin = origin; size = size; hash = hash; other_content = others })
from_lines_lem [] size hash others more ne b h o = absurd (ne refl)
from_lines_lem (c ∷ origin) size hash [] more ne b h o =
    with_size_lem (c ∷ origin) size hash [] more b h o
from_lines_lem (c ∷ origin) size hash (l ∷ ls) more ne b h o =
    with_size_lem (c ∷ origin) size hash (l ∷ ls) more b h o

lines_of : Checkpoint → List Bytes
lines_of c = c.origin ∷ format_uint 10 c.size ∷ Base64.encode c.hash ∷ c.other_content

lines_of-IsLine : (c : Checkpoint) → IsPrintable c → All IsLine (lines_of c)
unfolding lines_of
lines_of-IsLine c h = (
  h.origin_full.1,
  (
    plain-IsLine _ (format_uint-IsPlain 10 c.size (inl refl)),
    (
      base64-IsLine _ (encode_no_newline c.hash h.hash_bytes),
      lines_of_full c.other_content h.others_full,
    ),
  ),
)

read_back :
    (c : Checkpoint) (rest : Bytes) (more : List Bytes)
    → IsPrintable c
    → split_lines rest ≡ [] ∷ more
    → unmarshal_checkpoint (marshal_checkpoint c ++ rest) ≡ ok c
unfolding unmarshal_checkpoint marshal_checkpoint lines_of
read_back c rest more h e =
    ap from_lines (split-join (lines_of c) rest (lines_of-IsLine c h) ∙ ap (λ t. lines_of c ++ t) e)
    ∙ from_lines_lem c.origin c.size c.hash c.other_content more h.origin_full.0 h.size_fits
        h.hash_bytes h.others_full

-- A checkpoint that can be printed is read back from its text, alone or with an empty line and
-- anything else, such as signatures, behind it.
pub unmarshal-marshal :
    (c : Checkpoint) (rest : Bytes)
    → IsPrintable c
    → (unmarshal_checkpoint (marshal_checkpoint c) ≡ ok c)
      × (unmarshal_checkpoint (marshal_checkpoint c ++ newline ∷ rest) ≡ ok c)
unmarshal-marshal c rest h = (
  subst (λ t. unmarshal_checkpoint t ≡ ok c) (append-nil (marshal_checkpoint c))
      (read_back c [] [] h refl),
  read_back c (newline ∷ rest) (split_lines rest) h refl,
)
