-- ===== src/Util/Sha.antt =====
-- pkg/util/sha.go: digests in hexadecimal with the name of the algorithm before them.
use rekor.Base.{
  ℕ, suc, ◌<◌, ◌==◌, ◌≡◌, refl, sym, ◌∙◌, subst, ◌⊎◌, inl, inr, Bool-cases, false, List, [], ◌∷◌,
  ◌++◌, if◌then◌else◌, length, arith,
}
use rekor.Base.Bytes.{Bytes, bytes_eq, codes}

-- crypto.Hash; `unknown_hash` is crypto.Hash(0).
pub data Hash : Type 0 where
  sha1 sha256 sha384 sha512 unknown_hash : Hash

-- The first part gets the byte.
abbrev pub onto_first : ℕ → List Bytes → List Bytes
onto_first c [] = []
onto_first c (p ∷ ps) = (c ∷ p) ∷ ps

-- strings.Split at the colons, which gives one part more than there are colons.
unfoldable pub split_colon : Bytes → List Bytes
split_colon [] = [] ∷ []
split_colon (c ∷ s) = let rest = split_colon s in if c == b':' then [] ∷ rest else onto_first c rest

abbrev pub prefix_of : ℕ → Bytes
prefix_of n =
    if n == 40
    then codes "sha1:"
    else if n == 64
    then codes "sha256:"
    else if n == 96
    then codes "sha384:"
    else if n == 128
    then codes "sha512:"
    else []

unfoldable pub prefix_sha : Bytes → Bytes
prefix_sha sha = if length (split_colon sha) == 2 then sha else prefix_of (length sha) ++ sha

abbrev pub hash_named : Bytes → Bytes → Hash × Bytes
hash_named prefix sha =
    if bytes_eq prefix (codes "sha1")
    then (sha1, sha)
    else if bytes_eq prefix (codes "sha256")
    then (sha256, sha)
    else if bytes_eq prefix (codes "sha384")
    then (sha384, sha)
    else if bytes_eq prefix (codes "sha512")
    then (sha512, sha)
    else (unknown_hash, [])

abbrev pub hash_by_length : Bytes → Hash × Bytes
hash_by_length sha =
    let n = length sha in
    if n == 40
    then (sha1, sha)
    else if n == 64
    then (sha256, sha)
    else if n == 96
    then (sha384, sha)
    else if n == 128
    then (sha512, sha)
    else (unknown_hash, [])

abbrev pub from_components : List Bytes → Bytes → Hash × Bytes
from_components (prefix ∷ digest ∷ []) sha = hash_named prefix digest
from_components _ sha = hash_by_length sha

unfoldable pub unprefix_sha : Bytes → Hash × Bytes
unprefix_sha sha = from_components (split_colon sha) sha

length-onto_first : (c : ℕ) (ps : List Bytes) → length (onto_first c ps) ≡ length ps
length-onto_first c [] = refl
length-onto_first c (p ∷ ps) = refl

split_colon-positive : (s : Bytes) → 0 < length (split_colon s)
unfolding split_colon
split_colon-positive [] = ground arith
split_colon-positive (c ∷ s) = elim (Bool-cases (c == b':')) [
  | inl e ↦ rw e (omega arith)
  | inr e ↦ rw (e, length-onto_first c (split_colon s)) (split_colon-positive s)
]

-- One part is the whole text.
split_colon-single : (s : Bytes) → length (split_colon s) ≡ 1 → split_colon s ≡ s ∷ []
unfolding split_colon
split_colon-single [] h = refl
split_colon-single (c ∷ s) h = elim (Bool-cases (c == b':')) [
  | inl e ↦
      let k : suc (length (split_colon s)) ≡ 1 =
        subst (λ b. length (if b then [] ∷ split_colon s else onto_first c (split_colon s)) ≡ 1) e
          h in
      absurd (omega (arith, split_colon-positive s))
  | inr e ↦
      let k : length (onto_first c (split_colon s)) ≡ 1 =
        subst (λ b. length (if b then [] ∷ split_colon s else onto_first c (split_colon s)) ≡ 1) e
          h in
      rw (e, split_colon-single s (sym (length-onto_first c (split_colon s)) ∙ k)) refl
]

-- Whether the length is one of those that PrefixSHA knows.
length-cases :
    (n : ℕ)
    → (n ≡ 40)
      ⊎ (n ≡ 64)
      ⊎ (n ≡ 96)
      ⊎ (n ≡ 128)
      ⊎ (((n == 40) ≡ false) × ((n == 64) ≡ false) × ((n == 96) ≡ false) × ((n == 128) ≡ false))
length-cases n = ground arith

-- Of a digest without a colon, UnprefixSHA finds the same algorithm and digest whether PrefixSHA ran
-- before or not, and a digest that PrefixSHA gave a prefix is not given another.
pub unprefix_sha-prefix_sha :
    (sha : Bytes)
    → length (split_colon sha) ≡ 1
    → (unprefix_sha (prefix_sha sha) ≡ unprefix_sha sha)
      × (prefix_sha (prefix_sha sha) ≡ prefix_sha sha)
unfolding unprefix_sha prefix_sha split_colon
unprefix_sha-prefix_sha sha h = elim (length-cases (length sha)) [
  | inl e ↦ rw (h, e, split_colon-single sha h, e) (refl, refl)
  | inr (inl e) ↦ rw (h, e, split_colon-single sha h, e) (refl, refl)
  | inr (inr (inl e)) ↦ rw (h, e, split_colon-single sha h, e) (refl, refl)
  | inr (inr (inr (inl e))) ↦ rw (h, e, split_colon-single sha h, e) (refl, refl)
  | inr (inr (inr (inr (a, b, c, d)))) ↦ rw (h, a, b, c, d, h, a, b, c, d) (refl, refl)
]
