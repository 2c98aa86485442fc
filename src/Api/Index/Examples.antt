-- ===== src/Api/Index/Examples.antt =====
-- A small index on which the theorem about pkg/api/index.go is applied.
use rekor.Base.{
  ℕ, suc, ◌==◌, ◌≡◌, refl, List, [], ◌∷◌, ◌++◌, none, ok, replicate, length, if◌then◌else◌,
}
use rekor.Base.Bytes.{Bytes, codes}
use rekor.Api.Index.Subsets.{has, is_and, values, keep_common, add_elements, insert}
use rekor.Api.Index.Membership.{any, has-append}
use rekor.Api.Index.{Query, Search, operator_of, with_key, search_index_handler}
use rekor.Util.Sha.{prefix_sha, split_colon}
use rekor.Api.Index.Searching.{Holds, Answers, keys_of, search_index_handler-Answers}

-- The entries with a SHA-256 digest, and those with another key.
abbrev index : Bytes → List Bytes
index key =
    if length key == 71 then codes "one" ∷ codes "two" ∷ [] else codes "two" ∷ codes "three" ∷ []

abbrev found : List Bytes → List Bytes
found [] = []
found (key ∷ keys) = index key ++ found keys

abbrev search : Search ℕ ℕ ℕ ℕ
search = record {
  new_artifact_factory = λ _. ok 0;
  new_public_key = λ _ _. ok 0;
  canonical_value = λ _. ok [];
  sha256 = λ _. [];
  to_lower = λ s. s;
  lookup_indices = λ keys w. (ok (found keys), suc w);
}

has-found :
    (x : Bytes) (keys : List Bytes) → has x (found keys) ≡ any (λ key. has x (index key)) keys
has-found x [] = unfold has in refl
has-found x (key ∷ keys) = rw (has-append x (index key) (found keys), has-found x keys) refl

search-Holds : Holds search index
search-Holds keys w = (found keys, suc w, refl, λ x. has-found x keys)

-- What has the digest and the email.
abbrev both : Query
both = record {
  operator = codes "and";
  hash = replicate 64 b'a';
  public_key = none;
  email = codes "a@b.org";
}

both_found : (search_index_handler search both 0).0 ≡ ok (codes "two" ∷ [])
unfolding search_index_handler with_key operator_of values keep_common add_elements prefix_sha
    split_colon insert has
both_found = refl

search_index_handler-Answers_example :
    Answers search index
      (is_and (operator_of both))
      (keys_of search index both)
      (search_index_handler search both 0).0
search_index_handler-Answers_example = search_index_handler-Answers search index both 0 search-Holds
