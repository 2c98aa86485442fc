-- ===== src/Types/Examples.antt =====
-- A kind of entries, on which the theorems about pkg/types are applied.
use rekor.Base.{ℕ, ◌≡◌, refl, ◌↔◌, true, [], ◌∷◌, none, some, ok, length, if◌then◌else◌, leb}
use rekor.Base.Bytes.{Bytes, bytes_eq, codes}
use rekor.Types.{TypeImpl, EntryImpl, Registry, create_versioned_entry}
use rekor.Types.Submission.{IsSubmittable, create_versioned_entry_iff}
use rekor.Types.VersionMap.{Semver, FactoryMap, set_entry_factory, get_entry_factory}
use rekor.Types.VersionMap.Matching.{IsParsed, Matches, set_get_entry_factory}

-- A type that supports every short version, and whose entries are what was proposed.
abbrev rekord : TypeImpl ℕ Bytes Bytes
rekord = record { is_supported_version = λ v. leb (length v) 5; unmarshal_entry = λ pe. ok pe }

abbrev entries : EntryImpl ℕ Bytes Bytes
entries = record {
  kind = λ _. codes "rekord";
  api_version = λ _. codes "0.0.1";
  insertable = λ _. (true, none);
  canonicalize = λ b. ok b;
  transform = λ b. ok b;
}

abbrev registry : Registry ℕ Bytes Bytes
registry = record {
  type_map = λ kind. if bytes_eq kind (codes "rekord") then some (some rekord) else none;
  allowed_kinds = some (codes "rekord" ∷ codes "dsse" ∷ []);
}

create_versioned_entry_iff_example :
    (create_versioned_entry entries registry (some (codes "entry")) ≡ ok (codes "entry"))
    ↔ IsSubmittable entries registry (codes "entry") (codes "entry")
create_versioned_entry_iff_example =
    create_versioned_entry_iff entries registry (codes "entry") (codes "entry")

-- A version is its length, and a range the versions that are not longer.
abbrev by_length : Semver ℕ ℕ
by_length = record { parse = λ s. ok (length s); parse_range = λ s. ok (λ v. leb v (length s)) }

abbrev one_factory : FactoryMap ℕ
one_factory = (codes "1", 7) ∷ []

set_get_entry_factory_example :
    (n : FactoryMap ℕ) × (f : ℕ) × (set_entry_factory by_length (codes "0.0.1") 9 one_factory
      ≡ ok n)
    × IsParsed by_length n
    × (get_entry_factory by_length n (codes "1.2") ≡ ok f)
    × Matches by_length 3 f n
set_get_entry_factory_example =
    set_get_entry_factory by_length (codes "0.0.1") 9 one_factory (codes "1.2") 3 (λ v. leb v 5)
      ((_, refl), tt) refl refl refl
