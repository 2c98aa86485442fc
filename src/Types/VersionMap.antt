-- ===== src/Types/VersionMap.antt =====
-- pkg/types/versionmap.go and types.go: the factories of the versions of one kind. Parsing versions and
-- ranges is of the semver package; a factory is a value of `F`.
pub mod Matching
use rekor.Base.{
  ℕ, Bool, true, false, List, [], ◌∷◌, Option, none, some, if◌then◌else◌, length, map, Result, ok,
  err, ◌>>=◌, wrap, ◌||◌,
}
use rekor.Base.Bytes.{Bytes, bytes_eq}
use rekor.Types.{contains}

pub record Semver (E V : Type 0) : Type 0 where
  pub parse : Bytes → Result E V
  pub parse_range : Bytes → Result E (V → Bool)

pub data VersionError (E : Type 0) : Type 0 where
  bad_version bad_range : E → VersionError E
  unable_to_locate : Bytes → VersionError E

-- SemVerEntryFactoryMap: the map from constraints, in the order in which an iteration takes them, which
-- Go leaves open.
abbrev pub FactoryMap : Type 0 → Type 0
FactoryMap F = List (Bytes × F)

abbrev pub new_factory_map : {F : Type 0} → FactoryMap F
new_factory_map = []

pub count : {F : Type 0} → FactoryMap F → ℕ
count m = length m

-- `s.factoryMap[constraint] = ef`
unfoldable pub put : {F : Type 0} → Bytes → F → FactoryMap F → FactoryMap F
put constraint ef [] = (constraint, ef) ∷ []
put constraint ef ((k, v) ∷ m) =
    let rest = put constraint ef m in
    if bytes_eq k constraint then (constraint, ef) ∷ m else (k, v) ∷ rest

module _ {E V F : Type 0} (semver : Semver E V) where
  abbrev pub first_match : Bool → F → Result (VersionError E) F → Result (VersionError E) F
  first_match true v rest = ok v
  first_match false v rest = rest

  -- The first factory whose range has the version.
  unfoldable pub factory_in : Bytes → V → FactoryMap F → Result (VersionError E) F
  factory_in version to_match [] = err (unable_to_locate version)
  factory_in version to_match ((k, v) ∷ m) = wrap bad_range (semver.parse_range k) >>= λ in_range.
      first_match (in_range to_match) v (factory_in version to_match m)

  unfoldable pub get_entry_factory : FactoryMap F → Bytes → Result (VersionError E) F
  get_entry_factory m version =
      wrap bad_version (semver.parse version) >>= λ to_match. factory_in version to_match m

  abbrev pub put_if :
      Bytes → F → FactoryMap F → Result E (V → Bool) → Result (VersionError E) (FactoryMap F)
  put_if constraint ef m (err e) = err (bad_range e)
  put_if constraint ef m (ok _) = ok (put constraint ef m)

  unfoldable pub set_entry_factory :
      Bytes → F → FactoryMap F → Result (VersionError E) (FactoryMap F)
  set_entry_factory constraint ef m = put_if constraint ef m (semver.parse_range constraint)

pub supported_versions : {F : Type 0} → FactoryMap F → List Bytes
supported_versions m = map (λ e. e.0) m

pub is_supported_version : {F : Type 0} → FactoryMap F → Bytes → Bool
is_supported_version m version = contains version (supported_versions m)
