-- ===== src/Types.antt =====
-- pkg/types: the kinds of entries with their versions, and which entries may be submitted. A proposed
-- entry is a value of `X`, an entry one of `Y`; their packages are parameters.
pub mod VersionMap
pub mod Submission
mod Examples
use rekor.Base.{
  Bool, true, false, List, [], ◌∷◌, Option, none, some, Result, ok, err, ◌>>=◌, wrap, guard, ◌||◌,
}
use rekor.Base.Bytes.{Bytes, bytes_eq}

-- TypeImpl, as far as it is called here.
pub record TypeImpl (E X Y : Type 0) : Type 0 where
  pub is_supported_version : Bytes → Bool
  pub unmarshal_entry : X → Result E Y

-- What the packages of entries do; Insertable gives an answer and an error.
pub record EntryImpl (E X Y : Type 0) : Type 0 where
  pub kind : X → Bytes
  pub api_version : Y → Bytes
  pub insertable : Y → Bool × Option E
  pub canonicalize : Y → Result E Bytes
  pub transform : Bytes → Result E Bytes

-- TypeMap and allowedKindsForSubmission: a constructor may give nil, and the set may not be there.
pub record Registry (E X Y : Type 0) : Type 0 where
  pub type_map : Bytes → Option (Option (TypeImpl E X Y))
  pub allowed_kinds : Option (List Bytes)

-- `panic` is a call of a nil pointer's method.
pub data Error (E : Type 0) : Type 0 where
  nil_entry : Error E
  generating_object unmarshal_unknown_kind unknown_kind : Bytes → Error E
  unmarshalling : E → Error E
  kind_not_enabled : Bytes → Error E
  version_not_supported : Bytes → Bytes → Error E
  not_insertable : Option E → Error E
  panic : Error E

unfoldable pub contains : Bytes → List Bytes → Bool
contains k [] = false
contains k (j ∷ js) = bytes_eq j k || contains k js

abbrev pub in_set : Bytes → Option (List Bytes) → Bool
in_set kind none = true
in_set kind (some kinds) = contains kind kinds

abbrev pub check_insertable : {E : Type 0} → Bool × Option E → Result (Error E) (Unit {0})
check_insertable (is_insertable, e) = guard is_insertable (not_insertable e)

module _ {E X Y : Type 0} where
  unfoldable pub set_allowed_kinds_for_submission : List Bytes → Registry E X Y → Registry E X Y
  set_allowed_kinds_for_submission kinds r = record r { allowed_kinds = some kinds }

  unfoldable pub is_kind_allowed_for_submission : Registry E X Y → Bytes → Bool
  is_kind_allowed_for_submission r kind = in_set kind r.allowed_kinds

  abbrev pub unmarshal_as : Bytes → Option (Option (TypeImpl E X Y)) → X → Result (Error E) Y
  unmarshal_as kind none pe = err (unmarshal_unknown_kind kind)
  unmarshal_as kind (some none) pe = err (generating_object kind)
  unmarshal_as kind (some (some t)) pe = wrap unmarshalling (t.unmarshal_entry pe)

  abbrev pub check_version :
      Bytes → Bytes → Option (Option (TypeImpl E X Y)) → Result (Error E) (Unit {0})
  check_version kind version none = err (unknown_kind kind)
  check_version kind version (some none) = err panic
  check_version kind version (some (some t)) =
      guard (t.is_supported_version version) (version_not_supported kind version)

module _ {E X Y : Type 0} (i : EntryImpl E X Y) (r : Registry E X Y) where
  unfoldable pub unmarshal_entry : Option X → Result (Error E) Y
  unmarshal_entry none = err nil_entry
  unmarshal_entry (some pe) = unmarshal_as (i.kind pe) (r.type_map (i.kind pe)) pe

  abbrev pub kind_of : Option X → Bytes
  kind_of none = []
  kind_of (some pe) = i.kind pe

  unfoldable pub create_versioned_entry : Option X → Result (Error E) Y
  create_versioned_entry pe = do
    ei ← unmarshal_entry pe
    _ ← guard (is_kind_allowed_for_submission r (kind_of pe)) (kind_not_enabled (kind_of pe))
    _ ← check_version (kind_of pe) (i.api_version ei) (r.type_map (kind_of pe))
    _ ← check_insertable (i.insertable ei)
    ok ei

  pub canonicalize_entry : Y → Result E Bytes
  canonicalize_entry entry = i.canonicalize entry >>= i.transform
