-- ===== src/Types/Submission.antt =====
-- Which proposed entries CreateVersionedEntry of pkg/types/entries.go takes.
use rekor.Base.{
  ◌≡◌, refl, ap, sym, ◌∙◌, subst, ◌↔◌, true, Option, none, some, ok, wrap-eq-ok, >>=-eq-ok,
  ok-injective, guard, guard-ok,
}
use rekor.Base.Bytes.{Bytes}
use rekor.Types.{
  TypeImpl, EntryImpl, Registry, unmarshalling, kind_not_enabled, version_not_supported,
  not_insertable, unmarshal_as, check_version, check_insertable, is_kind_allowed_for_submission,
  unmarshal_entry, create_versioned_entry,
}

module _ {E X Y : Type 0} (i : EntryImpl E X Y) (r : Registry E X Y) where
  -- The type of the kind makes the entry, which may be inserted; the kind is enabled, and the type
  -- supports the version of the entry.
  abbrev pub IsSubmittable : X → Y → Type 0
  IsSubmittable pe y =
      (t : TypeImpl E X Y) × (r.type_map (i.kind pe) ≡ some (some t))
      × (t.unmarshal_entry pe ≡ ok y)
      × (is_kind_allowed_for_submission r (i.kind pe) ≡ true)
      × (t.is_supported_version (i.api_version y) ≡ true)
      × ((i.insertable y).0 ≡ true)

  unmarshal_as-ok :
      (kind : Bytes) (o : Option (Option (TypeImpl E X Y))) (pe : X) {y : Y}
      → unmarshal_as kind o pe ≡ ok y
      → (t : TypeImpl E X Y) × (o ≡ some (some t)) × (t.unmarshal_entry pe ≡ ok y)
  unmarshal_as-ok kind none pe h = cc
  unmarshal_as-ok kind (some none) pe h = cc
  unmarshal_as-ok kind (some (some t)) pe h =
      (t, refl, wrap-eq-ok unmarshalling (t.unmarshal_entry pe) h)

  IsSubmittable-if :
      (pe : X) (y : Y) → create_versioned_entry i r (some pe) ≡ ok y → IsSubmittable pe y
  unfolding create_versioned_entry unmarshal_entry
  IsSubmittable-if pe y h =
      let kind = i.kind pe in
      let (ei, made, h1) = >>=-eq-ok (unmarshal_as kind (r.type_map kind) pe) _ h in
      let (_, enabled, h2) =
        >>=-eq-ok (guard (is_kind_allowed_for_submission r kind) (kind_not_enabled kind)) _ h1 in
      let (_, supported, h3) =
        >>=-eq-ok (check_version kind (i.api_version ei) (r.type_map kind)) _ h2 in
      let (_, inserted, h4) = >>=-eq-ok (check_insertable (i.insertable ei)) _ h3 in
      let (t, there, unmarshalled) = unmarshal_as-ok kind (r.type_map kind) pe {y = ei} made in
      subst (IsSubmittable pe) (ok-injective h4) (
        t,
        there,
        unmarshalled,
        guard-ok (is_kind_allowed_for_submission r kind) (kind_not_enabled kind) enabled,
        guard-ok (t.is_supported_version (i.api_version ei))
            (version_not_supported kind (i.api_version ei))
            (sym (ap (check_version kind (i.api_version ei)) there) ∙ supported),
        guard-ok (i.insertable ei).0 (not_insertable (i.insertable ei).1) inserted,
      )

  created_if : (pe : X) (y : Y) → IsSubmittable pe y → create_versioned_entry i r (some pe) ≡ ok y
  unfolding create_versioned_entry unmarshal_entry
  created_if pe y (t, there, made, enabled, supported, inserted) =
      rw (there, made, enabled, supported, inserted) refl

  -- CreateVersionedEntry gives the entry of a proposed entry exactly if the type of its kind makes it,
  -- the kind is enabled for submission, the type supports its version, and it may be inserted.
  pub create_versioned_entry_iff :
      (pe : X) (y : Y) → (create_versioned_entry i r (some pe) ≡ ok y) ↔ IsSubmittable pe y
  create_versioned_entry_iff pe y = (IsSubmittable-if pe y, created_if pe y)
