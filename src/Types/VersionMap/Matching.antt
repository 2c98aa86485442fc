-- ===== src/Types/VersionMap/Matching.antt =====
-- What GetEntryFactory of pkg/types/versionmap.go finds.
use rekor.Base.{
  ◌≡◌, refl, ap, sym, ◌∙◌, ◌⊎◌, inl, inr, Bool, true, Bool-cases, [], ◌∷◌, ok, wrap, wrap-eq-ok,
  >>=-eq-ok, ok-injective, All,
}
use rekor.Base.Bytes.{Bytes, bytes_eq}
use rekor.Types.VersionMap.{
  Semver, bad_range, FactoryMap, put, factory_in, get_entry_factory, set_entry_factory,
}

module _ {E V F : Type 0} (semver : Semver E V) where
  -- Every constraint of the map can be parsed.
  abbrev pub IsParsed : FactoryMap F → Type 0
  IsParsed m = All (λ e. (in_range : V → Bool) × (semver.parse_range e.0 ≡ ok in_range)) m

  -- The factory stands in the map, under a range with the version.
  abbrev pub Matches : V → F → FactoryMap F → Type 0
  Matches v f [] = ⊥
  Matches v f ((k, g) ∷ m) =
      ((in_range : V → Bool) × (semver.parse_range k ≡ ok in_range) × (in_range v ≡ true) × (g ≡ f))
      ⊎ Matches v f m

  put-IsParsed :
      (constraint : Bytes) (ef : F) (m : FactoryMap F) (in_range : V → Bool)
      → semver.parse_range constraint ≡ ok in_range
      → IsParsed m
      → IsParsed (put constraint ef m)
  unfolding put
  put-IsParsed constraint ef [] in_range e _ = ((in_range, e), tt)
  put-IsParsed constraint ef ((k, v) ∷ m) in_range e (h, hs) =
      elim (Bool-cases (bytes_eq k constraint)) [
        | inl y ↦ rw y ((in_range, e), hs)
        | inr n ↦ rw n (h, put-IsParsed constraint ef m in_range e hs)
      ]

  put-Matches :
      (constraint : Bytes) (ef : F) (m : FactoryMap F) (in_range : V → Bool) (v : V)
      → semver.parse_range constraint ≡ ok in_range
      → in_range v ≡ true
      → Matches v ef (put constraint ef m)
  unfolding put
  put-Matches constraint ef [] in_range v e h = inl (in_range, e, h, refl)
  put-Matches constraint ef ((k, g) ∷ m) in_range v e h =
      elim (Bool-cases (bytes_eq k constraint)) [
        | inl y ↦ rw y (inl (in_range, e, h, refl))
        | inr n ↦ rw n (inr (put-Matches constraint ef m in_range v e h))
      ]

  factory_in_sound :
      (version : Bytes) (v : V) (m : FactoryMap F) {f : F}
      → factory_in semver version v m ≡ ok f
      → Matches v f m
  unfolding factory_in
  factory_in_sound version v [] h = cc
  factory_in_sound version v ((k, g) ∷ m) {f} h =
      let (in_range, e, h1) = >>=-eq-ok (wrap bad_range (semver.parse_range k)) _ h in
      elim (Bool-cases (in_range v)) [
        | inl y ↦
            inl (
              in_range,
              wrap-eq-ok bad_range (semver.parse_range k) e,
              y,
              ok-injective (rw y at h1),
            )
        | inr n ↦ inr (factory_in_sound version v m {f = f} (rw n at h1))
      ]

  factory_in_total :
      (version : Bytes) (v : V) (m : FactoryMap F) (f : F)
      → IsParsed m
      → Matches v f m
      → (g : F) × (factory_in semver version v m ≡ ok g)
  unfolding factory_in
  factory_in_total version v [] f h a = absurd a
  factory_in_total version v ((k, g) ∷ m) f ((in_range, e), hs) a = elim (Bool-cases (in_range v)) [
    | inl y ↦ (g, rw (e, y) refl)
    | inr n ↦ elim a [
      | inl (other, e2, y, _) ↦
          absurd (cc (n, y, ap (λ x. x v) (ok-injective {a = in_range} {b = other} (sym e ∙ e2))))
      | inr a2 ↦ let (found, q) = factory_in_total version v m f hs a2 in (found, rw (e, n) q)
    ]
  ]

  -- A map in which every constraint can be parsed stays one when SetEntryFactory adds to it, and then
  -- GetEntryFactory finds a factory for every version in the new range, which stands in the map
  -- under a range with that version.
  pub set_get_entry_factory :
      (constraint : Bytes) (ef : F) (m : FactoryMap F) (version : Bytes) (v : V)
      (in_range : V → Bool)
      → IsParsed m
      → semver.parse version ≡ ok v
      → semver.parse_range constraint ≡ ok in_range
      → in_range v ≡ true
      → (n : FactoryMap F) × (f : F) × (set_entry_factory semver constraint ef m ≡ ok n)
        × IsParsed n
        × (get_entry_factory semver n version ≡ ok f)
        × Matches v f n
  unfolding set_entry_factory get_entry_factory
  set_get_entry_factory constraint ef m version v in_range parsed its range h =
      let n = put constraint ef m in
      let all = put-IsParsed constraint ef m in_range range parsed in
      let (f, q) =
        factory_in_total version v n ef all (put-Matches constraint ef m in_range v range h) in
      (n, f, rw range refl, all, rw its q, factory_in_sound version v n {f = f} q)
