-- ===== src/Sharding/Ranges/Building/Built.antt =====
-- What the shards satisfy once NewLogRanges of pkg/sharding/ranges.go has made them.
use rekor.Base.{
  wrap, wrap-eq-ok, ℕ, suc, ◌<◌, ◌≡◌, ◌≢◌, refl, ap, sym, ◌∙◌, List, [], ◌∷◌, Option, none, some,
  All, Bool-cases, inl, inr, subst, ok, >>=-eq-ok, ok-injective, length, map,
}
use mathlib.Core.Path.{ap₂}
use rekor.Base.Bytes.{Bytes}
use rekor.Base.Int64.{ℤ, pos, int_eq, int_eq_iff}
use rekor.Signer.{SigningConfig, Providers, is_unset, new_multiple_from_config}
use rekor.Signer.Total.{new_multiple-length}
use rekor.Sharding.Ranges.{LogRange, LogRanges, get_inactive, shards_or_none}
use rekor.Sharding.Ranges.Building.{
  creating_signers, getting_public_key, marshalling_public_key, getting_key_identity,
  updating_range, log_ranges_from_path_failed, creating_active_range, Keys, Files, pems_and_ids,
  first_or_panic, initialize_range, with_default, fresh_range, initialize_ranges, initialize_all,
  inactive_from, new_log_ranges, log_ranges_from_path,
}

abbrev pub first {ℓ} : {A : Type ℓ} → List A → Option A
first [] = none
first (x ∷ _) = some x

-- Of each signer, at its place, the PEM text of its public key and the identity of that key.
abbrev pub Describe : {E S P : Type 0} → Keys E S P → List S → List Bytes → List Bytes → Type 0
Describe k [] [] [] = Unit {0}
Describe {P} k (s ∷ ss) (pem ∷ pems) (id ∷ ids) =
    (key : P) × (k.public_key_of s ≡ ok key)
    × (k.to_pem key ≡ ok pem)
    × (k.key_id key ≡ ok id)
    × Describe k ss pems ids
Describe k _ _ _ = ⊥

-- A shard has the signers of its configuration, the texts of the key of each, and those at the place 0
-- are the primary ones.
pub record IsInitialized {E S K P : Type 0} (p : Providers E S K) (k : Keys E S P) (r : LogRange S)
    : Type 0 where
  pub from_config : new_multiple_from_config p r.signing_config ≡ ok r.signers
  pub described : Describe k r.signers r.pem_pub_keys r.log_ids
  pub has_signer : 0 < length r.signers
  pub primary_signer : r.signer ≡ first r.signers
  pub primary_pem : some r.pem_pub_key ≡ first r.pem_pub_keys
  pub primary_id : some r.log_id ≡ first r.log_ids

module _ {E S K P : Type 0} (p : Providers E S K) (k : Keys E S P) where
  pems_and_ids-Describe :
      (i : ℕ) (ss : List S) {o : List Bytes × List Bytes}
      → pems_and_ids p k i ss ≡ ok o
      → Describe k ss o.0 o.1
  unfolding pems_and_ids
  pems_and_ids-Describe i [] {o} e = subst (λ o. Describe k [] o.0 o.1) (ok-injective e) tt
  pems_and_ids-Describe i (s ∷ ss) {o} e =
      let (key, had, e1) = >>=-eq-ok (wrap (getting_public_key i) (k.public_key_of s)) _ e in
      let (pem, text, e2) = >>=-eq-ok (wrap (marshalling_public_key i) (k.to_pem key)) _ e1 in
      let (id, identity, e3) = >>=-eq-ok (wrap (getting_key_identity i) (k.key_id key)) _ e2 in
      let (x, more, e4) = >>=-eq-ok (pems_and_ids p k (suc i) ss) _ e3 in
      subst (λ o. Describe k (s ∷ ss) o.0 o.1) (ok-injective {a = (pem ∷ x.0, id ∷ x.1)} e4)
        (
          key,
          wrap-eq-ok (getting_public_key i) (k.public_key_of s) had,
          wrap-eq-ok (marshalling_public_key i) (k.to_pem key) text,
          wrap-eq-ok (getting_key_identity i) (k.key_id key) identity,
          pems_and_ids-Describe (suc i) ss more,
        )

  first_or_panic-first :
      {A : Type 0} (xs : List A) {x : A} → first_or_panic p k xs ≡ ok x → some x ≡ first xs
  first_or_panic-first [] e = cc
  first_or_panic-first (x ∷ xs) e = ap some (sym (ok-injective e))

  -- A range that is initialized keeps its tree id and its configuration.
  initialize_range_lem :
      (r : LogRange S) {q : LogRange S}
      → initialize_range p k r ≡ ok q
      → IsInitialized p k q × (q.tree_id ≡ r.tree_id) × (q.signing_config ≡ r.signing_config)
  unfolding initialize_range
  initialize_range_lem r {q} e = elim (Bool-cases (is_unset r.signing_config)) [
    | inl unset ↦ cc (rw unset at e)
    | inr given ↦
        let (ss, made, e1) =
          >>=-eq-ok (wrap creating_signers (new_multiple_from_config p r.signing_config)) _
            (rw given at e) in
        let (s, hs, e2) = >>=-eq-ok (first_or_panic p k ss) _ e1 in
        let (o, texts, e3) = >>=-eq-ok (pems_and_ids p k 0 ss) _ e2 in
        let (pem, hp, e4) = >>=-eq-ok (first_or_panic p k o.0) _ e3 in
        let (id, hi, e5) = >>=-eq-ok (first_or_panic p k o.1) _ e4 in
        subst
          (λ q.
            IsInitialized p k q × (q.tree_id ≡ r.tree_id) × (q.signing_config ≡ r.signing_config))
          (ok-injective e5)
          (
            record {
              from_config = wrap-eq-ok _ _ made;
              described = pems_and_ids-Describe 0 ss texts;
              has_signer = (new_multiple-length p r.signing_config (wrap-eq-ok _ _ made)).1;
              primary_signer = first_or_panic-first ss hs;
              primary_pem = first_or_panic-first o.0 hp;
              primary_id = first_or_panic-first o.1 hi;
            },
            refl,
            refl,
          )
  ]

  with_default-tree_id :
      (sc : SigningConfig) (r : LogRange S) → (with_default p k sc r).tree_id ≡ r.tree_id
  with_default-tree_id sc r = elim (Bool-cases (is_unset r.signing_config)) [
    | inl unset ↦ rw unset refl
    | inr given ↦ rw given refl
  ]

  initialize_ranges_lem :
      (sc : SigningConfig) (rs : List (LogRange S)) {qs : List (LogRange S)}
      → initialize_ranges p k sc rs ≡ ok qs
      → All (IsInitialized p k) qs × (map (λ q. q.tree_id) qs ≡ map (λ r. r.tree_id) rs)
  unfolding initialize_ranges
  initialize_ranges_lem sc [] e =
      subst (λ qs. All (IsInitialized p k) qs × (map (λ q. q.tree_id) qs ≡ [])) (ok-injective e)
        (tt, refl)
  initialize_ranges_lem sc (r ∷ rs) e =
      let (q, made, e1) =
        >>=-eq-ok (wrap (updating_range (pos 0)) (initialize_range p k (with_default p k sc r))) _
          e in
      let (qs, others, e2) = >>=-eq-ok (initialize_ranges p k sc rs) _ e1 in
      let (h, t, _) = initialize_range_lem (with_default p k sc r) {q = q} (wrap-eq-ok _ _ made) in
      let (hs, ts) = initialize_ranges_lem sc rs {qs = qs} others in
      subst
        (λ qs.
          All (IsInitialized p k) qs
          × (map (λ q. q.tree_id) qs ≡ r.tree_id ∷ map (λ x. x.tree_id) rs))
        (ok-injective {a = q ∷ qs} e2)
        ((h, hs), ap₂ (λ x xs. x ∷ xs) (t ∙ with_default-tree_id sc r) ts)

  initialize_all_lem :
      (sc : SigningConfig) (o : Option (List (LogRange S))) {u : Option (List (LogRange S))}
      → initialize_all p k sc o ≡ ok u
      → All (IsInitialized p k) (shards_or_none u)
  initialize_all_lem sc none e =
      subst (λ u. All (IsInitialized p k) (shards_or_none u)) (ok-injective e) tt
  initialize_all_lem sc (some rs) e =
      let (qs, made, e1) = >>=-eq-ok (initialize_ranges p k sc rs) _ e in
      subst (λ u. All (IsInitialized p k) (shards_or_none u)) (ok-injective {a = some qs} e1)
        (initialize_ranges_lem sc rs {qs = qs} made).0

  inactive_from_lem :
      (f : Files E S) (sc : SigningConfig) (path : Bytes) {u : Option (List (LogRange S))}
      → inactive_from p k f sc path ≡ ok u
      → All (IsInitialized p k) (shards_or_none u)
  inactive_from_lem f sc [] e =
      subst (λ u. All (IsInitialized p k) (shards_or_none u)) (ok-injective e) tt
  inactive_from_lem f sc (c ∷ path) e =
      let (o, _, made) =
        >>=-eq-ok (wrap log_ranges_from_path_failed (log_ranges_from_path p k f (c ∷ path))) _ e in
      initialize_all_lem sc o made

  -- If NewLogRanges succeeds, the active shard has the tree id and the configuration that it was given,
  -- the id is not 0, and every shard, active or not, has the signers that its configuration makes, one at
  -- least, at the place of each the PEM text and the identity of its public key, and those of the first
  -- as the primary ones.
  pub new_log_ranges-IsInitialized :
      (f : Files E S) (path : Bytes) (id : ℤ) (sc : SigningConfig) {l : LogRanges S}
      → new_log_ranges p k f path id sc ≡ ok l
      → (l.active.tree_id ≡ id)
        × (id ≢ pos 0)
        × (l.active.signing_config ≡ sc)
        × IsInitialized p k l.active
        × All (IsInitialized p k) (get_inactive l)
  unfolding new_log_ranges
  new_log_ranges-IsInitialized f path id sc {l} e = elim (Bool-cases (int_eq id (pos 0))) [
    | inl unset ↦ cc (rw unset at e)
    | inr other ↦
        let (active, made, e1) =
          >>=-eq-ok (wrap (creating_active_range id) (initialize_range p k (fresh_range p k id sc)))
            _ (rw other at e) in
        let (u, others, e2) = >>=-eq-ok (inactive_from p k f sc path) _ e1 in
        let (h, t, c) =
          initialize_range_lem (fresh_range p k id sc) {q = active} (wrap-eq-ok _ _ made) in
        subst
          (λ l.
            (l.active.tree_id ≡ id)
            × (id ≢ pos 0)
            × (l.active.signing_config ≡ sc)
            × IsInitialized p k l.active
            × All (IsInitialized p k) (get_inactive l))
          (ok-injective {a = record { inactive = u; active = active }} e2)
          (
            t,
            λ q. cc ((int_eq_iff id (pos 0)).1 q, other),
            c,
            h,
            inactive_from_lem f sc path others,
          )
  ]
