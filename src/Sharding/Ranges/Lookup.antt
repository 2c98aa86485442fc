-- ===== src/Sharding/Ranges/Lookup.antt =====
-- Shards and their keys by tree id: pkg/sharding/ranges.go and log_index.go.
use rekor.Base.{
  ℕ, ◌+◌, ◌^◌, ◌<◌, ◌≡◌, ◌≢◌, refl, ap, sym, ◌∙◌, true, false, List, [], ◌∷◌, none, some, arith,
  Bool-cases, inl, inr, ◌⊎◌, subst, ok, err, Option-cases, ok-injective, some-injective,
}
use rekor.Base.Bytes.{Bytes}
use rekor.Base.Int64.{ℤ, pos, negsuc, int_eq, int_eq_iff, ◌+₆₄◌}
use rekor.Golib.Num.{parse_int, format_uint}
use rekor.Golib.Num.RoundTrip.{parse_int-format}
use rekor.Sharding.Ranges.{
  LogRange, LogRanges, get_inactive, find_tree, or_fail, no_log_range, no_public_key, virtual_from,
  virtual_log_index, get_log_range_by_tree_id, public_key, public_keys, key_of_tree, field_or_fail,
}
use rekor.Sharding.Ranges.Steps.{
  size_of, sizes, IsSound, virtual_here, virtual_later, virtual_active,
}
use rekor.Sharding.Ranges.Indexing.{IsConsistent, virtual_log_index_lem}

module _ {S : Type 0} where
  find_tree-tree_id :
      (t : ℤ) (rs : List (LogRange S)) {r : LogRange S} → find_tree t rs ≡ some r → r.tree_id ≡ t
  find_tree-tree_id t [] e = cc
  find_tree-tree_id t (s ∷ rs) {r} e = elim (Bool-cases (int_eq s.tree_id t)) [
    | inl q ↦ sym (ap (λ x. x.tree_id) (some-injective (rw q at e))) ∙ (int_eq_iff s.tree_id t).0 q
    | inr q ↦ find_tree-tree_id t rs (rw q at e)
  ]

  -- No inactive shard has the id.
  virtual-none :
      (active : LogRange S) (rs : List (LogRange S)) (t j a : ℤ)
      → int_eq active.tree_id t ≡ false
      → find_tree t rs ≡ none
      → virtual_from a j t active rs ≡ negsuc 0
  unfolding virtual_from
  virtual-none active [] t j a h e = rw h refl
  virtual-none active (r ∷ rs) t j a h e = elim (Bool-cases (int_eq r.tree_id t)) [
    | inl q ↦ ground (arith, q)
    | inr q ↦ rw q (virtual-none active rs t j (a +₆₄ r.tree_length) h (rw q at e))
  ]

  known_later :
      (active r : LogRange S) (rs : List (LogRange S)) (t : ℤ)
      → int_eq r.tree_id t ≡ false
      → (int_eq active.tree_id t ≡ true) ⊎ (find_tree t (r ∷ rs) ≢ none)
      → (int_eq active.tree_id t ≡ true) ⊎ (find_tree t rs ≢ none)
  known_later active r rs t q (inl h) = inl h
  known_later active r rs t q (inr h) = inr (λ e. h (rw q e))

  shard_missing :
      (active : LogRange S) (rs : List (LogRange S)) (t : ℤ)
      → find_tree t (active ∷ rs) ≡ none
      → (int_eq active.tree_id t ≡ false) × (find_tree t rs ≡ none)
  shard_missing active rs t e = elim (Bool-cases (int_eq active.tree_id t)) [
    | inl q ↦ cc (rw q at e)
    | inr q ↦ (q, rw q at e)
  ]

  virtual-known :
      (active : LogRange S) (rs : List (LogRange S)) (t : ℤ) (j a : ℕ)
      → IsSound active.tree_id rs
      → (int_eq active.tree_id t ≡ true) ⊎ (find_tree t rs ≢ none)
      → a + sizes rs + j < 2 ^ 63
      → (n : ℕ) × (virtual_from (pos a) (pos j) t active rs ≡ pos n)
  virtual-known active [] t j a _ (inl h) b = (
    a + j,
    subst (λ u. virtual_from (pos a) (pos j) u active [] ≡ pos (a + j))
        ((int_eq_iff active.tree_id t).0 h) (virtual_active active a j (omega arith)),
  )
  virtual-known active [] t j a _ (inr h) b = absurd (h refl)
  virtual-known active (r ∷ rs) t j a (l, d, f, s) h b = elim (Bool-cases (int_eq r.tree_id t)) [
    | inl q ↦ (a + j, virtual_here active r rs t a j q (omega arith))
    | inr q ↦
        let k = size_of r.tree_length in
        let (n, v) =
          virtual-known active rs t j (a + k) s (known_later active r rs t q h) (omega arith) in
        (n, virtual_later active r rs t (pos j) a k q l (omega arith) ∙ v)
  ]

  shard_found :
      (active : LogRange S) (rs : List (LogRange S)) (t : ℤ) (r : LogRange S)
      → find_tree t (active ∷ rs) ≡ some r
      → (int_eq active.tree_id t ≡ true) ⊎ (find_tree t rs ≢ none)
  shard_found active rs t r e = elim (Bool-cases (int_eq active.tree_id t)) [
    | inl q ↦ inl q
    | inr q ↦ inr (λ missing. cc (rw q at e, missing))
  ]

  -- Of consistent shards, with a leaf index in range: a tree id either finds a shard with that id,
  -- and then its leaf has a virtual index that is not negative, or is refused, and then the virtual
  -- index is -1.
  pub get_log_range-virtual :
      (l : LogRanges S) (t : ℤ) (j : ℕ)
      → IsConsistent l
      → sizes (get_inactive l) + j < 2 ^ 63
      → ((r : LogRange S) × (get_log_range_by_tree_id l t ≡ ok r)
          × (r.tree_id ≡ t)
          × ((n : ℕ) × (virtual_log_index (pos j) t l ≡ pos n)))
        ⊎ ((get_log_range_by_tree_id l t ≡ err (no_log_range t))
            × (virtual_log_index (pos j) t l ≡ negsuc 0))
  unfolding get_log_range_by_tree_id
  get_log_range-virtual l t j (s, total) b =
      elim (Option-cases (find_tree t (l.active ∷ get_inactive l))) [
        | inr (r, e) ↦
            let (n, v) =
              virtual-known l.active (get_inactive l) t j 0 s
                (shard_found l.active (get_inactive l) t r e) (omega arith) in
            inl (
              r,
              ap (λ o. or_fail o (no_log_range t)) e,
              find_tree-tree_id t (l.active ∷ get_inactive l) e,
              (n, virtual_log_index_lem l t j (omega arith) ∙ v),
            )
        | inl e ↦
            let (h, g) = shard_missing l.active (get_inactive l) t e in
            inr (
              ap (λ o. or_fail o (no_log_range t)) e,
              virtual_log_index_lem l t j (omega arith)
                  ∙ virtual-none l.active (get_inactive l) t (pos j) (pos 0) h g,
            )
      ]

  key_found :
      {A : Type 0} (f : LogRange S → A) (l : LogRanges S) (s : Bytes) (t : ℤ) {r : LogRange S}
      → get_log_range_by_tree_id l t ≡ ok r
      → key_of_tree f l s (some t) ≡ ok (f r)
  unfolding get_log_range_by_tree_id
  key_found f l s t {r} e = elim (Option-cases (find_tree t (l.active ∷ get_inactive l))) [
    | inl q ↦ cc (ap (λ o. or_fail o (no_log_range t)) q, e)
    | inr (x, q) ↦
        ap (λ o. field_or_fail f o (no_public_key t)) q
        ∙ ap (λ y. ok (f y)) (ok-injective (sym (ap (λ o. or_fail o (no_log_range t)) q) ∙ e))
  ]

  keys_by_text :
      (l : LogRanges S) (s : Bytes) (t : ℤ) {r : LogRange S}
      → parse_int 10 s ≡ some t
      → get_log_range_by_tree_id l t ≡ ok r
      → (public_key l s ≡ ok r.pem_pub_key) × (public_keys l s ≡ ok r.pem_pub_keys)
  unfolding public_key public_keys
  keys_by_text l [] t p e = unfold parse_int in cc
  keys_by_text l (c ∷ cs) t p e = (
    ap (key_of_tree (λ r. r.pem_pub_key) l (c ∷ cs)) p
        ∙ key_found (λ r. r.pem_pub_key) l (c ∷ cs) t e,
    ap (key_of_tree (λ r. r.pem_pub_keys) l (c ∷ cs)) p
        ∙ key_found (λ r. r.pem_pub_keys) l (c ∷ cs) t e,
  )

  -- With the decimal text of a tree id, which is not negative, the keys are those of the shard that
  -- the tree id finds.
  pub public_keys-get_log_range :
      (l : LogRanges S) (n : ℕ) (r : LogRange S)
      → n < 2 ^ 63
      → get_log_range_by_tree_id l (pos n) ≡ ok r
      → (public_key l (format_uint 10 n) ≡ ok r.pem_pub_key)
        × (public_keys l (format_uint 10 n) ≡ ok r.pem_pub_keys)
  public_keys-get_log_range l n r b e =
      keys_by_text l (format_uint 10 n) (pos n) (parse_int-format 10 0 n (inl refl) b) e
