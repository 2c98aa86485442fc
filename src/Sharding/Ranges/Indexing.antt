-- ===== src/Sharding/Ranges/Indexing.antt =====
-- Indexes through the shards, there and back: pkg/sharding/ranges.go and log_index.go.
use rekor.Base.{
  ℕ, ◌+◌, ◌-◌, ◌^◌, ◌≤◌, ◌<◌, ◌≡◌, refl, ap, sym, ◌∙◌, true, false, List, [], ◌∷◌, Option, none,
  some, arith, dec_lt, zero-add, inl, inr, ◌⊎◌, subst,
}
use rekor.Base.Int64.{ℤ, pos, int_eq, ◌+₆₄◌, int_eq_iff, add_in_range, int_eq_refl, int_eq_sym}
use rekor.Sharding.Ranges.{
  LogRange, LogRanges, shards_or_none, get_inactive, resolve_from, resolve_virtual_index,
  virtual_from, virtual_log_index, total_from, total_inactive_length,
}
use rekor.Sharding.Ranges.Steps.{
  size_of, sizes, IsSound, resolved-fresh, resolve_here, resolve_later, virtual_here, virtual_later,
  virtual_active,
}

module _ {S : Type 0} where
  -- The virtual index of a resolved index, with `a` entries in front of the shards of the list.
  virtual-resolve_from :
      (active : LogRange S) (rs : List (LogRange S)) (a n : ℕ)
      → IsSound active.tree_id rs
      → a + sizes rs < 2 ^ 63
      → a + n < 2 ^ 63
      → virtual_from
          (pos a)
          (resolve_from active rs (pos n)).1
          (resolve_from active rs (pos n)).0
          active
          rs
        ≡ pos (a + n)
  virtual-resolve_from active [] a n _ b c = unfold resolve_from in virtual_active active a n c
  virtual-resolve_from active (r ∷ rs) a n (l, d, f, s) b c =
      elim (dec_lt n (size_of r.tree_length)) [
        | yes h ↦
            rw (resolve_here active r rs n (size_of r.tree_length) l h)
              (virtual_here active r rs r.tree_id a n (int_eq_refl r.tree_id) c)
        | no h ↦
            let k = size_of r.tree_length in
            let m : a + k + (n - k) ≡ a + n = omega arith in
            rw (resolve_later active r rs n k l (omega arith) (omega arith)) (
              virtual_later active r rs _ _ a k
                (int_eq_sym r.tree_id (resolve_from active rs (pos (n - k))).0
                  ∙ resolved-fresh active r.tree_id rs (pos (n - k)) d f)
                l (omega arith)
              ∙ virtual-resolve_from active rs (a + k) (n - k) s (omega arith) (omega arith)
              ∙ ap pos m)
      ]

  -- What the shards of a log satisfy: the tree ids differ, the lengths are not negative, and their
  -- sum is an int64.
  abbrev pub IsConsistent : LogRanges S → Type 0
  IsConsistent l = IsSound l.active.tree_id (get_inactive l) × (sizes (get_inactive l) < 2 ^ 63)

  nil_or_empty :
      (o : Option (List (LogRange S))) (active : LogRange S) (t : ℤ) (j : ℕ)
      → j < 2 ^ 63
      → virtual_log_index (pos j) t (record { inactive = o; active = active })
        ≡ virtual_from (pos 0) (pos j) t active (shards_or_none o)
  unfolding virtual_log_index virtual_from
  nil_or_empty none active t j b = rw (add_in_range 0 j (omega arith), zero-add) refl
  nil_or_empty (some rs) active t j b = refl

  -- Whether the inactive shards are a nil slice makes no difference.
  pub virtual_log_index_lem :
      (l : LogRanges S) (t : ℤ) (j : ℕ)
      → j < 2 ^ 63
      → virtual_log_index (pos j) t l ≡ virtual_from (pos 0) (pos j) t l.active (get_inactive l)
  virtual_log_index_lem l = nil_or_empty l.inactive l.active

  -- The shard with the tree id has a leaf `j`; the active shard has no known end.
  abbrev pub HasLeaf : ℤ → ℕ → LogRange S → List (LogRange S) → Type 0
  HasLeaf t j active [] = t ≡ active.tree_id
  HasLeaf t j active (r ∷ rs) =
      ((int_eq r.tree_id t ≡ true) × (j < size_of r.tree_length))
      ⊎ ((int_eq r.tree_id t ≡ false) × HasLeaf t j active rs)

  resolve_from-HasLeaf :
      (active : LogRange S) (rs : List (LogRange S)) (n : ℕ)
      → IsSound active.tree_id rs
      → n < 2 ^ 63
      → (j : ℕ) × (t : ℤ) × (resolve_from active rs (pos n) ≡ (t, pos j))
        × HasLeaf t j active rs
        × (j ≤ n)
  resolve_from-HasLeaf active [] n _ b =
      (n, active.tree_id, unfold resolve_from in refl, refl, omega arith)
  resolve_from-HasLeaf active (r ∷ rs) n (l, d, f, s) b = elim (dec_lt n (size_of r.tree_length)) [
    | yes h ↦ (
      n,
      r.tree_id,
      resolve_here active r rs n (size_of r.tree_length) l h,
      inl (int_eq_refl r.tree_id, h),
      omega arith,
    )
    | no h ↦
        let k = size_of r.tree_length in
        let (j, t, e, has, le) = resolve_from-HasLeaf active rs (n - k) s (omega arith) in
        let other = resolved-fresh active r.tree_id rs (pos (n - k)) d f in
        (
          j,
          t,
          resolve_later active r rs n k l (omega arith) b ∙ e,
          inr (
            int_eq_sym r.tree_id t
                ∙ subst (λ x. int_eq x r.tree_id ≡ false) (ap (λ x. x.0) e) other,
            has,
          ),
          omega arith,
        )
  ]

  virtual-HasLeaf :
      (active : LogRange S) (rs : List (LogRange S)) (t : ℤ) (a j : ℕ)
      → IsSound active.tree_id rs
      → HasLeaf t j active rs
      → a + sizes rs + j < 2 ^ 63
      → (o : ℕ) × (virtual_from (pos a) (pos j) t active rs ≡ pos (a + o))
        × (resolve_from active rs (pos o) ≡ (t, pos j))
        × (o ≤ sizes rs + j)
  virtual-HasLeaf active [] t a j _ has b = (
    j,
    rw has (virtual_active active a j (omega arith)),
    unfold resolve_from in ap (λ u. (u, pos j)) (sym has),
    omega arith,
  )
  virtual-HasLeaf active (r ∷ rs) t a j (l, d, f, s) (inl (e, h)) b = (
    j,
    virtual_here active r rs t a j e (omega arith),
    resolve_here active r rs j (size_of r.tree_length) l h
        ∙ ap (λ u. (u, pos j)) ((int_eq_iff r.tree_id t).0 e),
    omega arith,
  )
  virtual-HasLeaf active (r ∷ rs) t a j (l, d, f, s) (inr (e, has)) b =
      let k = size_of r.tree_length in
      let (o, v, q, le) = virtual-HasLeaf active rs t (a + k) j s has (omega arith) in
      let m : k + o - k ≡ o = omega arith in
      let m2 : a + k + o ≡ a + (k + o) = omega arith in
      (
        k + o,
        virtual_later active r rs t (pos j) a k e l (omega arith) ∙ v ∙ ap pos m2,
        resolve_later active r rs (k + o) k l (omega arith) (omega arith) ∙ rw m q,
        omega arith,
      )

  -- Of consistent shards, an index that is an int64 and not negative resolves to a leaf that a shard
  -- has, and the virtual index of that leaf is the index again.
  pub virtual-resolve :
      (l : LogRanges S) (n : ℕ)
      → IsConsistent l
      → n < 2 ^ 63
      → (j : ℕ) × (t : ℤ) × (resolve_virtual_index l (pos n) ≡ (t, pos j))
        × HasLeaf t j l.active (get_inactive l)
        × (virtual_log_index (pos j) t l ≡ pos n)
  unfolding resolve_virtual_index
  virtual-resolve l n (s, total) b =
      let (j, t, e, has, le) = resolve_from-HasLeaf l.active (get_inactive l) n s b in
      let v = virtual-resolve_from l.active (get_inactive l) 0 n s (omega arith) (omega arith) in
      (
        j,
        t,
        e,
        has,
        virtual_log_index_lem l t j (omega arith)
            ∙ subst (λ x. virtual_from (pos 0) x.1 x.0 l.active (get_inactive l) ≡ pos (0 + n)) e v
            ∙ ap pos (zero-add n),
      )

  -- Of consistent shards, the virtual index of a leaf that a shard has resolves to that shard and
  -- leaf, where the index is an int64.
  pub resolve-virtual :
      (l : LogRanges S) (t : ℤ) (j : ℕ)
      → IsConsistent l
      → HasLeaf t j l.active (get_inactive l)
      → sizes (get_inactive l) + j < 2 ^ 63
      → resolve_virtual_index l (virtual_log_index (pos j) t l) ≡ (t, pos j)
  unfolding resolve_virtual_index
  resolve-virtual l t j (s, total) has b =
      let (o, v, q, le) = virtual-HasLeaf l.active (get_inactive l) t 0 j s has (omega arith) in
      rw (virtual_log_index_lem l t j (omega arith) ∙ v, zero-add) q

  total_from_lem :
      (active : LogRange S) (rs : List (LogRange S)) (a : ℕ)
      → IsSound active.tree_id rs
      → a + sizes rs < 2 ^ 63
      → total_from (pos a) rs ≡ pos (a + sizes rs)
  unfolding total_from
  total_from_lem active [] a _ b = ap pos (omega arith)
  total_from_lem active (r ∷ rs) a (l, d, f, s) b =
      let k = size_of r.tree_length in
      let m : a + k + sizes rs ≡ a + (k + sizes rs) = omega arith in
      ap (λ u. total_from (pos a +₆₄ u) rs) l
      ∙ rw (add_in_range a k (omega arith)) (total_from_lem active rs (a + k) s (omega arith))
      ∙ ap pos m

  virtual_at_end :
      (active : LogRange S) (rs : List (LogRange S)) (a j : ℕ)
      → IsSound active.tree_id rs
      → a + sizes rs + j < 2 ^ 63
      → virtual_from (pos a) (pos j) active.tree_id active rs ≡ pos (a + (sizes rs + j))
  virtual_at_end active [] a j _ b = virtual_active active a j (omega arith) ∙ ap pos (omega arith)
  virtual_at_end active (r ∷ rs) a j (l, d, f, s) b =
      let k = size_of r.tree_length in
      let m : a + k + (sizes rs + j) ≡ a + (k + sizes rs + j) = omega arith in
      virtual_later active r rs active.tree_id (pos j) a k (int_eq_sym r.tree_id active.tree_id ∙ d)
        l (omega arith)
      ∙ virtual_at_end active rs (a + k) j s (omega arith)
      ∙ ap pos m

  -- Of consistent shards, the total length of the inactive ones is the sum of their lengths, and the
  -- entries of the active shard count on from it.
  pub virtual-active :
      (l : LogRanges S) (j : ℕ)
      → IsConsistent l
      → sizes (get_inactive l) + j < 2 ^ 63
      → (total_inactive_length l ≡ pos (sizes (get_inactive l)))
        × (virtual_log_index (pos j) l.active.tree_id l ≡ total_inactive_length l +₆₄ pos j)
  unfolding total_inactive_length
  virtual-active l j (s, total) b =
      let t = total_from_lem l.active (get_inactive l) 0 s (omega arith) ∙ ap pos (zero-add _) in
      (
        t,
        virtual_log_index_lem l l.active.tree_id j (omega arith)
            ∙ virtual_at_end l.active (get_inactive l) 0 j s (omega arith)
            ∙ ap pos (zero-add _)
            ∙ sym (ap (λ u. u +₆₄ pos j) t ∙ add_in_range (sizes (get_inactive l)) j b),
      )
