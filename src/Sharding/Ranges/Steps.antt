-- ===== src/Sharding/Ranges/Steps.antt =====
-- One shard of the loops of ResolveVirtualIndex and VirtualLogIndex: pkg/sharding/ranges.go and
-- log_index.go.
use rekor.Base.{
  ℕ, ◌+◌, ◌-◌, ◌^◌, ◌≤◌, ◌<◌, ◌≡◌, refl, ap, ◌∙◌, true, false, List, [], ◌∷◌, if◌then◌else◌, All,
  lt→ltb, ltb-false, Bool-cases, inl, inr,
}
use rekor.Base.Int64.{
  ℤ, pos, negsuc, int_eq, int_lt, ◌+₆₄◌, ◌-₆₄◌, add_in_range, sub_in_range, int_eq_refl,
}
use rekor.Sharding.Ranges.{LogRange, resolve_from, virtual_from}

-- The length of a shard, where it is not negative.
abbrev pub size_of : ℤ → ℕ
size_of (pos n) = n
size_of (negsuc n) = 0

module _ {S : Type 0} where
  abbrev pub sizes : List (LogRange S) → ℕ
  sizes [] = 0
  sizes (r ∷ rs) = size_of r.tree_length + sizes rs

  -- No shard of the list has the tree id.
  abbrev pub IsFresh : ℤ → List (LogRange S) → Type 0
  IsFresh t rs = All (λ r. int_eq r.tree_id t ≡ false) rs

  -- The tree ids differ, and the lengths are not negative.
  abbrev pub IsSound : ℤ → List (LogRange S) → Type 0
  IsSound t [] = Unit
  IsSound t (r ∷ rs) =
      (r.tree_length ≡ pos (size_of r.tree_length))
      × (int_eq t r.tree_id ≡ false)
      × IsFresh r.tree_id rs
      × IsSound t rs

  pub resolved-fresh :
      (active : LogRange S) (t : ℤ) (rs : List (LogRange S)) (i : ℤ)
      → int_eq active.tree_id t ≡ false
      → IsFresh t rs
      → int_eq (resolve_from active rs i).0 t ≡ false
  unfolding resolve_from
  resolved-fresh active t [] i h _ = h
  resolved-fresh active t (r ∷ rs) i h (hr, hs) = elim (Bool-cases (int_lt i r.tree_length)) [
    | inl here ↦ rw here hr
    | inr later ↦ rw later (resolved-fresh active t rs (i -₆₄ r.tree_length) h hs)
  ]

  pub resolve_here :
      (active r : LogRange S) (rs : List (LogRange S)) (n k : ℕ)
      → r.tree_length ≡ pos k
      → n < k
      → resolve_from active (r ∷ rs) (pos n) ≡ (r.tree_id, pos n)
  unfolding resolve_from
  resolve_here active r rs n k l h =
      ap
        (λ t. if int_lt (pos n) t then (r.tree_id, pos n) else resolve_from active rs (pos n -₆₄ t))
        l
      ∙ rw (lt→ltb n k h) refl

  pub resolve_later :
      (active r : LogRange S) (rs : List (LogRange S)) (n k : ℕ)
      → r.tree_length ≡ pos k
      → k ≤ n
      → n < 2 ^ 63
      → resolve_from active (r ∷ rs) (pos n) ≡ resolve_from active rs (pos (n - k))
  unfolding resolve_from
  resolve_later active r rs n k l h b =
      ap
        (λ t. if int_lt (pos n) t then (r.tree_id, pos n) else resolve_from active rs (pos n -₆₄ t))
        l
      ∙ rw (ltb-false n k h, sub_in_range n k h b) refl

  pub virtual_here :
      (active r : LogRange S) (rs : List (LogRange S)) (t : ℤ) (a j : ℕ)
      → int_eq r.tree_id t ≡ true
      → a + j < 2 ^ 63
      → virtual_from (pos a) (pos j) t active (r ∷ rs) ≡ pos (a + j)
  unfolding virtual_from
  virtual_here active r rs t a j e b = rw (e, add_in_range a j b) refl

  pub virtual_later :
      (active r : LogRange S) (rs : List (LogRange S)) (t j : ℤ) (a k : ℕ)
      → int_eq r.tree_id t ≡ false
      → r.tree_length ≡ pos k
      → a + k < 2 ^ 63
      → virtual_from (pos a) j t active (r ∷ rs) ≡ virtual_from (pos (a + k)) j t active rs
  unfolding virtual_from
  virtual_later active r rs t j a k e l b =
      rw e (ap (λ u. virtual_from (pos a +₆₄ u) j t active rs) l ∙ rw (add_in_range a k b) refl)

  pub virtual_active :
      (active : LogRange S) (a j : ℕ)
      → a + j < 2 ^ 63
      → virtual_from (pos a) (pos j) active.tree_id active [] ≡ pos (a + j)
  unfolding virtual_from
  virtual_active active a j b = rw (int_eq_refl active.tree_id, add_in_range a j b) refl
