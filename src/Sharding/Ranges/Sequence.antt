-- ===== src/Sharding/Ranges/Sequence.antt =====
-- pkg/sharding/ranges.go and log_index.go against the log as one sequence of leaves, the inactive
-- shards' first.
use rekor.Base.{
  ℕ, zero, suc, ◌+◌, ◌-◌, ◌^◌, ◌≤◌, ◌<◌, ◌≡◌, refl, ap, sym, ◌∙◌, subst, List, [], ◌∷◌, ◌++◌,
  Option, none, some, some-injective, length, arith, dec_lt, zero-add,
}
use rekor.Base.Int64.{ℤ, pos}
use rekor.Sharding.Ranges.{
  LogRange, LogRanges, get_inactive, resolve_from, resolve_virtual_index, virtual_log_index,
}
use rekor.Sharding.Ranges.Steps.{size_of, IsSound, resolve_here, resolve_later}
use rekor.Sharding.Ranges.Indexing.{IsConsistent, virtual-resolve}

abbrev pub get_elem? : {A : Type 0} → List A → ℕ → Option A
get_elem? [] n = none
get_elem? (x ∷ xs) zero = some x
get_elem? (x ∷ xs) (suc n) = get_elem? xs n

-- The leaves of a tree, by tree id and index, `k` from the index `i` on.
abbrev pub leaves_of : ℤ → ℕ → ℕ → List (ℤ × ℕ)
leaves_of t i zero = []
leaves_of t i (suc k) = (t, i) ∷ leaves_of t (suc i) k

length-leaves_of : (t : ℤ) (i k : ℕ) → length (leaves_of t i k) ≡ k
length-leaves_of t i zero = refl
length-leaves_of t i (suc k) = ap suc (length-leaves_of t (suc i) k)

get_elem-leaves_of :
    (t : ℤ) (i k n : ℕ) (rest : List (ℤ × ℕ))
    → n < k
    → get_elem? (leaves_of t i k ++ rest) n ≡ some (t, i + n)
get_elem-leaves_of t i zero n rest h = absurd (omega arith)
get_elem-leaves_of t i (suc k) zero rest h = ap (λ m. some (t, m)) (omega arith)
get_elem-leaves_of t i (suc k) (suc n) rest h =
    get_elem-leaves_of t (suc i) k n rest (omega (arith, h)) ∙ ap (λ m. some (t, m)) (omega arith)

get_elem-front :
    (t : ℤ) (k n : ℕ) (rest : List (ℤ × ℕ))
    → n < k
    → get_elem? (leaves_of t 0 k ++ rest) n ≡ some (t, n)
get_elem-front t k n rest h = get_elem-leaves_of t 0 k n rest h ∙ ap (λ m. some (t, m)) (zero-add n)

get_elem-behind :
    (t : ℤ) (i k n : ℕ) (rest : List (ℤ × ℕ))
    → k ≤ n
    → get_elem? (leaves_of t i k ++ rest) n ≡ get_elem? rest (n - k)
get_elem-behind t i zero n rest h = ap (get_elem? rest) (omega arith)
get_elem-behind t i (suc k) zero rest h = absurd (omega arith)
get_elem-behind t i (suc k) (suc n) rest h =
    get_elem-behind t (suc i) k n rest (omega (arith, h)) ∙ ap (get_elem? rest) (omega arith)

module _ {S : Type 0} where
  -- The leaves of the inactive shards, and `m` of the active one.
  abbrev pub sequence_from : LogRange S → List (LogRange S) → ℕ → List (ℤ × ℕ)
  sequence_from active [] m = leaves_of active.tree_id 0 m ++ []
  sequence_from active (r ∷ rs) m =
      leaves_of r.tree_id 0 (size_of r.tree_length) ++ sequence_from active rs m

  abbrev pub sequence : LogRanges S → ℕ → List (ℤ × ℕ)
  sequence l m = sequence_from l.active (get_inactive l) m

  resolve_from-sequence :
      (active : LogRange S) (rs : List (LogRange S)) (m n : ℕ) (t : ℤ) (j : ℕ)
      → IsSound active.tree_id rs
      → n < 2 ^ 63
      → get_elem? (sequence_from active rs m) n ≡ some (t, j)
      → resolve_from active rs (pos n) ≡ (t, pos j)
  unfolding resolve_from
  resolve_from-sequence active [] m n t j sound b e = elim (dec_lt n m) [
    | yes h ↦
        let same : (active.tree_id, n) ≡ (t, j) =
          some-injective (sym (get_elem-front active.tree_id m n [] h) ∙ e) in
        ap (λ x. (x.0, pos x.1)) same
    | no h ↦ absurd (cc (get_elem-behind active.tree_id 0 m n [] (omega arith), e))
  ]
  resolve_from-sequence active (r ∷ rs) m n t j (l, d, f, s) b e =
      let k = size_of r.tree_length in
      let rest = sequence_from active rs m in
      elim (dec_lt n k) [
        | yes h ↦
            let same : (r.tree_id, n) ≡ (t, j) =
              some-injective (sym (get_elem-front r.tree_id k n rest h) ∙ e) in
            resolve_here active r rs n k l h ∙ ap (λ x. (x.0, pos x.1)) same
        | no h ↦
            resolve_later active r rs n k l (omega arith) b
            ∙ resolve_from-sequence active rs m (n - k) t j s (omega arith)
                (sym (get_elem-behind r.tree_id 0 k n rest (omega arith)) ∙ e)
      ]

  -- The two functions on indexes refine the sequence of leaves: of consistent shards, whatever the
  -- number `m` of leaves of the active one, the leaf at a place of the sequence that is an int64 is the
  -- one that the place resolves to as an index, and its virtual index is the place.
  pub resolve-sequence :
      (l : LogRanges S) (m n : ℕ) (t : ℤ) (j : ℕ)
      → IsConsistent l
      → n < 2 ^ 63
      → get_elem? (sequence l m) n ≡ some (t, j)
      → (resolve_virtual_index l (pos n) ≡ (t, pos j)) × (virtual_log_index (pos j) t l ≡ pos n)
  unfolding resolve_virtual_index
  resolve-sequence l m n t j consistent b e =
      let here = resolve_from-sequence l.active (get_inactive l) m n t j consistent.0 b e in
      let (i, u, there, _, back) = virtual-resolve l n consistent b in
      let same : (u, pos i) ≡ (t, pos j) = sym there ∙ here in
      (here, subst (λ x. virtual_log_index x.1 x.0 l ≡ pos n) same back)
