-- ===== src/Api/Index/Membership.antt =====
-- pkg/api/index.go: what is in the sets, and in the values of a collection.
use rekor.Base.{
  ◌≡◌, refl, inl, inr, Bool, true, false, not, ◌&&◌, ◌||◌, List, [], ◌∷◌, ◌++◌, Bool-cases, arith,
  all,
}
use rekor.Base.Bytes.{Bytes, bytes_eq, bytes_eq_iff}
use rekor.Api.Index.Subsets.{
  Uniq, has, insert, add_elements, keep_common, intersect, union, flatten, values_of,
}

-- The test holds of some element.
abbrev pub any : {A : Type 0} → (A → Bool) → List A → Bool
any p [] = false
any p (x ∷ xs) = p x || any p xs

-- No element twice.
abbrev pub distinct : Uniq → Bool
distinct [] = true
distinct (e ∷ u) = not (has e u) && distinct u

pub has-append : (x : Bytes) (u v : Uniq) → has x (u ++ v) ≡ (has x u || has x v)
unfolding has
has-append x [] v = refl
has-append x (e ∷ u) v = ground (arith, has-append x u v)

has-equal : (x e : Bytes) (u : Uniq) → bytes_eq x e ≡ true → has x u ≡ has e u
has-equal x e u q = rw ((bytes_eq_iff x e).0 q) refl

has-insert : (x e : Bytes) (u : Uniq) → has x (insert e u) ≡ (bytes_eq x e || has x u)
unfolding insert has
has-insert x e u = elim (Bool-cases (has e u)) [
  | inl y ↦ rw y (ground (arith, y, has-equal x e u))
  | inr n ↦ rw (n, has-append x u (e ∷ [])) (ground arith)
]

pub has-add_elements :
    (x : Bytes) (es : List Bytes) (u : Uniq) → has x (add_elements es u) ≡ (has x es || has x u)
unfolding add_elements has
has-add_elements x [] u = refl
has-add_elements x (e ∷ es) u = ground (arith, has-add_elements x es (insert e u), has-insert x e u)

pub has-keep_common : (x : Bytes) (u v : Uniq) → has x (keep_common u v) ≡ (has x u && has x v)
unfolding keep_common has
has-keep_common x [] v = refl
has-keep_common x (k ∷ u) v = elim (Bool-cases (has k v)) [
  | inl y ↦ rw y (ground (arith, has-keep_common x u v, y, has-equal x k v))
  | inr n ↦ rw n (ground (arith, n, has-keep_common x u v, has-equal x k v))
]

-- What the values of a collection should have: what all the subsets have, or what any of them has.
abbrev pub wanted : {A : Type 0} → Bool → (A → Bool) → List A → Bool
wanted is_and p [] = false
wanted true p (s ∷ ss) = all p (s ∷ ss)
wanted false p (s ∷ ss) = any p (s ∷ ss)

has-flatten_and :
    (x : Bytes) (u : Uniq) (us : List Uniq)
    → has x (flatten true u us) ≡ (has x u && all (has x) us)
unfolding has
has-flatten_and x u [] = ground arith
has-flatten_and x u (v ∷ us) =
    ground (arith, has-flatten_and x (intersect u v) us, has-keep_common x u v)

has-union : (x : Bytes) (u v : Uniq) → has x (union u v) ≡ (has x u || has x v)
unfolding has
has-union x u v = ground (arith, has-add_elements x v (add_elements u []), has-add_elements x u [])

has-flatten_or :
    (x : Bytes) (u : Uniq) (us : List Uniq)
    → has x (flatten false u us) ≡ (has x u || any (has x) us)
has-flatten_or x u [] = ground arith
has-flatten_or x u (v ∷ us) = ground (arith, has-flatten_or x (union u v) us, has-union x u v)

pub has-values :
    (x : Bytes) (is_and : Bool) (us : List Uniq)
    → has x (values_of is_and us) ≡ wanted is_and (has x) us
unfolding has
has-values x is_and [] = refl
has-values x true (u ∷ us) = has-flatten_and x u us
has-values x false (u ∷ us) = has-flatten_or x u us
