-- ===== src/Api/Index/Distinct.antt =====
-- pkg/api/index.go: no set, and no answer, has an element twice.
use rekor.Base.{◌≡◌, refl, inl, inr, Bool, true, false, List, [], ◌∷◌, ◌++◌, All, Bool-cases, arith}
use rekor.Base.Bytes.{Bytes, bytes_eq}
use rekor.Api.Index.Subsets.{
  Uniq, has, insert, add_elements, keep_common, intersect, union, flatten, values_of,
}
use rekor.Api.Index.Membership.{distinct, has-append, has-keep_common}

bytes_eq_sym : (s t : Bytes) → bytes_eq s t ≡ bytes_eq t s
bytes_eq_sym [] [] = refl
bytes_eq_sym (a ∷ s) [] = refl
bytes_eq_sym [] (a ∷ s) = refl
bytes_eq_sym (a ∷ s) (b ∷ t) = ground (arith, bytes_eq_sym s t)

distinct-snoc :
    (u : Uniq) (e : Bytes) → distinct u ≡ true → has e u ≡ false → distinct (u ++ e ∷ []) ≡ true
unfolding has
distinct-snoc [] e d h = refl
distinct-snoc (k ∷ u) e d h =
    ground (arith, distinct-snoc u e, has-append k u (e ∷ []), bytes_eq_sym k e)

distinct-insert : (e : Bytes) (u : Uniq) → distinct u ≡ true → distinct (insert e u) ≡ true
unfolding insert
distinct-insert e u d = elim (Bool-cases (has e u)) [
  | inl y ↦ rw y d
  | inr n ↦ rw n (distinct-snoc u e d n)
]

pub distinct-add_elements :
    (es : List Bytes) (u : Uniq) → distinct u ≡ true → distinct (add_elements es u) ≡ true
unfolding add_elements
distinct-add_elements [] u d = d
distinct-add_elements (e ∷ es) u d = distinct-add_elements es (insert e u) (distinct-insert e u d)

distinct-keep_common : (u v : Uniq) → distinct u ≡ true → distinct (keep_common u v) ≡ true
unfolding keep_common
distinct-keep_common [] v d = refl
distinct-keep_common (k ∷ u) v d = elim (Bool-cases (has k v)) [
  | inl y ↦ rw y (ground (arith, distinct-keep_common u v, has-keep_common k u v))
  | inr n ↦ rw n (ground (arith, distinct-keep_common u v))
]

distinct-flatten :
    (is_and : Bool) (u : Uniq) (us : List Uniq)
    → distinct u ≡ true
    → distinct (flatten is_and u us) ≡ true
distinct-flatten is_and u [] d = d
distinct-flatten true u (v ∷ us) d =
    distinct-flatten true (intersect u v) us (distinct-keep_common u v d)
distinct-flatten false u (v ∷ us) d =
    distinct-flatten false (union u v) us
      (distinct-add_elements v (add_elements u []) (distinct-add_elements u [] refl))

pub distinct-values :
    (is_and : Bool) (us : List Uniq)
    → All (λ u. distinct u ≡ true) us
    → distinct (values_of is_and us) ≡ true
distinct-values is_and [] _ = refl
distinct-values is_and (u ∷ us) (d, _) = distinct-flatten is_and u us d
