-- ===== src/Api/Index/Subsets.antt =====
-- pkg/api/index.go: sets of strings, and collections of them that are flattened with an operator.
use rekor.Base.{Bool, true, false, ◌&&◌, ◌||◌, List, [], ◌∷◌, ◌++◌, if◌then◌else◌}
use rekor.Base.Bytes.{Bytes, bytes_eq, codes}

-- Uniq, a map whose keys are the elements: here in the order in which they were put in. Go's
-- iteration may take them in any other order.
abbrev pub Uniq : Type 0
Uniq = List Bytes

-- `_, ok := u[k]`
unfoldable pub has : Bytes → Uniq → Bool
has k [] = false
has k (e ∷ u) = bytes_eq k e || has k u

-- `u[e] = struct{}{}`
unfoldable pub insert : Bytes → Uniq → Uniq
insert e u = if has e u then u else u ++ e ∷ []

unfoldable pub add_elements : List Bytes → Uniq → Uniq
add_elements [] u = u
add_elements (e ∷ es) u = add_elements es (insert e u)

unfoldable pub keep_common : Uniq → Uniq → Uniq
keep_common [] other = []
keep_common (k ∷ u) other = if has k other then k ∷ keep_common u other else keep_common u other

abbrev pub intersect : Uniq → Uniq → Uniq
intersect u other = keep_common u other

abbrev pub union : Uniq → Uniq → Uniq
union u other = add_elements other (add_elements u [])

pub record Collection : Type 0 where
  pub subsets : List Uniq
  pub operator : Bytes

abbrev pub new_collection : Bytes → Collection
new_collection operator = record { subsets = []; operator = operator }

abbrev pub add_subset : List Bytes → Collection → Collection
add_subset elements c = record {
  subsets = c.subsets ++ add_elements elements [] ∷ [];
  operator = c.operator;
}

-- strings.EqualFold with "and", whose letters no others fold to.
abbrev pub is_and : Bytes → Bool
is_and (a ∷ n ∷ d ∷ []) =
    (bytes_eq (a ∷ []) (codes "a") || bytes_eq (a ∷ []) (codes "A"))
    && (bytes_eq (n ∷ []) (codes "n") || bytes_eq (n ∷ []) (codes "N"))
    && (bytes_eq (d ∷ []) (codes "d") || bytes_eq (d ∷ []) (codes "D"))
is_and _ = false

abbrev pub flatten : Bool → Uniq → List Uniq → Uniq
flatten is_and subset [] = subset
flatten true subset (s ∷ ss) = flatten true (intersect subset s) ss
flatten false subset (s ∷ ss) = flatten false (union subset s) ss

abbrev pub values_of : Bool → List Uniq → List Bytes
values_of is_and [] = []
values_of is_and (s ∷ ss) = flatten is_and s ss

unfoldable pub values : Collection → List Bytes
values c = values_of (is_and c.operator) c.subsets
