-- ===== src/Api/Index/Searching.antt =====
-- pkg/api/index.go: what a search of the index answers, against the index as a function.
use rekor.Base.{
  ◌≡◌, refl, sym, ◌∙◌, Bool, true, false, List, [], ◌∷◌, ◌++◌, All, arith, all, Option, none, some,
  Result, ok, err, append-nil, append_assoc, subst, ap,
}
use rekor.Base.Bytes.{Bytes, bytes_eq, bytes_eq_iff, codes}
use rekor.Api.Index.Subsets.{Uniq, has, add_elements, new_collection, add_subset, is_and, values}
use rekor.Api.Index.Membership.{any, distinct, has-add_elements, wanted, has-values}
use rekor.Api.Index.Distinct.{distinct-add_elements, distinct-values}
use rekor.Api.Index.{
  Query, Search, Error, operator_of, with_key, with_field, hash_field, public_key_field,
  email_field, answered, with_lookup_keys, search_index_handler, Found,
}

-- The storage holds the index: what it finds for some keys has, whatever happened before, the
-- entries that the index has under any of them.
abbrev pub Holds : {E F K W : Type 0} → Search E F K W → (Bytes → List Bytes) → Type 0
Holds {W = W} search index =
    (keys : List Bytes) (w : W)
    → (uuids : List Bytes) × (v : W) × (search.lookup_indices keys w ≡ (ok uuids, v))
      × ((x : Bytes) → has x uuids ≡ any (λ key. has x (index key)) keys)

abbrev pub and_keys :
    {E : Type 0} → Bytes → Result (Error E) (List Bytes) → Result (Error E) (List Bytes)
and_keys key (ok keys) = ok (key ∷ keys)
and_keys key (err e) = err e

-- The keys of a query in the order in which the code takes them, up to the first error.
abbrev pub keys_from :
    {E : Type 0} → List (Option (Result (Error E) Bytes)) → Result (Error E) (List Bytes)
keys_from [] = ok []
keys_from (none ∷ fields) = keys_from fields
keys_from (some (err e) ∷ fields) = err e
keys_from (some (ok key) ∷ fields) = and_keys key (keys_from fields)

has-added_subset :
    (index : Bytes → List Bytes) (x key : Bytes) (uuids : List Bytes)
    → has x uuids ≡ any (λ k. has x (index k)) (key ∷ [])
    → has x (add_elements uuids []) ≡ has x (index key)
unfolding has
has-added_subset index x key uuids h = ground (arith, h, has-add_elements x uuids [])

module _ {E F K W : Type 0} (search : Search E F K W) (index : Bytes → List Bytes) where
  abbrev pub fields_of : Query → List (Option (Result (Error E) Bytes))
  fields_of q =
      hash_field search q.hash
      ∷ public_key_field search q.public_key
      ∷ email_field search q.email
      ∷ []

  abbrev pub keys_of : Query → Result (Error E) (List Bytes)
  keys_of q = keys_from (fields_of q)

  -- The answer is that error, or each string once that all the keys have ("and") or that any of them
  -- has, and no string if there is no key.
  abbrev pub Answers : Bool → Result (Error E) (List Bytes) → Result (Error E) (List Bytes) → Type 0
  Answers and (err e) answer = answer ≡ err e
  Answers and (ok keys) answer =
      (uuids : List Bytes) × (answer ≡ ok uuids)
      × (distinct uuids ≡ true)
      × ((x : Bytes) → has x uuids ≡ wanted and (λ key. has x (index key)) keys)

  -- A subset for each key that was looked up.
  abbrev pub AreSubsets : List Uniq → List Bytes → Type 0
  AreSubsets [] [] = Unit
  AreSubsets (s ∷ ss) (k ∷ ks) =
      ((distinct s ≡ true) × ((x : Bytes) → has x s ≡ has x (index k))) × AreSubsets ss ks
  AreSubsets _ _ = ⊥

  AreSubsets-snoc :
      (ss : List Uniq) (ks : List Bytes) (s : Uniq) (k : Bytes)
      → AreSubsets ss ks
      → distinct s ≡ true
      → ((x : Bytes) → has x s ≡ has x (index k))
      → AreSubsets (ss ++ s ∷ []) (ks ++ k ∷ [])
  AreSubsets-snoc [] [] s k _ d h = ((d, h), tt)
  AreSubsets-snoc (t ∷ ss) (j ∷ ks) s k (a, hs) d h = (a, AreSubsets-snoc ss ks s k hs d h)
  AreSubsets-snoc [] (j ∷ ks) s k hs d h = absurd hs
  AreSubsets-snoc (t ∷ ss) [] s k hs d h = absurd hs

  AreSubsets-distinct :
      (ss : List Uniq) (ks : List Bytes) → AreSubsets ss ks → All (λ u. distinct u ≡ true) ss
  AreSubsets-distinct [] ks _ = tt
  AreSubsets-distinct (s ∷ ss) (k ∷ ks) (a, hs) = (a.0, AreSubsets-distinct ss ks hs)
  AreSubsets-distinct (s ∷ ss) [] hs = absurd hs

  all-AreSubsets :
      (ss : List Uniq) (ks : List Bytes) (x : Bytes)
      → AreSubsets ss ks
      → (all (has x) ss ≡ all (λ k. has x (index k)) ks)
        × (any (has x) ss ≡ any (λ k. has x (index k)) ks)
  all-AreSubsets [] [] x _ = (refl, refl)
  all-AreSubsets (s ∷ ss) (k ∷ ks) x (a, hs) = ground (arith, a.1 x, all-AreSubsets ss ks x hs)
  all-AreSubsets [] (k ∷ ks) x hs = absurd hs
  all-AreSubsets (s ∷ ss) [] x hs = absurd hs

  wanted-AreSubsets :
      (and : Bool) (ss : List Uniq) (ks : List Bytes) (x : Bytes)
      → AreSubsets ss ks
      → wanted and (has x) ss ≡ wanted and (λ k. has x (index k)) ks
  wanted-AreSubsets and [] [] x _ = refl
  wanted-AreSubsets true (s ∷ ss) (k ∷ ks) x hs = (all-AreSubsets (s ∷ ss) (k ∷ ks) x hs).0
  wanted-AreSubsets false (s ∷ ss) (k ∷ ks) x hs = (all-AreSubsets (s ∷ ss) (k ∷ ks) x hs).1
  wanted-AreSubsets and [] (k ∷ ks) x hs = absurd hs
  wanted-AreSubsets and (s ∷ ss) [] x hs = absurd hs

  -- Where the handler stands when it has taken the keys.
  abbrev pub HasTaken : Bytes → Bool → List Bytes → Found search → Type 0
  HasTaken op true keys (result, lookup_keys) = (result ≡ new_collection op) × (lookup_keys ≡ keys)
  HasTaken op false keys (result, lookup_keys) =
      (lookup_keys ≡ []) × (result.operator ≡ op) × AreSubsets result.subsets keys

  HasTaken-with_key :
      (op : Bytes) (is_or : Bool) (keys : List Bytes) (key : Bytes) (found : Found search) (w : W)
      → Holds search index
      → HasTaken op is_or keys found
      → (next : Found search) × (v : W) × (with_key search is_or key found w ≡ (ok next, v))
        × HasTaken op is_or (keys ++ key ∷ []) next
  unfolding with_key
  HasTaken-with_key op true keys key (result, lookup_keys) w holds (fresh, left) =
      ((result, lookup_keys ++ key ∷ []), w, refl, (fresh, rw left refl))
  HasTaken-with_key op false keys key (result, lookup_keys) w holds (none_left, same, hs) =
      let (uuids, v, looked_up, same_found) = holds (key ∷ []) w in
      (
        (add_subset uuids result, lookup_keys),
        v,
        rw looked_up refl,
        (
          none_left,
          same,
          AreSubsets-snoc result.subsets keys (add_elements uuids []) key hs
              (distinct-add_elements uuids [] refl)
              (λ x. has-added_subset index x key uuids (same_found x)),
        ),
      )

  -- One key after another.
  abbrev pub through :
      Bool
      → List (Option (Result (Error E) Bytes))
      → Result (Error E) (Found search) × W
      → Result (Error E) (Found search) × W
  through is_or [] at = at
  through is_or (f ∷ fs) at = through is_or fs (with_field search is_or f at)

  through_err :
      (is_or : Bool) (fs : List (Option (Result (Error E) Bytes))) (e : Error E) (w : W)
      → through is_or fs (err e, w) ≡ (err e, w)
  through_err is_or [] e w = refl
  through_err is_or (f ∷ fs) e w = through_err is_or fs e w

  -- The fields give an error, or the keys that the handler has taken at the end.
  abbrev pub Takes :
      Bytes
      → Bool
      → List Bytes
      → Result (Error E) (List Bytes)
      → Result (Error E) (Found search) × W
      → Type 0
  Takes op is_or taken (err e) r = r.0 ≡ err e
  Takes op is_or taken (ok keys) r =
      (found : Found search) × (v : W) × (r ≡ (ok found, v))
      × HasTaken op is_or (taken ++ keys) found

  Takes-and_keys :
      (op : Bytes) (is_or : Bool) (taken : List Bytes) (key : Bytes)
      (rest : Result (Error E) (List Bytes)) (r : Result (Error E) (Found search) × W)
      → Takes op is_or (taken ++ key ∷ []) rest r
      → Takes op is_or taken (and_keys key rest) r
  Takes-and_keys op is_or taken key (err e) r h = h
  Takes-and_keys op is_or taken key (ok keys) r (found, v, at, h) =
      (found, v, at, subst (λ l. HasTaken op is_or l found) (append_assoc taken (key ∷ []) keys) h)

  through-Takes :
      (op : Bytes) (is_or : Bool) (fs : List (Option (Result (Error E) Bytes))) (taken : List Bytes)
      (found : Found search) (w : W)
      → Holds search index
      → HasTaken op is_or taken found
      → Takes op is_or taken (keys_from fs) (through is_or fs (ok found, w))
  through-Takes op is_or [] taken found w holds h =
      (found, w, refl, subst (λ l. HasTaken op is_or l found) (sym (append-nil taken)) h)
  through-Takes op is_or (none ∷ fs) taken found w holds h =
      through-Takes op is_or fs taken found w holds h
  through-Takes op is_or (some (err e) ∷ fs) taken found w holds h =
      ap (λ r. r.0) (through_err is_or fs e w)
  through-Takes op is_or (some (ok key) ∷ fs) taken found w holds h =
      let (next, v, at, h2) = HasTaken-with_key op is_or taken key found w holds h in
      Takes-and_keys op is_or taken key (keys_from fs)
        (through is_or fs (with_key search is_or key found w))
        (subst (λ r. Takes op is_or (taken ++ key ∷ []) (keys_from fs) (through is_or fs r))
          (sym at) (through-Takes op is_or fs (taken ++ key ∷ []) next v holds h2))

  -- What is answered when the keys are taken.
  finished-Answers :
      (op : Bytes) (is_or : Bool) (keys : List Bytes) (found : Found search) (w : W)
      → Holds search index
      → (is_or ≡ true → is_and op ≡ false)
      → HasTaken op is_or keys found
      → Answers (is_and op) (ok keys) (answered search (with_lookup_keys search (ok found, w))).0
  unfolding values has
  finished-Answers op true [] (result, lookup_keys) w holds only_or (fresh, left) =
      rw (left, fresh) ([], refl, refl, λ x. refl)
  finished-Answers op true (k ∷ ks) (result, lookup_keys) w holds only_or (fresh, left) =
      let (uuids, v, looked_up, same) = holds (k ∷ ks) w in
      rw (left, fresh, looked_up, only_or refl)
        (
          add_elements uuids [],
          refl,
          distinct-add_elements uuids [] refl,
          λ x. ground (arith, same x, has-add_elements x uuids []),
        )
  finished-Answers op false keys (result, lookup_keys) w holds only_or (none_left, same, hs) =
      rw none_left (
        values result,
        refl,
        distinct-values (is_and result.operator) result.subsets
            (AreSubsets-distinct result.subsets keys hs),
        λ x.
            has-values x (is_and result.operator) result.subsets
            ∙ rw same (wanted-AreSubsets (is_and op) result.subsets keys x hs),
      )

  taken-Answers :
      (op : Bytes) (is_or : Bool) (keys : Result (Error E) (List Bytes))
      (r : Result (Error E) (Found search) × W)
      → Holds search index
      → (is_or ≡ true → is_and op ≡ false)
      → Takes op is_or [] keys r
      → Answers (is_and op) keys (answered search (with_lookup_keys search r)).0
  taken-Answers op is_or (err e) (r, w) holds only_or h = rw h refl
  taken-Answers op is_or (ok keys) (r, w) holds only_or (found, v, at, h) =
      subst (λ q. Answers (is_and op) (ok keys) (answered search (with_lookup_keys search q)).0)
        (sym at) (finished-Answers op is_or keys found v holds only_or h)

  or-is_and : (op : Bytes) → bytes_eq op (codes "or") ≡ true → is_and op ≡ false
  or-is_and op h = rw ((bytes_eq_iff op (codes "or")).0 h) refl

  begun : (op : Bytes) (is_or : Bool) → HasTaken op is_or [] (new_collection op, [])
  begun op true = (refl, refl)
  begun op false = (refl, refl, tt)

  -- If the storage of the index holds `index`, a search answers the first error among the fields of
  -- the query; else every string once that the index has under all the keys, for the operator "and",
  -- or under any of them, for another one, and none if no field is given.
  pub search_index_handler-Answers :
      (q : Query) (w : W)
      → Holds search index
      → Answers (is_and (operator_of q)) (keys_of q) (search_index_handler search q w).0
  unfolding search_index_handler
  search_index_handler-Answers q w holds =
      let op = operator_of q in
      let is_or = bytes_eq op (codes "or") in
      taken-Answers op is_or (keys_of q) _ holds (or-is_and op)
        (through-Takes op is_or (fields_of q) [] (new_collection op, []) w holds (begun op is_or))
