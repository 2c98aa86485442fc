-- ===== src/Api/PublicKeys/Agreeing.antt =====
-- What the two handlers of pkg/api/public_key.go answer of one tree id.
use rekor.Base.{
  ℕ, ◌≡◌, ◌≢◌, Bool-cases, none, All, some-injective, refl, ap, ◌∙◌, ◌⊎◌, inl, inr, List, [], ◌∷◌,
  Option, some, Option-cases, Result, ok, err,
}
use rekor.Base.Bytes.{Bytes}
use rekor.Base.Int64.{ℤ, int_eq, int_eq_iff}
use rekor.Golib.Num.{parse_int}
use rekor.Sharding.Ranges.{
  LogRange, LogRanges, get_inactive, find_tree, or_fail, no_log_range, get_log_range_by_tree_id,
  public_key, public_keys, key_of_tree, field_or_fail, no_public_key, tree_id_syntax,
}
use rekor.Sharding.Ranges
use rekor.Api.Errors.{Response, with_payload, handle_rekor_api_error}
use rekor.Api.PublicKeys.{text_of, get_public_key_handler, get_public_keys_handler}

module _ {S : Type 0} where
  -- The shard is the first of these with the tree id.
  abbrev pub IsFirstWith : ℤ → LogRange S → List (LogRange S) → Type 0
  IsFirstWith tid r [] = ⊥
  IsFirstWith tid r (s ∷ rs) =
      ((s.tree_id ≡ tid) × (s ≡ r)) ⊎ ((s.tree_id ≢ tid) × IsFirstWith tid r rs)

  find_tree-IsFirstWith :
      (tid : ℤ) (r : LogRange S) (rs : List (LogRange S))
      → find_tree tid rs ≡ some r
      → IsFirstWith tid r rs
  find_tree-IsFirstWith tid r [] e = cc
  find_tree-IsFirstWith tid r (s ∷ rs) e = elim (Bool-cases (int_eq s.tree_id tid)) [
    | inl q ↦ inl ((int_eq_iff s.tree_id tid).0 q, some-injective (rw q at e))
    | inr q ↦ inr (
      λ same. cc ((int_eq_iff s.tree_id tid).1 same, q),
      find_tree-IsFirstWith tid r rs (rw q at e),
    )
  ]

  find_tree-none :
      (tid : ℤ) (rs : List (LogRange S)) → find_tree tid rs ≡ none → All (λ r. r.tree_id ≢ tid) rs
  find_tree-none tid [] e = tt
  find_tree-none tid (s ∷ rs) e = elim (Bool-cases (int_eq s.tree_id tid)) [
    | inl q ↦ cc (rw q at e)
    | inr q ↦ (λ same. cc ((int_eq_iff s.tree_id tid).1 same, q), find_tree-none tid rs (rw q at e))
  ]

module _ {S : Type 0} (status_text : ℕ → Bytes) (l : LogRanges S) where
  abbrev pub shards : List (LogRange S)
  shards = l.active ∷ get_inactive l

  -- The shard that is asked about: the active one if the text is empty, or the first with the tree id.
  abbrev pub IsAsked : Bytes → LogRange S → Type 0
  IsAsked t r =
      ((t ≡ []) × (r ≡ l.active))
      ⊎ ((t ≢ []) × (tid : ℤ) × (parse_int 10 t ≡ some tid) × IsFirstWith tid r shards)

  -- The text is not empty, and no decimal int64 or the tree id of no shard.
  abbrev pub IsUnknown : Bytes → Type 0
  IsUnknown t =
      (t ≢ [])
      × ((parse_int 10 t ≡ none)
          ⊎ ((tid : ℤ) × (parse_int 10 t ≡ some tid) × All (λ r. r.tree_id ≢ tid) shards))

  abbrev pub AgreeOn : Option Bytes → Type 0
  AgreeOn tree_id =
      ((r : LogRange S) × IsAsked (text_of tree_id) r
        × (get_public_key_handler status_text l tree_id ≡ ok r.pem_pub_key)
        × (get_public_keys_handler status_text l tree_id ≡ ok r.pem_pub_keys))
      ⊎ ((a : Response) × (b : Response) × IsUnknown (text_of tree_id)
          × (get_public_key_handler status_text l tree_id ≡ err (some a))
          × (get_public_keys_handler status_text l tree_id ≡ err (some b))
          × (a.status ≡ 400)
          × (b.status ≡ 500))

  -- The key and the keys of the text, of one shard, or no key and no keys.
  abbrev HaveKeys : Bytes → Type 0
  HaveKeys t =
      ((r : LogRange S) × IsAsked t r
        × (public_key l t ≡ ok r.pem_pub_key)
        × (public_keys l t ≡ ok r.pem_pub_keys))
      ⊎ ((x : Ranges.Error) × (y : Ranges.Error) × IsUnknown t
          × (public_key l t ≡ err x)
          × (public_keys l t ≡ err y))

  keys_of_number :
      (c : ℕ) (cs : Bytes) (tid : ℤ) → parse_int 10 (c ∷ cs) ≡ some tid → HaveKeys (c ∷ cs)
  unfolding public_key public_keys
  keys_of_number c cs tid p =
      let key : Option ℤ → Result Ranges.Error Bytes =
        λ o. key_of_tree (λ r. r.pem_pub_key) l (c ∷ cs) o in
      let keys : Option ℤ → Result Ranges.Error (List Bytes) =
        λ o. key_of_tree (λ r. r.pem_pub_keys) l (c ∷ cs) o in
      let missing = no_public_key tid in
      elim (Option-cases (find_tree tid (l.active ∷ get_inactive l))) [
        | inl q ↦ inr (
          missing,
          missing,
          (λ e. cc, inr (tid, p, find_tree-none tid shards q)),
          ap key p ∙ ap (λ o. field_or_fail (λ r. r.pem_pub_key) o missing) q,
          ap keys p ∙ ap (λ o. field_or_fail (λ r. r.pem_pub_keys) o missing) q,
        )
        | inr (r, q) ↦ inl (
          r,
          inr (λ e. cc, tid, p, find_tree-IsFirstWith tid r shards q),
          ap key p ∙ ap (λ o. field_or_fail (λ r. r.pem_pub_key) o missing) q,
          ap keys p ∙ ap (λ o. field_or_fail (λ r. r.pem_pub_keys) o missing) q,
        )
      ]

  keys_of_text : (t : Bytes) → HaveKeys t
  unfolding public_key public_keys
  keys_of_text [] = inl (l.active, inl (refl, refl), refl, refl)
  keys_of_text (c ∷ cs) = elim (Option-cases (parse_int 10 (c ∷ cs))) [
    | inl q ↦ inr (
      tree_id_syntax (c ∷ cs),
      tree_id_syntax (c ∷ cs),
      (λ e. cc, inl q),
      ap (key_of_tree (λ r. r.pem_pub_key) l (c ∷ cs)) q,
      ap (key_of_tree (λ r. r.pem_pub_keys) l (c ∷ cs)) q,
    )
    | inr (tid, q) ↦ keys_of_number c cs tid q
  ]

  answers_of : (tree_id : Option Bytes) → HaveKeys (text_of tree_id) → AgreeOn tree_id
  unfolding get_public_key_handler get_public_keys_handler handle_rekor_api_error
  answers_of tree_id (inl (r, asked, key, keys)) = inl (r, asked, rw key refl, rw keys refl)
  answers_of tree_id (inr (x, y, unknown, no_key, no_keys)) = inr (
    with_payload 400 (status_text 400),
    with_payload 500 (status_text 500),
    unknown,
    rw no_key refl,
    rw no_keys refl,
    refl,
    refl,
  )

  -- Of one tree id the two handlers answer the key and the keys of the same shard: the active one if
  -- the id is absent or empty, else the first, the active one in front, whose tree id is its decimal
  -- number. Only where it is not empty, and no decimal int64 or the tree id of no shard, they answer
  -- errors, with the status 400 for the key and 500 for the keys.
  pub public_key_handlers_agree : (tree_id : Option Bytes) → AgreeOn tree_id
  public_key_handlers_agree tree_id = answers_of tree_id (keys_of_text (text_of tree_id))
