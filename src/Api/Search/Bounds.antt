-- ===== src/Api/Search/Bounds.antt =====
-- How much SearchLogQueryHandler of pkg/api/entries.go answers.
use rekor.Base.{
  ℕ, ◌+◌, ◌*◌, ◌≤◌, ◌<◌, ◌≡◌, ◌⊎◌, refl, ap, false, List, [], ◌∷◌, ◌++◌, ltb, ltb→lt, length,
  length-append, ok-injective, ◌∙◌, Result, ok, err, arith, Bool-cases, inl, inr,
}
use native.Mathlib.Nat.{mul-le-mul_right, le-mul_of_pos_right}
use rekor.Base.Bytes.{Bytes}
use rekor.Sharding.Ranges.{all_shards}
use rekor.Api.{Api, LogEntry}
use rekor.Api.Search.{
  SearchLogQuery, Entries, SearchError, too_many_queries, Progress, on_ok, search_ids, entry_hashes,
  search_hashes, with_hashes, search_by_id, search_indexes, unless_too_many, total_queries,
  search_log_query_handler,
}
use rekor.Api.Search.Lengths.{
  on_ok-ok, search_hashes-length, all_entries-length, search_ids-length, entry_hashes-length,
  search_indexes-length,
}

-- `a` entries and `b + e` hashes, of `ids` ids and `e` entries, over `n` shards.
spread : (a b e ids n : ℕ) → 0 < n → a + b ≤ ids → a + (b + e) * n ≤ (ids + e) * n
spread a b e ids n z h = omega (arith, mul-le-mul_right n h, le-mul_of_pos_right {m = n} a z)

widen : (q i n : ℕ) → 0 < n → q + i ≤ 10 → i + q * n ≤ 10 * n
widen q i n z h = omega (arith, mul-le-mul_right n h, le-mul_of_pos_right {m = n} i z)

ltb-le : (a b : ℕ) → ltb a b ≡ false → b ≤ a
ltb-le a b h = ground arith

module _ {E S V P W X Y : Type 0} (api : Api E S V P W) (types : Entries E X Y) where
  abbrev pub shard_count : ℕ
  shard_count = length (all_shards api.log_ranges)

  some_shards : 0 < shard_count
  some_shards = unfold all_shards in omega arith

  with_hashes-length :
      (progress : Progress) (hashes : Result (SearchError E) (List Bytes)) (n : ℕ) (w : W)
      {p : List LogEntry}
      → ((more : List Bytes) → hashes ≡ ok more → length more ≡ n)
      → (with_hashes api types progress hashes w).0 ≡ ok p
      → length p ≤ length progress.0 + (length progress.1 + n) * shard_count
  with_hashes-length progress (err e) n w made h = cc
  with_hashes-length (payload, hashes) (ok more) n w {p} made h =
      let r = search_hashes api types (hashes ++ more) w in
      let (results, first, rest) = on_ok-ok r _ h in
      let same : length (hashes ++ more) ≡ length hashes + n =
        length-append hashes more ∙ ap (λ k. length hashes + k) (made more refl) in
      omega (
        arith,
        search_hashes-length api types (hashes ++ more) w {out = results} first,
        all_entries-length api types results payload r.1 {p = p} rest,
        ap (λ k. k * shard_count) same,
      )

  some_ids-length :
      (ids : List Bytes) (entries : List X) (w : W) {p : List LogEntry}
      → (on_ok
          (search_ids api types ids ([], []) w)
          (λ progress v. with_hashes api types progress (entry_hashes api types entries) v)).0
        ≡ ok p
      → length p ≤ (length ids + length entries) * shard_count
  some_ids-length ids entries w {p} h =
      let r = search_ids api types ids ([], []) w in
      let (progress, first, rest) = on_ok-ok r _ h in
      let z : 0 < shard_count = some_shards in
      let found : length progress.0 + length progress.1 ≤ length ids =
        omega (arith, search_ids-length api types ids ([], []) w {out = progress} first) in
      let shown =
        with_hashes-length progress (entry_hashes api types entries) (length entries) r.1 {p = p}
          (λ more e. entry_hashes-length api types entries {out = more} e) rest in
      omega (
        arith,
        shown,
        spread (length progress.0) (length progress.1) (length entries) (length ids) shard_count z
            found,
      )

  search_by_id-length :
      (ids : List Bytes) (entries : List X) (w : W) {p : List LogEntry}
      → (search_by_id api types ids entries w).0 ≡ ok p
      → length p ≤ (length ids + length entries) * shard_count
  search_by_id-length [] [] w h = omega (arith, ap length (ok-injective h))
  search_by_id-length [] (e ∷ es) w {p} h = some_ids-length [] (e ∷ es) w {p = p} h
  search_by_id-length (id ∷ ids) es w {p} h = some_ids-length (id ∷ ids) es w {p = p} h

  few_queries-length :
      (q : SearchLogQuery X) (w : W) {p : List LogEntry}
      → total_queries api types q ≤ 10
      → (unless_too_many api types false q w).0 ≡ ok p
      → length p ≤ 10 * shard_count
  few_queries-length q w {p} few h =
      let r = search_by_id api types q.entry_uuids q.entries w in
      let (payload, first, rest) = on_ok-ok r (search_indexes api types q.log_indexes) h in
      let z : 0 < shard_count = some_shards in
      omega (
        arith,
        search_indexes-length api types q.log_indexes payload r.1 {p = p} rest,
        search_by_id-length q.entry_uuids q.entries w {p = payload} first,
        widen (length q.entry_uuids + length q.entries) (length q.log_indexes) shard_count z few,
      )

  -- The payload, if there is one, has at most `n` entries.
  abbrev pub AtMost : ℕ → Result (SearchError E) (List LogEntry) → Type 0
  AtMost n (ok payload) = length payload ≤ n
  AtMost n (err e) = Unit

  AtMost_lem :
      (n : ℕ) (r : Result (SearchError E) (List LogEntry))
      → ((p : List LogEntry) → r ≡ ok p → length p ≤ n)
      → AtMost n r
  AtMost_lem n (ok p) h = h p refl
  AtMost_lem n (err e) h = tt

  -- SearchLogQueryHandler refuses more than ten queries before it calls anything, and what it answers
  -- to at most ten has no more than ten entries for each shard, the active one included.
  pub search_log_query_bounded :
      (q : SearchLogQuery X) (w : W)
      → ((10 < total_queries api types q)
          × (search_log_query_handler api types q w ≡ (err (too_many_queries 10), w)))
        ⊎ ((total_queries api types q ≤ 10)
            × AtMost (10 * shard_count) (search_log_query_handler api types q w).0)
  unfolding search_log_query_handler
  search_log_query_bounded q w = elim (Bool-cases (ltb 10 (total_queries api types q))) [
    | inl y ↦ inl (ltb→lt 10 (total_queries api types q) y, rw y refl)
    | inr n ↦
        let few : total_queries api types q ≤ 10 = ltb-le 10 (total_queries api types q) n in
        inr (
          few,
          rw n (
              AtMost_lem (10 * shard_count) (unless_too_many api types false q w).0
                (λ p h. few_queries-length q w {p = p} few h)),
        )
  ]
