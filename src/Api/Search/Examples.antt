-- ===== src/Api/Search/Examples.antt =====
-- The server of Api.Examples, on which the theorem about SearchLogQueryHandler is applied.
use rekor.Base.{ℕ, ◌*◌, ◌≤◌, ◌<◌, ◌≡◌, ◌⊎◌, [], ◌∷◌, some, ok, err}
use rekor.Base.Bytes.{Bytes, codes}
use rekor.Base.Int64.{pos}
use rekor.Api.Examples.{api}
use rekor.Api.Search.{
  SearchLogQuery, Entries, too_many_queries, total_queries, search_log_query_handler,
}
use rekor.Api.Search.Bounds.{AtMost, shard_count, search_log_query_bounded}

-- An entry is its own canonical form, and its own hash.
abbrev types : Entries ℕ Bytes Bytes
types = record { unmarshal_entry = λ e. ok e; canonicalize_entry = λ e. ok e; hash_leaf = λ b. b }

abbrev query : SearchLogQuery Bytes
query = record {
  entry_uuids = codes "00" ∷ [];
  entries = codes "entry" ∷ [];
  log_indexes = some (pos 1) ∷ [];
}

search_log_query_bounded_example :
    ((10 < total_queries api types query)
      × (search_log_query_handler api types query 1 ≡ (err (too_many_queries 10), 1)))
    ⊎ ((total_queries api types query ≤ 10)
        × AtMost api types
            (10 * shard_count api types)
            (search_log_query_handler api types query 1).0)
search_log_query_bounded_example = search_log_query_bounded api types query 1
