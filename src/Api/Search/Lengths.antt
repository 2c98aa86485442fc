-- ===== src/Api/Search/Lengths.antt =====
-- How much each loop of SearchLogQueryHandler of pkg/api/entries.go finds.
use rekor.Base.{
  ℕ, suc, ◌+◌, ◌*◌, ◌≤◌, ◌≡◌, refl, ap, sym, Bool, true, false, List, [], ◌∷◌, ◌++◌, Option, none,
  some, ◌==◌, length, length-snoc, Result, ok, err, wrap, ok-injective, >>=-eq-ok, arith,
  Bool-cases, inl, inr,
}
use rekor.Base.Bytes.{Bytes}
use rekor.Base.Int64.{ℤ, int_eq}
use rekor.Sharding.EntryId.{entry_id_hex_string_len, validate_entry_id}
use rekor.Sharding.EntryId
use rekor.Sharding.Ranges.{all_shards}
use rekor.Trillian.Client.{EntryAndProof, Leaf, Response, Server}
use rekor.Trillian.Client.Calls.{get_leaf_and_proof_by_hash}
use rekor.Api.{Api, Error, LogEntry}
use rekor.Api.Retrieve.{
  Found, yes_found, missing, broken, status_by_hash, retrieve_log_entry,
  retrieve_log_entry_by_index,
}
use rekor.Api.Search.{
  Entries, SearchError, Progress, Results, put, put_if, value_of, add_result, hash_of_uuid,
  with_response, on_ok, with_entry, with_invalid_id, with_id, search_ids, entry_hashes,
  shard_result_from, search_shards, search_hashes, result_entry, and_entry, result_entries,
  all_entries, search_indexes, unmarshalling_entry, canonicalizing_entry, index_failed,
  entry_failed,
}

module _ {E W A B : Type 0} where
  pub on_ok-ok :
      (r : Result (SearchError E) A × W) (next : A → W → Result (SearchError E) B × W) {b : B}
      → (on_ok r next).0 ≡ ok b
      → (a : A) × (r.0 ≡ ok a) × ((next a r.1).0 ≡ ok b)
  on_ok-ok (err e, w) next h = cc
  on_ok-ok (ok a, w) next h = (a, refl, h)

length-put :
    (shard : ℤ) (m : EntryAndProof) (rs : Results) → length (put shard m rs) ≤ suc (length rs)
unfolding put
length-put shard m [] = omega arith
length-put shard m ((s, n) ∷ rs) = elim (Bool-cases (int_eq s shard)) [
  | inl y ↦ rw y (omega arith)
  | inr n ↦ rw n (omega (arith, length-put shard m rs))
]

length-put_if :
    (shard : ℤ) (m : EntryAndProof) (rs : Results) (l : Option Leaf)
    → length (put_if shard m rs l) ≤ suc (length rs)
length-put_if shard m rs none = omega arith
length-put_if shard m rs (some _) = length-put shard m rs

length-add_result :
    (shard : ℤ) (rs : Results) (o : Option EntryAndProof)
    → length (add_result shard rs o) ≤ suc (length rs)
length-add_result shard rs none = omega arith
length-add_result shard rs (some m) = length-put_if shard m rs m.leaf

module _ {E W : Type 0} where
  with_entry-length :
      (f : Error E → SearchError E) (payload : List LogEntry) (r : Result (Error E) LogEntry × W)
      {p : List LogEntry}
      → (with_entry f payload r).0 ≡ ok p
      → length p ≤ suc (length payload)
  with_entry-length f payload (ok e, w) {p} h =
      omega (arith, ap length (ok-injective h), length-snoc payload e)
  with_entry-length f payload (err Error.not_found, w) h = omega (arith, ap length (ok-injective h))
  with_entry-length f payload (err x, w) h = cc

module _ {E : Type 0} where
  with_response-length :
      (hash : Bytes) (shard : ℤ) (rs : Results) (resp : Response E) (found : Found) {out : Results}
      → with_response hash shard rs resp found ≡ ok out
      → length out ≤ suc (length rs)
  with_response-length hash shard rs resp yes_found {out} h =
      omega (
        arith,
        ap length (ok-injective h),
        length-add_result shard rs resp.get_leaf_and_proof_result,
      )
  with_response-length hash shard rs resp missing h = omega (arith, ap length (ok-injective h))
  with_response-length hash shard rs resp broken h = cc

-- The entries in some maps.
abbrev pub total_results : List Results → ℕ
total_results [] = 0
total_results (rs ∷ more) = length rs + total_results more

module _ {E S V P W X Y : Type 0} (api : Api E S V P W) (types : Entries E X Y) where
  shard_result-length :
      (hash : Bytes) (shard : ℤ) (rs : Results) (r : Result E (Server E W) × W) {out : Results}
      → (shard_result_from api types hash shard rs r).0 ≡ ok out
      → length out ≤ suc (length rs)
  shard_result-length hash shard rs (err e, w) h = cc
  shard_result-length hash shard rs (ok tc, w) h =
      let resp = (get_leaf_and_proof_by_hash tc hash w).0 in
      with_response-length hash shard rs resp (status_by_hash resp.status) h

  search_shards-length :
      (hash : Bytes) (shards : List ℤ) (rs : Results) (w : W) {out : Results}
      → (search_shards api types hash shards rs w).0 ≡ ok out
      → length out ≤ length shards + length rs
  unfolding search_shards
  search_shards-length hash [] rs w h = omega (arith, ap length (ok-injective h))
  search_shards-length hash (shard ∷ shards) rs w {out} h =
      let r = shard_result_from api types hash shard rs (api.get_trillian_client shard w) in
      let (next, first, rest) = on_ok-ok r (search_shards api types hash shards) h in
      omega (
        arith,
        shard_result-length hash shard rs (api.get_trillian_client shard w) {out = next} first,
        search_shards-length hash shards next r.1 {out = out} rest,
      )

  pub search_hashes-length :
      (hashes : List Bytes) (w : W) {out : List Results}
      → (search_hashes api types hashes w).0 ≡ ok out
      → total_results out ≤ length hashes * length (all_shards api.log_ranges)
  unfolding search_hashes
  search_hashes-length [] w h = omega (arith, ap total_results (ok-injective h))
  search_hashes-length (hash ∷ hashes) w {out} h =
      let shards = all_shards api.log_ranges in
      let r = search_shards api types hash shards [] w in
      let (rs, first, h1) = on_ok-ok r _ h in
      let (more, rest, h2) = on_ok-ok (search_hashes api types hashes r.1) _ h1 in
      let this = search_shards-length hash shards [] w {out = rs} first in
      let others = search_hashes-length hashes r.1 {out = more} rest in
      omega (arith, this, others, ap total_results (ok-injective {a = rs ∷ more} {b = out} h2))

  and_entry-length :
      (payload : List LogEntry) (r : Result (Error E) LogEntry × W) {p : List LogEntry}
      → (and_entry api types payload r).0 ≡ ok p
      → length p ≤ suc (length payload)
  and_entry-length payload (ok e, w) h =
      omega (arith, ap length (ok-injective h), length-snoc payload e)
  and_entry-length payload (err e, w) h = cc

  result_entries-length :
      (rs : Results) (payload : List LogEntry) (w : W) {p : List LogEntry}
      → (result_entries api types rs payload w).0 ≡ ok p
      → length p ≤ length rs + length payload
  unfolding result_entries
  result_entries-length [] payload w h = omega (arith, ap length (ok-injective h))
  result_entries-length ((shard, m) ∷ rs) payload w {p} h =
      let r = and_entry api types payload (result_entry api types shard m.leaf m w) in
      let (next, first, rest) = on_ok-ok r (result_entries api types rs) h in
      omega (
        arith,
        and_entry-length payload (result_entry api types shard m.leaf m w) {p = next} first,
        result_entries-length rs next r.1 {p = p} rest,
      )

  pub all_entries-length :
      (rss : List Results) (payload : List LogEntry) (w : W) {p : List LogEntry}
      → (all_entries api types rss payload w).0 ≡ ok p
      → length p ≤ total_results rss + length payload
  unfolding all_entries
  all_entries-length [] payload w h = omega (arith, ap length (ok-injective h))
  all_entries-length (rs ∷ rss) payload w {p} h =
      let r = result_entries api types rs payload w in
      let (next, first, rest) = on_ok-ok r (all_entries api types rss) h in
      omega (
        arith,
        result_entries-length rs payload w {p = next} first,
        all_entries-length rss next r.1 {p = p} rest,
      )

  with_invalid_id-length :
      (id : Bytes) (progress : Progress) (e : EntryId.Error) (b : Bool) {out : Progress}
      → with_invalid_id api types id progress e b ≡ ok out
      → length out.0 + length out.1 ≤ suc (length progress.0 + length progress.1)
  with_invalid_id-length id progress e true h = cc
  with_invalid_id-length id (payload, hashes) e false {out} h =
      let (hash, _, h1) = >>=-eq-ok (hash_of_uuid id) _ h in
      omega (
        arith,
        length-snoc hashes hash,
        ap (λ x. length x.0 + length x.1)
            (ok-injective {a = (payload, hashes ++ hash ∷ [])} {b = out} h1),
      )

  -- A valid entry id finds one entry at most, and another id gives one hash.
  with_id-length :
      (id : Bytes) (progress : Progress) (valid : Result EntryId.Error (Unit {0})) (w : W)
      {out : Progress}
      → (with_id api types id progress valid w).0 ≡ ok out
      → length out.0 + length out.1 ≤ suc (length progress.0 + length progress.1)
  with_id-length id (payload, hashes) (ok _) w {out} h =
      let r = with_entry (entry_failed id) payload (retrieve_log_entry api id w) in
      let (found, first, rest) = on_ok-ok r (λ found v. (ok (found, hashes), v)) h in
      omega (
        arith,
        with_entry-length (entry_failed id) payload (retrieve_log_entry api id w) {p = found} first,
        ap (λ x. length x.0 + length x.1) (ok-injective {a = (found, hashes)} {b = out} rest),
      )
  with_id-length id (payload, hashes) (err e) w {out} h =
      with_invalid_id-length id (payload, hashes) e (length id == entry_id_hex_string_len)
        {out = out} h

  pub search_ids-length :
      (ids : List Bytes) (progress : Progress) (w : W) {out : Progress}
      → (search_ids api types ids progress w).0 ≡ ok out
      → length out.0 + length out.1 ≤ length ids + (length progress.0 + length progress.1)
  unfolding search_ids
  search_ids-length [] progress w {out} h =
      omega (arith, ap (λ x. length x.0 + length x.1) (ok-injective {a = progress} {b = out} h))
  search_ids-length (id ∷ ids) progress w {out} h =
      let r = with_id api types id progress (validate_entry_id id) w in
      let (next, first, rest) = on_ok-ok r (search_ids api types ids) h in
      omega (
        arith,
        with_id-length id progress (validate_entry_id id) w {out = next} first,
        search_ids-length ids next r.1 {out = out} rest,
      )

  pub entry_hashes-length :
      (es : List X) {out : List Bytes} → entry_hashes api types es ≡ ok out → length out ≡ length es
  unfolding entry_hashes
  entry_hashes-length [] h = sym (ap length (ok-injective h))
  entry_hashes-length (e ∷ es) {out} h =
      let (entry, _, h1) = >>=-eq-ok (wrap unmarshalling_entry (types.unmarshal_entry e)) _ h in
      let (leaf, _, h2) =
        >>=-eq-ok (wrap canonicalizing_entry (types.canonicalize_entry entry)) _ h1 in
      let (hashes, rest, h3) = >>=-eq-ok (entry_hashes api types es) _ h2 in
      omega (
        arith,
        entry_hashes-length es {out = hashes} rest,
        ap length (ok-injective {a = types.hash_leaf leaf ∷ hashes} {b = out} h3),
      )

  pub search_indexes-length :
      (is : List (Option ℤ)) (payload : List LogEntry) (w : W) {p : List LogEntry}
      → (search_indexes api types is payload w).0 ≡ ok p
      → length p ≤ length is + length payload
  unfolding search_indexes
  search_indexes-length [] payload w h = omega (arith, ap length (ok-injective h))
  search_indexes-length (i ∷ is) payload w {p} h =
      let found = retrieve_log_entry_by_index api (value_of i) w in
      let r = with_entry index_failed payload found in
      let (next, first, rest) = on_ok-ok r (search_indexes api types is) h in
      omega (
        arith,
        with_entry-length index_failed payload found {p = next} first,
        search_indexes-length is next r.1 {p = p} rest,
      )
