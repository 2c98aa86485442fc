-- ===== src/Api/Retrieve/Shards.antt =====
-- pkg/api/entries.go: which shards are searched for an entry.
use rekor.Base.{
  ◌≡◌, refl, ap, subst, sym, ◌∙◌, ◌⊎◌, inl, inr, ◌↔◌, true, false, List, [], ◌∷◌, ◌++◌, length,
  some, Result, ok, err, if◌then◌else◌,
}
use rekor.Base.Bytes.{Bytes}
use rekor.Base.Int64.{ℤ, pos, int_eq}
use rekor.Golib.Hex.{is_hex}
use rekor.Golib.Num.{parse_int}
use rekor.Sharding.EntryId.{
  get_uuid_from_id_string, tree_id_of, uuid_part, tree_id_part, plain_uuid,
}
use rekor.Sharding.EntryId
use rekor.Sharding.EntryId.Reading.{entry_id_read, plain_uuid_refused}
use rekor.Sharding.Ranges.{LogRange, get_active, get_inactive, get_log_range_by_tree_id}
use rekor.Sharding.Ranges
use rekor.Api.{Api, Error, LogEntry}
use rekor.Api.Retrieve.{
  retrieve_uuid_from_tree, search_trees, or_next, retrieve_log_entry, by_uuid, by_tree,
  in_known_tree,
}

module _ {E S V P W : Type 0} (api : Api E S V P W) (uuid : Bytes) where
  -- Each of the shards, asked in turn, has no such entry; the world changes from the first to the last.
  pub data Misses : List (LogRange S) → W → W → Type 0 where
    no_shard : {w : W} → Misses [] w w
    miss :
        {t : LogRange S} {ts : List (LogRange S)} {w u v : W}
        → retrieve_uuid_from_tree api uuid t.tree_id w ≡ (err Error.not_found, u)
        → Misses ts u v
        → Misses (t ∷ ts) w v

  -- An answer other than not found.
  abbrev pub Decides : Result (Error E) LogEntry → Type 0
  Decides (err Error.not_found) = ⊥
  Decides _ = Unit

  abbrev Stops :
      (o : Result (Error E) LogEntry × W) (next : W → Result (Error E) LogEntry × W) → Type 0
  Stops o next = (o.0 ≡ err Error.not_found) ⊎ (Decides o.0 × (or_next api o next ≡ o))

  stops :
      (o : Result (Error E) LogEntry × W) (next : W → Result (Error E) LogEntry × W) → Stops o next
  stops (ok e, w) next = inr (tt, refl)
  stops (err Error.not_found, w) next = inl refl
  stops (err _, w) next = inr (tt, refl)

  pub search_trees-Misses :
      (ts : List (LogRange S)) (w v : W)
      → search_trees api uuid ts w ≡ (err Error.not_found, v)
      → Misses ts w v
  unfolding search_trees
  search_trees-Misses [] w v e = subst (Misses [] w) (ap (λ x. x.1) e) no_shard
  search_trees-Misses (t ∷ ts) w v e =
      let o = retrieve_uuid_from_tree api uuid t.tree_id w in
      elim (stops o (search_trees api uuid ts)) [
        | inl h ↦
            let q : o ≡ (err Error.not_found, o.1) = ap (λ r. (r, o.1)) h in
            miss q (
              search_trees-Misses ts o.1 v
                (sym (ap (λ x. or_next api x (search_trees api uuid ts)) q) ∙ e))
        | inr (d, q) ↦ absurd (subst Decides (ap (λ x. x.0) (sym q ∙ e)) d)
      ]

  after-Misses :
      (pre post : List (LogRange S)) {w u : W}
      → Misses pre w u
      → search_trees api uuid (pre ++ post) w ≡ search_trees api uuid post u
  unfolding search_trees
  after-Misses [] post no_shard = refl
  after-Misses (t ∷ ts) post (miss e m) =
      ap (λ x. or_next api x (search_trees api uuid (ts ++ post))) e ∙ after-Misses ts post m

  all_missed :
      (ts : List (LogRange S)) {w v : W}
      → Misses ts w v
      → search_trees api uuid ts w ≡ (err Error.not_found, v)
  unfolding search_trees
  all_missed [] no_shard = refl
  all_missed (t ∷ ts) (miss e m) =
      ap (λ x. or_next api x (search_trees api uuid ts)) e ∙ all_missed ts m

  first-Decides :
      (t : LogRange S) (post : List (LogRange S)) (u : W)
      → Decides (retrieve_uuid_from_tree api uuid t.tree_id u).0
      → search_trees api uuid (t ∷ post) u ≡ retrieve_uuid_from_tree api uuid t.tree_id u
  unfolding search_trees
  first-Decides t post u d =
      elim (stops (retrieve_uuid_from_tree api uuid t.tree_id u) (search_trees api uuid post)) [
        | inl h ↦ absurd (subst Decides h d)
        | inr (_, q) ↦ q
      ]

  -- The search over the shards says that there is no such entry exactly if every shard says so, each
  -- asked once and in order.
  pub search_trees-not_found :
      (ts : List (LogRange S)) (w v : W)
      → (search_trees api uuid ts w ≡ (err Error.not_found, v)) ↔ Misses ts w v
  search_trees-not_found ts w v = (search_trees-Misses ts w v, all_missed ts)

  -- Where the shards before one say that there is no such entry and that one says anything else, the
  -- search ends with its answer, and the shards after it are not asked.
  pub search_trees-first :
      (pre post : List (LogRange S)) (t : LogRange S) (w u : W)
      → Misses pre w u
      → Decides (retrieve_uuid_from_tree api uuid t.tree_id u).0
      → search_trees api uuid (pre ++ t ∷ post) w ≡ retrieve_uuid_from_tree api uuid t.tree_id u
  search_trees-first pre post t w u m d = after-Misses pre (t ∷ post) m ∙ first-Decides t post u d

module _ {E S V P W : Type 0} (api : Api E S V P W) where
  refused_if_unknown :
      (uuid : Bytes) (tid : ℤ) (w : W) {x : Ranges.Error}
      → get_log_range_by_tree_id api.log_ranges tid ≡ err x
      → retrieve_uuid_from_tree api uuid tid w ≡ (err Error.not_found, w)
  unfolding retrieve_uuid_from_tree
  refused_if_unknown uuid tid w e = ap (λ r. in_known_tree api uuid tid r w) e

  -- A hexadecimal UUID of 64 bytes is searched for in the active shard and then in the inactive ones.
  pub retrieve_log_entry-plain_uuid :
      (id : Bytes) (w : W)
      → length id ≡ 64
      → is_hex id ≡ true
      → retrieve_log_entry api id w
        ≡ search_trees api id (get_active api.log_ranges ∷ get_inactive api.log_ranges) w
  unfolding retrieve_log_entry
  retrieve_log_entry-plain_uuid id w n h =
      let (a, _, b) = plain_uuid_refused id n h in
      ap (λ r. by_uuid api id r w) a ∙ ap (λ r. by_tree api id r w) b

  retrieve_log_entry_by_tree :
      (id : Bytes) (i : ℤ) (w : W)
      → length id ≡ 80
      → is_hex (uuid_part id) ≡ true
      → parse_int 16 (tree_id_part id) ≡ some i
      → int_eq i (pos 0) ≡ false
      → retrieve_log_entry api id w ≡ retrieve_uuid_from_tree api (uuid_part id) i w
  unfolding retrieve_log_entry
  retrieve_log_entry_by_tree id i w n h e z =
      let (a, b) = entry_id_read id {i = i} n h e in
      let read : tree_id_of id ≡ ok i =
        b ∙ ap (λ x. if x then err EntryId.zero_tree_id else ok i) z in
      ap (λ r. by_uuid api id r w) a ∙ ap (λ r. by_tree api (uuid_part id) r w) read

  -- An entry id with a tree id other than 0 that no shard has is not found, and no server is asked.
  pub retrieve_log_entry-unknown :
      (id : Bytes) (i : ℤ) (x : Ranges.Error) (w : W)
      → length id ≡ 80
      → is_hex (uuid_part id) ≡ true
      → parse_int 16 (tree_id_part id) ≡ some i
      → int_eq i (pos 0) ≡ false
      → get_log_range_by_tree_id api.log_ranges i ≡ err x
      → retrieve_log_entry api id w ≡ (err Error.not_found, w)
  retrieve_log_entry-unknown id i x w n h e z unknown =
      retrieve_log_entry_by_tree id i w n h e z ∙ refused_if_unknown (uuid_part id) i w unknown
