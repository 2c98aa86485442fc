-- ===== src/Api/Tlog/Shards.antt =====
-- pkg/api/tlog.go: which shards an answer is about.
use rekor.Base.{
  ◌≡◌, refl, ap, sym, ◌∙◌, ◌⊎◌, inl, inr, ℕ, Bool, true, List, [], ◌∷◌, none, some, map, Result, ok,
  err, >>=-eq-ok, wrap, ok-injective, Bool-cases,
}
use rekor.Base.Bytes.{Bytes}
use rekor.Base.Int64.{ℤ, pos, int_lt}
use rekor.Golib.Num.{format_int, parse_int}
use rekor.Sharding.Ranges.{LogRange, get_active, get_inactive, get_log_range_by_tree_id}
use rekor.Sharding.Ranges
use rekor.Trillian.Client.{Response, Server}
use rekor.Trillian.Client.Calls.{get_latest}
use rekor.Util.SignedCheckpoint.{create_and_sign_checkpoint_multiple}
use rekor.Api.{Api}
use rekor.Api.Tlog.{
  TlogError, LogInfo, LogProof, InactiveShardLogInfo, cached, deref, ok_or, bad_log_root,
  response_code, grpc_error, sth_generate, unknown_tree, invalid_tree_id,
  first_size_less_than_last_size, http_status, shard_info, shard_info_from, inactive_shard_log_info,
  inactive_infos, and_rest, log_info_of, with_infos, log_info_from, get_log_info_handler,
  tree_asked, parsed_tree, known_tree, get_log_proof_handler, unless_reversed, log_proof_in,
}

module _ {E S V P W : Type 0} (api : Api E S V P W) where
  -- What the information on a shard names: the tree, and the cached checkpoint.
  abbrev pub named : InactiveShardLogInfo → Bytes × Bytes
  named is = (is.tree_id, is.signed_tree_head)

  abbrev pub name_of : LogRange S → Bytes × Bytes
  name_of r = (format_int 10 r.tree_id, cached (api.cached_checkpoints r.tree_id))

  shard_info-named :
      (r : LogRange S) (resp : Response E) {is : InactiveShardLogInfo}
      → shard_info api r.tree_id resp ≡ ok is
      → named is ≡ name_of r
  unfolding shard_info
  shard_info-named r resp e =
      let (_, _, e1) = >>=-eq-ok (ok_or (response_code resp.status) resp.status) _ e in
      let (root, _, e2) = >>=-eq-ok (deref resp.get_latest_result) _ e1 in
      let (x, _, e3) = >>=-eq-ok (wrap bad_log_root (api.unmarshal_log_root root)) _ e2 in
      sym (ap named (ok-injective e3))

  shard_info_from-named :
      (r : LogRange S) (c : Result E (Server E W) × W) {is : InactiveShardLogInfo}
      → (shard_info_from api r.tree_id c).0 ≡ ok is
      → named is ≡ name_of r
  shard_info_from-named r (err x, w) e = cc
  shard_info_from-named r (ok tc, w) e = shard_info-named r (get_latest tc (pos 0) w).0 e

  and_rest-ok :
      (o : Result (TlogError E) InactiveShardLogInfo × W)
      (rest : W → Result (TlogError E) (List InactiveShardLogInfo) × W)
      {infos : List InactiveShardLogInfo}
      → (and_rest api o rest).0 ≡ ok infos
      → (is : InactiveShardLogInfo) × (more : List InactiveShardLogInfo) × (o.0 ≡ ok is)
        × ((rest o.1).0 ≡ ok more)
        × (infos ≡ is ∷ more)
  and_rest-ok (err x, w) rest e = cc
  and_rest-ok (ok is, w) rest e =
      let (more, q, e1) = >>=-eq-ok (rest w).0 _ e in (is, more, refl, q, sym (ok-injective e1))

  inactive_infos-named :
      (rs : List (LogRange S)) (w : W) {infos : List InactiveShardLogInfo}
      → (inactive_infos api rs w).0 ≡ ok infos
      → map named infos ≡ map name_of rs
  unfolding inactive_infos inactive_shard_log_info
  inactive_infos-named [] w e = sym (ap (map named) (ok-injective e))
  inactive_infos-named (r ∷ rs) w e =
      let o = inactive_shard_log_info api r.tree_id w in
      let (is, more, q, p, same) = and_rest-ok o (inactive_infos api rs) e in
      let head = shard_info_from-named r (api.get_trillian_client r.tree_id w) q in
      let tail = inactive_infos-named rs o.1 p in
      ap (map named) same ∙ ap (λ x. x ∷ map named more) head ∙ ap (λ x. name_of r ∷ x) tail

  log_info_of-names :
      (infos : List InactiveShardLogInfo) (resp : Response E) {i : LogInfo}
      → log_info_of api infos resp ≡ ok i
      → (i.inactive_shards ≡ infos)
        × (i.tree_id ≡ format_int 10 (get_active api.log_ranges).tree_id)
  unfolding log_info_of
  log_info_of-names infos resp {i} e =
      let (_, _, e1) = >>=-eq-ok (ok_or (grpc_error resp.error) resp.status) _ e in
      let (root, _, e2) = >>=-eq-ok (deref resp.get_latest_result) _ e1 in
      let (x, _, e3) = >>=-eq-ok (wrap bad_log_root (api.unmarshal_log_root root)) _ e2 in
      let (sc, _, e4) =
        >>=-eq-ok
          (wrap sth_generate (
            create_and_sign_checkpoint_multiple api.crypto api.hostname
              (get_active api.log_ranges).tree_id x.tree_size x.root_hash
              (get_active api.log_ranges).signers))
          _ e3 in
      let q = ok-injective e4 in (sym (ap (λ y. y.inactive_shards) q), sym (ap (λ y. y.tree_id) q))

  with_infos-names :
      (tc : Server E W) (r : Result (TlogError E) (List InactiveShardLogInfo) × W) {i : LogInfo}
      → (with_infos api tc r).0 ≡ ok i
      → (r.0 ≡ ok i.inactive_shards)
        × (i.tree_id ≡ format_int 10 (get_active api.log_ranges).tree_id)
  with_infos-names tc (err x, w) e = cc
  with_infos-names tc (ok infos, w) e =
      let (a, b) = log_info_of-names infos (get_latest tc (pos 0) w).0 e in (ap ok (sym a), b)

  log_info_from-names :
      (c : Result E (Server E W) × W) {i : LogInfo}
      → (log_info_from api c).0 ≡ ok i
      → (map named i.inactive_shards ≡ map name_of (get_inactive api.log_ranges))
        × (i.tree_id ≡ format_int 10 (get_active api.log_ranges).tree_id)
  log_info_from-names (err x, w) e = cc
  log_info_from-names (ok tc, w) e =
      let (a, b) = with_infos-names tc (inactive_infos api (get_inactive api.log_ranges) w) e in
      (inactive_infos-named (get_inactive api.log_ranges) w a, b)

  -- An answer of GetLogInfoHandler names the active tree, and every inactive shard once and in order,
  -- each with the checkpoint cached for it.
  pub get_log_info_handler-names :
      (w : W) (i : LogInfo)
      → (get_log_info_handler api w).0 ≡ ok i
      → (map named i.inactive_shards ≡ map name_of (get_inactive api.log_ranges))
        × (i.tree_id ≡ format_int 10 (get_active api.log_ranges).tree_id)
  unfolding get_log_info_handler
  get_log_info_handler-names w i e =
      log_info_from-names (api.get_trillian_client (get_active api.log_ranges).tree_id w) e

  tree_asked-refuses :
      (c : ℕ) (cs : Bytes)
      → (parse_int 10 (c ∷ cs) ≡ none)
        ⊎ ((t : ℤ) × (x : Ranges.Error) × (parse_int 10 (c ∷ cs) ≡ some t)
            × (get_log_range_by_tree_id api.log_ranges t ≡ err x))
      → (x : TlogError E) × (tree_asked api (c ∷ cs) ≡ err x) × (http_status x ≡ 400)
  unfolding tree_asked
  tree_asked-refuses c cs (inl e) =
      (invalid_tree_id (c ∷ cs), ap (parsed_tree api (c ∷ cs)) e, refl)
  tree_asked-refuses c cs (inr (t, x, e, missing)) =
      (unknown_tree x, ap (parsed_tree api (c ∷ cs)) e ∙ ap (known_tree api t) missing, refl)

  -- The tree id of the request is not empty, and is no decimal int64 or the id of no shard.
  abbrev pub IsBadTree : Bytes → Type 0
  IsBadTree tree_id =
      (c : ℕ) × (cs : Bytes) × (tree_id ≡ c ∷ cs)
      × ((parse_int 10 (c ∷ cs) ≡ none)
          ⊎ ((t : ℤ) × (x : Ranges.Error) × (parse_int 10 (c ∷ cs) ≡ some t)
              × (get_log_range_by_tree_id api.log_ranges t ≡ err x)))

  bad_tree-refuses :
      (tree_id : Bytes)
      → IsBadTree tree_id
      → (x : TlogError E) × (tree_asked api tree_id ≡ err x) × (http_status x ≡ 400)
  bad_tree-refuses tree_id (c, cs, same, bad) =
      let (x, e, status) = tree_asked-refuses c cs bad in (x, ap (tree_asked api) same ∙ e, status)

  -- A first size that is larger than the last, whatever the tree id, and else a tree id that is neither
  -- empty nor a decimal int64 of a shard, are answered with the status 400, and no server is asked.
  pub get_log_proof_handler-refuses :
      (first_size last_size : ℤ) (tree_id : Bytes) (w : W)
      → (int_lt last_size first_size ≡ true) ⊎ IsBadTree tree_id
      → (x : TlogError E) × (get_log_proof_handler api first_size last_size tree_id w ≡ (err x, w))
        × (http_status x ≡ 400)
  unfolding get_log_proof_handler
  get_log_proof_handler-refuses first_size last_size tree_id w h =
      let by : Bool → Result (TlogError E) LogProof × W =
        λ b. unless_reversed api b first_size last_size tree_id w in
      elim (Bool-cases (int_lt last_size first_size)) [
        | inl reversed ↦ (first_size_less_than_last_size first_size last_size, ap by reversed, refl)
        | inr ordered ↦ elim h [
          | inl reversed ↦
              (first_size_less_than_last_size first_size last_size, ap by reversed, refl)
          | inr bad ↦
              let (x, e, status) = bad_tree-refuses tree_id bad in
              (x, ap by ordered ∙ ap (λ r. log_proof_in api first_size last_size r w) e, status)
        ]
      ]
