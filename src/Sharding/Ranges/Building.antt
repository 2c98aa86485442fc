-- ===== src/Sharding/Ranges/Building.antt =====
-- pkg/sharding/ranges.go: the shards from their configuration. Files, YAML, JSON, keys and log
-- servers are of other packages, and are parameters.
pub mod Built
mod Examples
use rekor.Base.{
  wrap, wrap-eq-ok, ℕ, suc, Bool, true, false, List, [], ◌∷◌, ◌++◌, Option, none, some,
  if◌then◌else◌, Result, ok, err, ◌>>=◌, ◌>>◌,
}
use rekor.Base.Bytes.{Bytes}
use rekor.Base.Int64.{ℤ, pos, int_eq, to_int64}
use rekor.Signer.{SigningConfig, Providers, is_unset, new_multiple_from_config}
use rekor.Signer
use rekor.Sharding.Ranges.{LogRange, LogRanges}

-- `panic` is the index 0 of an empty slice; the numbers are places of signers.
pub data Error (E : Type 0) : Type 0 where
  zero_tree_id : Error E
  signing_config_not_set : Error E
  creating_signers : Signer.Error E → Error E
  getting_public_key : ℕ → E → Error E
  marshalling_public_key : ℕ → E → Error E
  getting_key_identity : ℕ → E → Error E
  creating_active_range : ℤ → Error E → Error E
  log_ranges_from_path_failed : E → Error E
  updating_range : ℤ → Error E → Error E
  panic : Error E
  getting_log_client : ℤ → E → Error E
  getting_log_root : ℤ → E → Error E
  bad_log_root : E → Error E

-- A signer's key, its PEM text, and the text of its identity; the content of a file, and the
-- unmarshallers, which fill in what they are given and may fail after that.
pub record Keys (E S P : Type 0) : Type 0 where
  pub public_key_of : S → Result E P
  pub to_pem : P → Result E Bytes
  pub key_id : P → Result E Bytes

pub record Files (E S : Type 0) : Type 0 where
  pub read_file : Bytes → Result E Bytes
  pub yaml_unmarshal : Bytes → Option (List (LogRange S)) → Option (List (LogRange S)) × Option E
  pub json_unmarshal : Bytes → Option (List (LogRange S)) → Option (List (LogRange S)) × Option E

module _ {E S K P : Type 0} (p : Providers E S K) (k : Keys E S P) where
  -- The texts of the keys of the signers from the place `i` on.
  pub pems_and_ids : ℕ → List S → Result (Error E) (List Bytes × List Bytes)
  pems_and_ids i [] = ok ([], [])
  pems_and_ids i (s ∷ ss) = do
    pub_key ← wrap (getting_public_key i) (k.public_key_of s)
    pem ← wrap (marshalling_public_key i) (k.to_pem pub_key)
    id ← wrap (getting_key_identity i) (k.key_id pub_key)
    (pems, ids) ← pems_and_ids (suc i) ss
    ok (pem ∷ pems, id ∷ ids)

  abbrev pub first_or_panic : {A : Type 0} → List A → Result (Error E) A
  first_or_panic [] = err panic
  first_or_panic (x ∷ _) = ok x

  pub initialize_range : LogRange S → Result (Error E) (LogRange S)
  initialize_range r = if is_unset r.signing_config then err signing_config_not_set else do
    signers ← wrap creating_signers (new_multiple_from_config p r.signing_config)
    signer ← first_or_panic signers
    (pems, ids) ← pems_and_ids 0 signers
    pem ← first_or_panic pems
    id ← first_or_panic ids
    ok (record r {
      signer = some signer;
      pem_pub_key = pem;
      log_id = id;
      signers = signers;
      pem_pub_keys = pems;
      log_ids = ids;
    })

  -- LogRange{TreeID: tree_id, SigningConfig: signing_config}
  abbrev pub fresh_range : ℤ → SigningConfig → LogRange S
  fresh_range tree_id signing_config = record {
    tree_id = tree_id;
    tree_length = pos 0;
    signing_config = signing_config;
    grpc_config = none;
    signer = none;
    pem_pub_key = [];
    log_id = [];
    signers = [];
    pem_pub_keys = [];
    log_ids = [];
  }

  abbrev pub json_or :
      E → Option (List (LogRange S)) × Option E → Result E (Option (List (LogRange S)))
  json_or e (ranges, none) = ok ranges
  json_or e (ranges, some _) = err e

  abbrev pub yaml_or_json :
      Files E S
      → Bytes
      → Option (List (LogRange S)) × Option E
      → Result E (Option (List (LogRange S)))
  yaml_or_json f contents (ranges, none) = ok ranges
  yaml_or_json f contents (ranges, some e) = json_or e (f.json_unmarshal contents ranges)

  abbrev pub parse_ranges : Files E S → Bytes → Result E (Option (List (LogRange S)))
  parse_ranges f [] = ok (some [])
  parse_ranges f (c ∷ cs) = yaml_or_json f (c ∷ cs) (f.yaml_unmarshal (c ∷ cs) none)

  pub log_ranges_from_path : Files E S → Bytes → Result E (Option (List (LogRange S)))
  log_ranges_from_path f path = f.read_file path >>= parse_ranges f

  -- A range with no configuration of its own takes that of the active one.
  abbrev pub with_default : SigningConfig → LogRange S → LogRange S
  with_default signing_config r =
      if is_unset r.signing_config then record r { signing_config = signing_config } else r

  -- The error names the tree id of the empty range that the failed call returns.
  pub initialize_ranges : SigningConfig → List (LogRange S) → Result (Error E) (List (LogRange S))
  initialize_ranges signing_config [] = ok []
  initialize_ranges signing_config (r ∷ rs) = do
    q ← wrap (updating_range (pos 0)) (initialize_range (with_default signing_config r))
    qs ← initialize_ranges signing_config rs
    ok (q ∷ qs)

  abbrev pub initialize_all :
      SigningConfig → Option (List (LogRange S)) → Result (Error E) (Option (List (LogRange S)))
  initialize_all signing_config none = ok none
  initialize_all signing_config (some rs) =
      initialize_ranges signing_config rs >>= λ qs. ok (some qs)

  abbrev pub inactive_from :
      Files E S → SigningConfig → Bytes → Result (Error E) (Option (List (LogRange S)))
  inactive_from f signing_config [] = ok none
  inactive_from f signing_config (c ∷ path) =
      wrap log_ranges_from_path_failed (log_ranges_from_path f (c ∷ path))
      >>= initialize_all signing_config

  pub new_log_ranges : Files E S → Bytes → ℤ → SigningConfig → Result (Error E) (LogRanges S)
  new_log_ranges f inactive_shards_path active_tree_id signing_config =
      if int_eq active_tree_id (pos 0) then err zero_tree_id else do
        active ←
            wrap (creating_active_range active_tree_id)
              (initialize_range (fresh_range active_tree_id signing_config))
        inactive ← inactive_from f signing_config inactive_shards_path
        ok (record { inactive = inactive; active = active })

-- What CompleteInitialization asks of the log server of a tree.
pub record Latest (E R : Type 0) : Type 0 where
  pub get_client : ℤ → Option E
  pub get_latest : ℤ → Result E Bytes
  pub unmarshal_root : Bytes → Result E R
  pub tree_size : R → ℕ

abbrev pub found_client : {E F : Type 0} → (E → F) → Option E → Result F (Unit {0})
found_client f none = ok tt
found_client f (some e) = err (f e)

module _ {E R : Type 0} (q : Latest E R) where
  pub latest_root : ℤ → Result (Error E) R
  latest_root tree_id = do
    found_client (getting_log_client tree_id) (q.get_client tree_id)
    root ← wrap (getting_log_root tree_id) (q.get_latest tree_id)
    wrap bad_log_root (q.unmarshal_root root)

module _ {E S R : Type 0} (q : Latest E R) where
  -- The shards as they are left, and the roots, the latest first; an error leaves the shards behind
  -- it as they were.
  pub complete_shards :
      List (ℤ × R) → List (LogRange S) → List (LogRange S) × Result (Error E) (List (ℤ × R))
  complete_shards roots [] = ([], ok roots)
  complete_shards roots (r ∷ rs) = elim (latest_root q r.tree_id) [
    | err e ↦ (r ∷ rs, err e)
    | ok root ↦
        let (done, result) = complete_shards ((r.tree_id, root) ∷ roots) rs in
        (record r { tree_length = to_int64 (q.tree_size root) } ∷ done, result)
  ]

  abbrev pub completed :
      LogRanges S → Option (List (LogRange S)) → LogRanges S × Result (Error E) (List (ℤ × R))
  completed l none = (l, ok [])
  completed l (some rs) =
      let (done, result) = complete_shards [] rs in (record l { inactive = some done }, result)

  pub complete_initialization : LogRanges S → LogRanges S × Result (Error E) (List (ℤ × R))
  complete_initialization l = completed l l.inactive
