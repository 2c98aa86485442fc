-- ===== src/Trillian/Client/Examples.antt =====
-- A log server with one leaf, on which the theorems about pkg/trillianclient/trillian_client.go are
-- applied. The world of `server` is the number of updates of its root that are to come, and the leaf is
-- found once that is down to 2.
use rekor.Base.{
  false, subst, ok-injective, ℕ, replicate, zero, suc, ◌≡◌, ◌<◌, ◌≤◌, refl, [], ◌∷◌, none, some,
  Result, ok, err, if◌then◌else◌, ltb, arith,
}
use rekor.Base.Bytes.{Bytes}
use rekor.Base.Int64.{pos}
use rekor.Trillian.Client.{
  status_code, not_found, CallError, status_error, plain_error, Leaf, InclusionProof, LogRoot,
  QueuedLeaf, EntryAndProof, Response, Server,
}
use rekor.Trillian.Client.Calls.{
  success, get_latest, get_proof_by_hash, get_leaf_and_proof_by_hash, get_leaves_by_range,
  get_leaf_without_proof, get_standalone_leaf,
}
use rekor.Trillian.Client.Sound.{Outcome, IsVerified, get_leaf_and_proof_by_hash-IsVerified}
use rekor.Trillian.Client.Adding.{is_not_found, add_leaf, wait_loop, wait_for_inclusion}
use rekor.Trillian.Client.Adding.Waiting.{Merges, add_leaf_total}
use rekor.Trillian.Client.Adding.Verified.{Added, add_leaf-Added}

abbrev pub hash_seven : Bytes
hash_seven = replicate 32 7

abbrev pub leaf_seven : Leaf
leaf_seven = record {
  leaf_value = b'x' ∷ [];
  merkle_leaf_hash = hash_seven;
  leaf_index = pos 0;
  integrate_timestamp = pos 1000;
}

abbrev pub proof_seven : InclusionProof
proof_seven = record { leaf_index = pos 0; hashes = [] }

abbrev pub root_seven : LogRoot
root_seven = record { tree_size = 1; root_hash = hash_seven }

abbrev pub entry_seven : EntryAndProof
entry_seven = record { proof = some proof_seven; leaf = some leaf_seven; signed_log_root = 1 ∷ [] }

abbrev pub queued_seven : QueuedLeaf
queued_seven = record { leaf = leaf_seven; status = none }

abbrev next_root : ℕ → Result (CallError ℕ) LogRoot × ℕ
next_root zero = (err (plain_error 0), zero)
next_root (suc w) = (ok root_seven, w)

abbrev pub server : Server ℕ ℕ
server = record {
  get_latest_signed_log_root = λ _ w. (ok (1 ∷ []), w);
  queue_leaf = λ _ w. (ok queued_seven, w);
  get_entry_and_proof = λ _ _ w. (ok entry_seven, w);
  get_inclusion_proof_by_hash =
      λ _ _ w. (if ltb 2 w then err (status_error not_found 0) else ok (proof_seven ∷ []), w);
  get_consistency_proof = λ _ _ w. (ok (record { proof = some []; signed_log_root = 1 ∷ [] }), w);
  get_leaves_by_range = λ _ _ w. (ok (leaf_seven ∷ []), w);
  merge_delay = λ w. (none, w);
  wait_for_root_update = next_root;
  unmarshal_log_root = λ _. ok root_seven;
  verify_inclusion = λ _ _ _ _ _. none;
  verify_inclusion_by_hash = λ _ _ _. none;
}

get_leaf_and_proof_by_hash-IsVerified_example :
    Outcome server (IsVerified server hash_seven) (get_leaf_and_proof_by_hash server hash_seven 1).0
get_leaf_and_proof_by_hash-IsVerified_example =
    get_leaf_and_proof_by_hash-IsVerified server hash_seven 1

-- The leaf is found from the third update of the root on; the world is the number of updates.
abbrev merging : Server ℕ ℕ
merging = record server {
  get_inclusion_proof_by_hash =
      λ _ _ w. (if ltb w 3 then err (status_error not_found 0) else ok (proof_seven ∷ []), w);
  wait_for_root_update = λ w. (ok root_seven, suc w);
}

lookup_stays : (hash : Bytes) (w : ℕ) → w ≤ (get_proof_by_hash merging hash w).1
unfolding get_proof_by_hash get_latest
lookup_stays hash w = omega arith

found_then :
    (hash : Bytes) (w : ℕ) (e : CallError ℕ)
    → 3 ≤ w
    → (get_proof_by_hash merging hash w).0.error ≡ some e
    → is_not_found (status_code (some e)) ≡ false
unfolding get_proof_by_hash get_latest
found_then hash w e h found = let past : ltb w 3 ≡ false = ground arith in cc (rw past at found)

abbrev merges : (hash : Bytes) → Merges merging hash 3
merges hash = record {
  updates = λ w. w;
  lookup_keeps = lookup_stays hash;
  wait_updates = λ w root e. omega arith;
  not_empty = λ w root e h. subst (λ r. 0 < r.tree_size) (ok-injective e) (omega arith);
  is_found = found_then hash;
}

add_leaf_total_example : (r : Response ℕ × ℕ) × (add_leaf merging 5 (b'x' ∷ []) 0 ≡ some r)
add_leaf_total_example =
    add_leaf_total merging 3 5 (b'x' ∷ []) 0 (λ q e. merges q.leaf.merkle_leaf_hash) (omega arith)

abbrev pub added_seven : Response ℕ
added_seven = record success {
  get_add_result = some queued_seven;
  get_leaf_and_proof_result = some entry_seven;
}

pub seven_added : add_leaf server 5 (b'x' ∷ []) 4 ≡ some (added_seven, 2)
unfolding add_leaf wait_for_inclusion wait_loop get_proof_by_hash get_latest get_standalone_leaf
    get_leaf_without_proof get_leaves_by_range
seven_added = refl

add_leaf-Added_example : Added server (ok queued_seven) added_seven
add_leaf-Added_example = add_leaf-Added server 5 (b'x' ∷ []) 4 seven_added
