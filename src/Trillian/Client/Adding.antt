-- ===== src/Trillian/Client/Adding.antt =====
-- AddLeaf of pkg/trillianclient/trillian_client.go: a leaf is queued, waited for and read back.
pub mod Waiting
pub mod Verified
use rekor.Base.{
  ℕ, zero, suc, ◌==◌, Bool, true, false, not, ◌||◌, Option, none, some, List, [], ◌∷◌,
  if◌then◌else◌, length, Result, ok, err, ◌>>=◌, Option-cases,
}
use rekor.Base.Bytes.{Bytes}
use rekor.Base.Int64.{pos}
use rekor.Trillian.Client.{
  Code, ok_code, not_found, unknown, deadline_exceeded, CallError, wrong_proof_count, nil_pointer,
  InclusionProof, LogRoot, QueuedLeaf, ProofByHash, Response, status_code, failure, failed, Server,
  EntryAndProof, Leaf,
}
use rekor.Trillian.Client.Calls.{get_proof_by_hash, get_standalone_leaf, success}

abbrev pub is_ok_code : Code → Bool
is_ok_code ok_code = true
is_ok_code _ = false

abbrev pub is_not_found : Code → Bool
is_not_found not_found = true
is_not_found _ = false

module _ {E W : Type 0} (s : Server E W) where
  -- The call returns on a proof, and on an error other than NotFound.
  abbrev pub is_final : Option (CallError E) → Bool
  is_final none = true
  is_final (some e) = not (is_not_found (status_code (some e)))

  -- The lookup of a round, which is made only if the log is not empty: whether it is final, and the
  -- world after it.
  abbrev pub asked : Bytes → LogRoot → W → Bool × W
  asked hash root w =
      if root.tree_size == 0
      then (false, w)
      else (is_final (get_proof_by_hash s hash w).0.error, (get_proof_by_hash s hash w).1)

  abbrev pub after_wait :
      (LogRoot → W → Option (Response E × W))
      → Result (CallError E) LogRoot × W
      → Option (Response E × W)
  after_wait again (ok root, w) = again root w
  after_wait again (err e, w) = some (failure unknown (some e), w)

  -- The loop of waitForInclusion, with the root that the client knows; `none` is out of fuel.
  unfoldable pub wait_loop : ℕ → Bytes → LogRoot → W → Option (Response E × W)
  wait_loop zero hash root w = none
  wait_loop (suc fuel) hash root w =
      let rest = after_wait (wait_loop fuel hash) (s.wait_for_root_update (asked hash root w).1) in
      if (asked hash root w).0 then some (get_proof_by_hash s hash w) else rest

  abbrev pub delayed : ℕ → Bytes → LogRoot → Option (CallError E) × W → Option (Response E × W)
  delayed fuel hash root (none, w) = wait_loop fuel hash root w
  delayed fuel hash root (some e, w) = some (failure deadline_exceeded (some e), w)

  unfoldable pub wait_for_inclusion : ℕ → Bytes → LogRoot → W → Option (Response E × W)
  wait_for_inclusion fuel hash root w = delayed fuel hash root (s.merge_delay w)

  -- A failure after the leaf was queued still carries the queued leaf.
  abbrev pub failed_added : QueuedLeaf → CallError E → Response E
  failed_added q e = record (failed e) { get_add_result = some q }

  abbrev pub is_refused : Option Code → Bool
  is_refused none = false
  is_refused (some c) = not (is_ok_code c)

  abbrev pub with_leaf : QueuedLeaf → EntryAndProof → Option Leaf → Response E
  with_leaf q m none = failed_added q nil_pointer
  with_leaf q m (some leaf) = record success {
    get_add_result = some (record q { leaf = leaf });
    get_leaf_and_proof_result = some m;
  }

  -- The queued leaf becomes the leaf that was read back, which has the time of its integration.
  abbrev pub read_back : QueuedLeaf → Option (CallError E) → Option EntryAndProof → Response E
  read_back q (some e) m = failed_added q e
  read_back q none none = failed_added q nil_pointer
  read_back q none (some m) = with_leaf q m m.leaf

  abbrev pub one_proof : QueuedLeaf → Bytes → List InclusionProof → W → Response E × W
  one_proof q signed_root [] w = (failed_added q (wrong_proof_count 0), w)
  one_proof q signed_root (p ∷ []) w =
      let (r, v) = get_standalone_leaf s p.leaf_index q.leaf.merkle_leaf_hash p signed_root w in
      (read_back q r.error r.get_leaf_and_proof_result, v)
  one_proof q signed_root (p ∷ o ∷ ps) w =
      (failed_added q (wrong_proof_count (suc (suc (length ps)))), w)

  abbrev pub proved : QueuedLeaf → Option (CallError E) → Option ProofByHash → W → Response E × W
  proved q (some e) g w = (failed_added q e, w)
  proved q none none w = (failed_added q nil_pointer, w)
  proved q none (some g) w = one_proof q g.signed_log_root g.proofs w

  abbrev pub waited : QueuedLeaf → Option (Response E × W) → Option (Response E × W)
  waited q none = none
  waited q (some (r, w)) = some (proved q r.error r.get_proof_result w)

  abbrev pub rooted : ℕ → QueuedLeaf → Result (CallError E) LogRoot → W → Option (Response E × W)
  rooted fuel q (err e) w = some (failed_added q e, w)
  rooted fuel q (ok root) w = waited q (wait_for_inclusion fuel q.leaf.merkle_leaf_hash root w)

  -- A leaf that the server does not take is no error of the call.
  abbrev pub queued : ℕ → Result (CallError E) QueuedLeaf → W → Option (Response E × W)
  queued fuel (err e) w = some (failed e, w)
  queued fuel (ok q) w =
      if is_refused q.status
      then some (record success { get_add_result = some q }, w)
      else let (root, v) = s.get_latest_signed_log_root (pos 0) w in
        rooted fuel q (root >>= s.unmarshal_log_root) v

  unfoldable pub add_leaf : ℕ → Bytes → W → Option (Response E × W)
  add_leaf fuel byte_value w = let (a, v) = s.queue_leaf byte_value w in queued fuel a v
