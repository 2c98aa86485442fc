-- ===== src/Trillian/Client/Adding/Waiting.antt =====
-- The wait of AddLeaf in pkg/trillianclient/trillian_client.go ends once the leaf is merged.
use rekor.Base.{
  ◌+◌, not, ap, ◌∙◌, ◌⊎◌, inl, inr, Option-cases, dec_lt, ℕ, zero, suc, ◌==◌, ◌≡◌, ◌<◌, ◌≤◌, refl,
  Bool, true, false, Option, none, some, if◌then◌else◌, Result, ok, err, arith,
}
use rekor.Base.Bytes.{Bytes}
use rekor.Trillian.Client.{status_code, CallError, LogRoot, QueuedLeaf, Response, Server}
use rekor.Trillian.Client.Calls.{get_proof_by_hash}
use rekor.Trillian.Client.Adding.{
  is_not_found, is_final, asked, after_wait, wait_loop, delayed, wait_for_inclusion, is_refused,
  waited, rooted, queued, add_leaf,
}

≤-cases : (a b : ℕ) → (a ≤ b) ⊎ (b < a)
≤-cases a b = elim (dec_lt b a) [ yes h ↦ inr h | no h ↦ inl (omega (arith, h)) ]

module _ {E W : Type 0} (s : Server E W) where
  some_or :
      (b : Bool) (x : Response E × W) (o : Option (Response E × W))
      → (r : Response E × W) × (o ≡ some r)
      → (r : Response E × W) × ((if b then some x else o) ≡ some r)
  some_or true x o h = (x, refl)
  some_or false x o h = h

  after_wait_total :
      (again : LogRoot → W → Option (Response E × W)) (a : Result (CallError E) LogRoot) (w : W)
      → ((root : LogRoot) → a ≡ ok root → (r : Response E × W) × (again root w ≡ some r))
      → (r : Response E × W) × (after_wait s again (a, w) ≡ some r)
  after_wait_total again (ok root) w h = h root refl
  after_wait_total again (err e) w h = (_, refl)

  delayed_total :
      (fuel : ℕ) (hash : Bytes) (root : LogRoot) (o : Option (CallError E)) (w : W)
      → (r : Response E × W) × (wait_loop s fuel hash root w ≡ some r)
      → (r : Response E × W) × (delayed s fuel hash root (o, w) ≡ some r)
  delayed_total fuel hash root none w h = h
  delayed_total fuel hash root (some e) w h = (_, refl)

  waited_total :
      (q : QueuedLeaf) (o : Option (Response E × W))
      → (r : Response E × W) × (o ≡ some r)
      → (r : Response E × W) × (waited s q o ≡ some r)
  waited_total q none (r, e) = cc
  waited_total q (some _) h = (_, refl)

-- The log server merges the leaf: each wait that ends with a root is an update of it, and from `n`
-- updates on the log is not empty, and a lookup of the leaf does not answer NotFound.
pub record Merges {E W : Type 0} (s : Server E W) (hash : Bytes) (n : ℕ) : Type 0 where
  pub updates : W → ℕ
  pub lookup_keeps : (w : W) → updates w ≤ updates (get_proof_by_hash s hash w).1
  pub wait_updates :
      (w : W) (root : LogRoot)
      → (s.wait_for_root_update w).0 ≡ ok root
      → updates w < updates (s.wait_for_root_update w).1
  pub not_empty :
      (w : W) (root : LogRoot)
      → (s.wait_for_root_update w).0 ≡ ok root
      → n ≤ updates (s.wait_for_root_update w).1
      → 0 < root.tree_size
  pub is_found :
      (w : W) (e : CallError E)
      → n ≤ updates w
      → (get_proof_by_hash s hash w).0.error ≡ some e
      → is_not_found (status_code (some e)) ≡ false

module _ {E W : Type 0} (s : Server E W) (hash : Bytes) (n : ℕ) (m : Merges s hash n) where
  open m use {updates, lookup_keeps, wait_updates, not_empty, is_found}

  asked_keeps :
      (root : LogRoot) (w : W) (b : Bool)
      → updates w
        ≤ updates
            (if◌then◌else◌ {A = Bool × W} b
              (false, w)
              (is_final s (get_proof_by_hash s hash w).0.error, (get_proof_by_hash s hash w).1)).1
  asked_keeps root w true = omega arith
  asked_keeps root w false = lookup_keeps w

  found_final : (w : W) → n ≤ updates w → is_final s (get_proof_by_hash s hash w).0.error ≡ true
  found_final w h = elim (Option-cases (get_proof_by_hash s hash w).0.error) [
    | inl q ↦ ap (is_final s) q
    | inr (e, q) ↦ ap (is_final s) q ∙ ap not (is_found w e h q)
  ]

  -- A round on a log that has the leaf returns.
  merged_round :
      (fuel : ℕ) (root : LogRoot) (w : W)
      → 0 < root.tree_size
      → n ≤ updates w
      → (r : Response E × W) × (wait_loop s (suc fuel) hash root w ≡ some r)
  unfolding wait_loop
  merged_round fuel root w z h =
      let some_size : (root.tree_size == 0) ≡ false = ground arith in
      (get_proof_by_hash s hash w, rw (some_size, found_final w h) refl)

  wait_loop_total :
      (fuel : ℕ) (root : LogRoot) (w : W)
      → 1 < fuel
      → n + 1 < fuel + updates w
      → (r : Response E × W) × (wait_loop s fuel hash root w ≡ some r)
  unfolding wait_loop
  wait_loop_total zero root w h k = absurd (omega arith)
  wait_loop_total (suc zero) root w h k = absurd (omega arith)
  wait_loop_total (suc (suc fuel)) root w h k =
      let v = (asked s hash root w).1 in
      let u = (s.wait_for_root_update v).1 in
      let kept = asked_keeps root w (root.tree_size == 0) in
      some_or s (asked s hash root w).0 (get_proof_by_hash s hash w) _ (
        after_wait_total s (wait_loop s (suc fuel) hash) _ _
          (λ update (e : (s.wait_for_root_update v).0 ≡ ok update).
            let more = wait_updates v update e in
            elim (≤-cases n (updates u)) [
              | inl merged ↦ merged_round fuel update u (not_empty v update e merged) merged
              | inr not_yet ↦
                  wait_loop_total (suc fuel) update u (omega (arith, k, kept, more, not_yet))
                    (omega (arith, k, kept, more))
            ]))

module _ {E W : Type 0} (s : Server E W) where
  rooted_total :
      (n fuel : ℕ) (q : QueuedLeaf) (a : Result (CallError E) LogRoot) (w : W)
      → Merges s q.leaf.merkle_leaf_hash n
      → n + 1 < fuel
      → (r : Response E × W) × (rooted s fuel q a w ≡ some r)
  unfolding wait_for_inclusion
  rooted_total n fuel q (err e) w m h = (_, refl)
  rooted_total n fuel q (ok root) w m h =
      let hash = q.leaf.merkle_leaf_hash in
      let (o, v) = s.merge_delay w in
      waited_total s q (wait_for_inclusion s fuel hash root w) (
        delayed_total s fuel hash root o v
          (wait_loop_total s hash n m fuel root v (omega arith) (omega arith)))

  queued_total :
      (n fuel : ℕ) (a : Result (CallError E) QueuedLeaf) (w : W)
      → ((q : QueuedLeaf) → a ≡ ok q → Merges s q.leaf.merkle_leaf_hash n)
      → n + 1 < fuel
      → (r : Response E × W) × (queued s fuel a w ≡ some r)
  queued_total n fuel (err e) w m h = (_, refl)
  queued_total n fuel (ok q) w m h =
      some_or s (is_refused s q.status) _ _ (rooted_total n fuel q _ _ (m q refl) h)

  -- If every wait that ends with a root is an update of it, and the log server merges the leaf that
  -- QueueLeaf answers within `n` updates, that is, from then on the log is not empty and a lookup of the
  -- leaf's hash does not answer NotFound, then AddLeaf returns a response, and the wait takes at most
  -- `n` + 2 rounds.
  pub add_leaf_total :
      (n fuel : ℕ) (value : Bytes) (w : W)
      → ((q : QueuedLeaf) → (s.queue_leaf value w).0 ≡ ok q → Merges s q.leaf.merkle_leaf_hash n)
      → n + 1 < fuel
      → (r : Response E × W) × (add_leaf s fuel value w ≡ some r)
  unfolding add_leaf
  add_leaf_total n fuel value w merges h = queued_total n fuel _ _ merges h
