-- ===== src/Trillian/Client/Adding/Verified.antt =====
-- What AddLeaf of pkg/trillianclient/trillian_client.go has verified when it succeeds.
use rekor.Base.{
  ℕ, zero, suc, ◌≡◌, ◌∙◌, sym, refl, ap, subst, Bool, true, false, Option, none, some, List, [],
  ◌∷◌, if◌then◌else◌, Result, ok, err, inl, inr, ◌⊎◌, All, some-injective,
}
use mathlib.Core.Path.{subst₂}
use rekor.Base.Bytes.{Bytes}
use rekor.Trillian.Client.{
  ok_code, CallError, InclusionProof, LogRoot, QueuedLeaf, ProofByHash, Response, Server,
  EntryAndProof, Leaf,
}
use rekor.Trillian.Client.Calls.{get_proof_by_hash, get_standalone_leaf, success}
use rekor.Trillian.Client.Sound.{
  IsVerified, Proved, Outcome, get_proof_by_hash-Proved, get_standalone_leaf-Outcome,
}
use rekor.Trillian.Client.Adding.{
  asked, after_wait, wait_loop, delayed, wait_for_inclusion, is_refused, read_back, with_leaf,
  one_proof, proved, waited, rooted, queued, add_leaf,
}

module _ {E W : Type 0} (s : Server E W) where
  abbrev pub Fails : Response E → Type 0
  Fails r = (e : CallError E) × (r.error ≡ some e) × (r.get_leaf_and_proof_result ≡ none)

  -- The result is a leaf with the hash of the queued one, and a proof that was verified for that hash;
  -- the queued leaf is answered with that leaf in its place.
  abbrev pub ReadBack : QueuedLeaf → Response E → Type 0
  ReadBack q r =
      (leaf : Leaf) × (m : EntryAndProof) × (r.error ≡ none)
      × (r.status ≡ ok_code)
      × (r.get_add_result ≡ some (record q { leaf = leaf }))
      × (r.get_leaf_and_proof_result ≡ some m)
      × (m.leaf ≡ some leaf)
      × (leaf.merkle_leaf_hash ≡ q.leaf.merkle_leaf_hash)
      × IsVerified s q.leaf.merkle_leaf_hash m

  -- Of what QueueLeaf answers: AddLeaf fails with no result; or the server has not taken the leaf, and
  -- says why; or it has, and the leaf that it queued is read back.
  abbrev pub Added : Result (CallError E) QueuedLeaf → Response E → Type 0
  Added a r =
      Fails r
      ⊎ ((q : QueuedLeaf) × (a ≡ ok q)
          × (is_refused s q.status ≡ true)
          × (r.error ≡ none)
          × (r.get_add_result ≡ some q)
          × (r.get_leaf_and_proof_result ≡ none))
      ⊎ ((q : QueuedLeaf) × (a ≡ ok q) × (is_refused s q.status ≡ false) × ReadBack q r)

  abbrev IsProved : Bytes → Option (Response E × W) → Type 0
  IsProved hash none = Unit
  IsProved hash (some (r, w)) = Proved s hash r.get_proof_result

  some_or-IsProved :
      (hash : Bytes) (b : Bool) (x : Response E × W) (o : Option (Response E × W))
      → Proved s hash x.0.get_proof_result
      → IsProved hash o
      → IsProved hash (if b then some x else o)
  some_or-IsProved hash true x o h k = h
  some_or-IsProved hash false x o h k = k

  after_wait-IsProved :
      (hash : Bytes) (again : LogRoot → W → Option (Response E × W))
      (a : Result (CallError E) LogRoot) (w : W)
      → ((root : LogRoot) → IsProved hash (again root w))
      → IsProved hash (after_wait s again (a, w))
  after_wait-IsProved hash again (ok root) w h = h root
  after_wait-IsProved hash again (err e) w h = tt

  wait_loop-IsProved :
      (fuel : ℕ) (hash : Bytes) (root : LogRoot) (w : W)
      → IsProved hash (wait_loop s fuel hash root w)
  unfolding wait_loop
  wait_loop-IsProved zero hash root w = tt
  wait_loop-IsProved (suc fuel) hash root w =
      some_or-IsProved hash (asked s hash root w).0 (get_proof_by_hash s hash w) _
        (get_proof_by_hash-Proved s hash w)
        (after_wait-IsProved hash (wait_loop s fuel hash) _ _
          (λ update. wait_loop-IsProved fuel hash update _))

  delayed-IsProved :
      (fuel : ℕ) (hash : Bytes) (root : LogRoot) (o : Option (CallError E)) (w : W)
      → IsProved hash (delayed s fuel hash root (o, w))
  delayed-IsProved fuel hash root none w = wait_loop-IsProved fuel hash root w
  delayed-IsProved fuel hash root (some e) w = tt

  with_leaf-Added :
      (q : QueuedLeaf) (m : EntryAndProof) (o : Option Leaf)
      → m.leaf ≡ o
      → IsVerified s q.leaf.merkle_leaf_hash m
      → Fails (with_leaf s q m o) ⊎ ReadBack q (with_leaf s q m o)
  with_leaf-Added q m none e v = inl (_, refl, refl)
  with_leaf-Added q m (some leaf) e (found, p, root, h, hp, same, u, v) =
      let is : found ≡ leaf = some-injective (sym h ∙ e) in
      inr (
        leaf,
        m,
        refl,
        refl,
        refl,
        refl,
        e,
        sym (ap (λ x. x.merkle_leaf_hash) is) ∙ same,
        (found, p, root, h, hp, same, u, v),
      )

  read_back-Added :
      (q : QueuedLeaf) (r : Response E)
      → Outcome s (IsVerified s q.leaf.merkle_leaf_hash) r
      → let x = read_back s q r.error r.get_leaf_and_proof_result in Fails x ⊎ ReadBack q x
  read_back-Added q r (inl (m, e, _, h, v)) =
      subst₂ (λ o u. Fails (read_back s q o u) ⊎ ReadBack q (read_back s q o u)) (sym e) (sym h)
        (with_leaf-Added q m m.leaf refl v)
  read_back-Added q r (inr (x, e, _)) =
      subst (λ o. let x = read_back s q o r.get_leaf_and_proof_result in Fails x ⊎ ReadBack q x)
        (sym e) (inl (x, refl, refl))

  one_proof-Added :
      (q : QueuedLeaf) (signed_root : Bytes) (root : LogRoot) (ps : List InclusionProof) (w : W)
      → s.unmarshal_log_root signed_root ≡ ok root
      → All (λ p. s.verify_inclusion_by_hash root q.leaf.merkle_leaf_hash p ≡ none) ps
      → let x = (one_proof s q signed_root ps w).0 in Fails x ⊎ ReadBack q x
  one_proof-Added q signed_root root [] w u h = inl (_, refl, refl)
  one_proof-Added q signed_root root (p ∷ []) w u (h, _) =
      let hash = q.leaf.merkle_leaf_hash in
      read_back-Added q (get_standalone_leaf s p.leaf_index hash p signed_root w).0
        (get_standalone_leaf-Outcome s p.leaf_index hash p signed_root root w u h)
  one_proof-Added q signed_root root (p ∷ o ∷ ps) w u h = inl (_, refl, refl)

  proved-Added :
      (q : QueuedLeaf) (e : Option (CallError E)) (g : Option ProofByHash) (w : W)
      → Proved s q.leaf.merkle_leaf_hash g
      → let x = (proved s q e g w).0 in Fails x ⊎ ReadBack q x
  proved-Added q (some e) g w h = inl (_, refl, refl)
  proved-Added q none none w h = inl (_, refl, refl)
  proved-Added q none (some g) w (root, u, h) =
      one_proof-Added q g.signed_log_root root g.proofs w u h

  -- Where there is a response, it is a failure, or the leaf is read back.
  abbrev IsReadBack : QueuedLeaf → Option (Response E × W) → Type 0
  IsReadBack q none = Unit
  IsReadBack q (some (r, w)) = Fails r ⊎ ReadBack q r

  waited-IsReadBack :
      (q : QueuedLeaf) (o : Option (Response E × W))
      → IsProved q.leaf.merkle_leaf_hash o
      → IsReadBack q (waited s q o)
  waited-IsReadBack q none h = tt
  waited-IsReadBack q (some (r, w)) h = proved-Added q r.error r.get_proof_result w h

  rooted-IsReadBack :
      (fuel : ℕ) (q : QueuedLeaf) (a : Result (CallError E) LogRoot) (w : W)
      → IsReadBack q (rooted s fuel q a w)
  unfolding wait_for_inclusion
  rooted-IsReadBack fuel q (err e) w = inl (_, refl, refl)
  rooted-IsReadBack fuel q (ok root) w =
      waited-IsReadBack q _ (delayed-IsProved fuel q.leaf.merkle_leaf_hash root _ _)

  -- Where there is a response, it is as `Added` says.
  abbrev IsAdded : Result (CallError E) QueuedLeaf → Option (Response E × W) → Type 0
  IsAdded a none = Unit
  IsAdded a (some (r, w)) = Added a r

  taken-IsAdded :
      (q : QueuedLeaf) (o : Option (Response E × W))
      → is_refused s q.status ≡ false
      → IsReadBack q o
      → IsAdded (ok q) o
  taken-IsAdded q none taken h = tt
  taken-IsAdded q (some (r, w)) taken (inl fails) = inl fails
  taken-IsAdded q (some (r, w)) taken (inr back) = inr (inr (q, refl, taken, back))

  refused_or-IsAdded :
      (q : QueuedLeaf) (b : Bool) (w : W) (o : Option (Response E × W))
      → is_refused s q.status ≡ b
      → IsReadBack q o
      → IsAdded (ok q) (if b then some (record success { get_add_result = some q }, w) else o)
  refused_or-IsAdded q true w o e h = inr (inl (q, refl, e, refl, refl, refl))
  refused_or-IsAdded q false w o e h = taken-IsAdded q o e h

  queued-IsAdded :
      (fuel : ℕ) (a : Result (CallError E) QueuedLeaf) (w : W) → IsAdded a (queued s fuel a w)
  queued-IsAdded fuel (err e) w = inl (_, refl, refl)
  queued-IsAdded fuel (ok q) w = refused_or-IsAdded q _ w _ refl (rooted-IsReadBack fuel q _ _)

  -- Every response of AddLeaf is a failure with no result; or QueueLeaf answered for the value a leaf
  -- that the server did not take, and the response has what it answered and no result; or it answered
  -- one that the server took, and the response has a leaf with the hash of that one, read back with a
  -- proof verified for that hash.
  pub add_leaf-Added :
      (fuel : ℕ) (value : Bytes) (w : W) {r : Response E × W}
      → add_leaf s fuel value w ≡ some r
      → Added (s.queue_leaf value w).0 r.0
  unfolding add_leaf
  add_leaf-Added fuel value w e =
      subst (IsAdded (s.queue_leaf value w).0) e (queued-IsAdded fuel (s.queue_leaf value w).0 _)
