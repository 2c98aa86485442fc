-- ===== src/Verify/Consistency.antt =====
-- What ProveConsistency and VerifyCurrentCheckpoint of pkg/verify/verify.go show of the tree heads.
use rekor.Base.{
  ◌≡◌, refl, subst, ◌⊎◌, inl, inr, Bool, true, false, List, none, Result, ok, err, >>=-eq-ok,
  guard-ok, ok-injective,
}
use rekor.Base.Bytes.{Bytes, bytes_eq, bytes_eq_iff}
use rekor.Base.Int64.{pos, int_eq, int_lt, to_int64}
use rekor.Util.SignedNote.{verify}
use rekor.Util.SignedCheckpoint.{SignedCheckpoint}
use rekor.Util.NoteText.{CheckpointError, unmarshal_signed_checkpoint}
use rekor.Verify.{
  Error, Checks, Rekor, bad_proof_hash, old_root_differs, inconsistent, decode_hashes, ok_or,
  check_proof, consistency_by_size, prove_consistency_of, consistent_head, head_if_verified,
  against_head, against_info, current_if_verified, verify_current_checkpoint,
}
use rekor.Verify.Sound.{passes-ok}

module _ {E S V P W : Type 0} (c : Checks E S V P) (r : Rekor E W) where
  -- The new tree head has the old tree, which is not empty: the same one, or it is larger and a proof of
  -- some server shows that it is consistent.
  abbrev pub Extends : SignedCheckpoint → SignedCheckpoint → Type 0
  Extends old new =
      (int_eq (to_int64 old.checkpoint.size) (pos 0) ≡ false)
      × (((int_eq (to_int64 old.checkpoint.size) (to_int64 new.checkpoint.size) ≡ true)
            × (old.checkpoint.hash ≡ new.checkpoint.hash))
          ⊎ ((int_lt (to_int64 old.checkpoint.size) (to_int64 new.checkpoint.size) ≡ true)
              × (hs : List Bytes) × (c.prove_consistency old.checkpoint.size new.checkpoint.size hs
                    old.checkpoint.hash new.checkpoint.hash
                  ≡ none)))

  check_proof-ok :
      (old new : SignedCheckpoint) (p : Result E (List Bytes)) {u : Unit {0}}
      → check_proof c r old new p ≡ ok u
      → (hs : List Bytes) × (c.prove_consistency old.checkpoint.size new.checkpoint.size hs
            old.checkpoint.hash new.checkpoint.hash
          ≡ none)
  check_proof-ok old new (err e) h = cc
  check_proof-ok old new (ok hashes) h =
      let (hs, _, h1) = >>=-eq-ok (ok_or bad_proof_hash (decode_hashes hashes)) _ h in
      (hs, passes-ok inconsistent _ h1)

  consistency_by_size-Extends :
      (a b l : Bool) (old new : SignedCheckpoint) (tree_id : Bytes) (w : W) {u : Unit {0}}
      → int_eq (to_int64 old.checkpoint.size) (pos 0) ≡ a
      → int_eq (to_int64 old.checkpoint.size) (to_int64 new.checkpoint.size) ≡ b
      → int_lt (to_int64 old.checkpoint.size) (to_int64 new.checkpoint.size) ≡ l
      → (consistency_by_size c r a b l old new tree_id w).0 ≡ ok u
      → Extends old new
  consistency_by_size-Extends true b l old new tree_id w ea eb el h = cc
  consistency_by_size-Extends false true l old new tree_id w ea eb el h = (
    ea,
    inl (
      eb,
      (bytes_eq_iff old.checkpoint.hash new.checkpoint.hash).0
          (guard-ok (bytes_eq old.checkpoint.hash new.checkpoint.hash) old_root_differs h),
    ),
  )
  consistency_by_size-Extends false false true old new tree_id w ea eb el h =
      let (hs, proved) = check_proof-ok old new _ h in (ea, inr (el, hs, proved))
  consistency_by_size-Extends false false false old new tree_id w ea eb el h = cc

  pub prove_consistency_of-Extends :
      (old new : SignedCheckpoint) (tree_id : Bytes) (w : W) {u : Unit {0}}
      → (prove_consistency_of c r old new tree_id w).0 ≡ ok u
      → Extends old new
  unfolding prove_consistency_of
  prove_consistency_of-Extends old new tree_id w h =
      consistency_by_size-Extends _ _ _ old new tree_id w refl refl refl h

  -- The head is one that the server gives, signed, and extends the old one.
  abbrev pub IsCurrent : V → SignedCheckpoint → SignedCheckpoint → Type 0
  IsCurrent v old sth =
      (text : Bytes) × (unmarshal_signed_checkpoint c.fscanf text ≡ ok sth)
      × (verify c.crypto sth.signed_note v ≡ true)
      × Extends old sth

  consistent_head-ok :
      (sth : SignedCheckpoint) (p : Result (Error E) (Unit {0}) × W) {o : SignedCheckpoint}
      → (consistent_head c r sth p).0 ≡ ok o
      → (p.0 ≡ ok tt) × (sth ≡ o)
  consistent_head-ok sth (err e, w) h = cc
  consistent_head-ok sth (ok _, w) h = (refl, ok-injective h)

  head_if_verified-ok :
      (b : Bool) (old sth : SignedCheckpoint) (tree_id : Bytes) (w : W) {o : SignedCheckpoint}
      → (head_if_verified c r b old sth tree_id w).0 ≡ ok o
      → (b ≡ true) × Extends old sth × (sth ≡ o)
  head_if_verified-ok false old sth tree_id w h = cc
  head_if_verified-ok true old sth tree_id w {o} h =
      let (proved, same) =
        consistent_head-ok sth (prove_consistency_of c r old sth tree_id w) {o = o} h in
      (refl, prove_consistency_of-Extends old sth tree_id w proved, same)

  against_head-IsCurrent :
      (v : V) (old : SignedCheckpoint) (tree_id text : Bytes)
      (s : Result CheckpointError SignedCheckpoint) (w : W) {o : SignedCheckpoint}
      → unmarshal_signed_checkpoint c.fscanf text ≡ s
      → (against_head c r v old tree_id s w).0 ≡ ok o
      → IsCurrent v old o
  against_head-IsCurrent v old tree_id text (err e) w read h = cc
  against_head-IsCurrent v old tree_id text (ok sth) w {o} read h =
      let (signed, extends, same) =
        head_if_verified-ok (verify c.crypto sth.signed_note v) old sth tree_id w {o = o} h in
      subst (IsCurrent v old) same (text, read, signed, extends)

  against_info-IsCurrent :
      (v : V) (old : SignedCheckpoint) (i : Result E (Bytes × Bytes) × W) {o : SignedCheckpoint}
      → (against_info c r v old i).0 ≡ ok o
      → IsCurrent v old o
  against_info-IsCurrent v old (err e, w) h = cc
  against_info-IsCurrent v old (ok (text, tree_id), w) {o} h =
      against_head-IsCurrent v old tree_id text (unmarshal_signed_checkpoint c.fscanf text) w
        {o = o} refl h

  current_if_verified-IsCurrent :
      (b : Bool) (v : V) (old : SignedCheckpoint) (w : W) {o : SignedCheckpoint}
      → (current_if_verified c r b v old w).0 ≡ ok o
      → (b ≡ true) × IsCurrent v old o
  current_if_verified-IsCurrent false v old w h = cc
  current_if_verified-IsCurrent true v old w {o} h =
      (refl, against_info-IsCurrent v old (r.get_log_info w) {o = o} h)

  -- If VerifyCurrentCheckpoint answers a tree head, the old one is signed, and so is the answer, which
  -- extends the old one: its tree is the same, or larger and consistent by a proof that was verified.
  pub verify_current_checkpoint-IsCurrent :
      (v : V) (old : SignedCheckpoint) (w : W) {o : SignedCheckpoint}
      → (verify_current_checkpoint c r v old w).0 ≡ ok o
      → (verify c.crypto old.signed_note v ≡ true) × IsCurrent v old o
  unfolding verify_current_checkpoint
  verify_current_checkpoint-IsCurrent v old w {o} h =
      current_if_verified-IsCurrent (verify c.crypto old.signed_note v) v old w {o = o} h
