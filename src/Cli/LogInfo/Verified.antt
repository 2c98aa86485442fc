-- ===== src/Cli/LogInfo/Verified.antt =====
-- What the command loginfo has verified when it prints its output.
use rekor.Base.{
  ◌≡◌, refl, Bool, true, false, List, [], ◌∷◌, Option, none, some, Result, ok, err, ok-injective,
}
use rekor.Base.Bytes.{Bytes}
use rekor.Util.SignedNote.{verify}
use rekor.Util.SignedCheckpoint.{SignedCheckpoint}
use rekor.Util.NoteText.{CheckpointError, unmarshal_signed_checkpoint}
use rekor.Api.Tlog.{InactiveShardLogInfo, LogInfo}
use rekor.Verify.{Checks, Rekor}
use rekor.Verify
use rekor.Verify.Consistency.{Extends, prove_consistency_of-Extends}
use rekor.Cli.State.{Files}
use rekor.Cli.LogInfo.{
  Client, LogInfoCmdOutput, InfoError, load_verifier, old_state, consistent_with, stored, if_signed,
  with_verifier, with_head, verify_tree, next_tree, verify_inactive_trees, output_of, output_after,
  active_tree, after_inactive, from_info, log_info_cmd,
}

module _ {E S K V P W : Type 0} (c : Checks E S V P) (r : Rekor E W) (files : Files E W)
    (client : Client E K V W) where
  -- The head extends the one that is stored, if there is one.
  abbrev pub ExtendsStored : Option SignedCheckpoint → SignedCheckpoint → Type 0
  ExtendsStored none sth = Unit {0}
  ExtendsStored (some old) sth = Extends c r old sth

  -- The text is a tree head, signed by the key of the tree, which extends the head that was stored for
  -- the tree before.
  abbrev pub IsKept : W → Bytes → Bytes → Type 0
  IsKept w signed_tree_head tree_id =
      (sth : SignedCheckpoint) × (unmarshal_signed_checkpoint c.fscanf signed_tree_head ≡ ok sth)
      × (v : V) × ((load_verifier client tree_id (old_state files client tree_id w).1).0 ≡ ok v)
      × (verify c.crypto sth.signed_note v ≡ true)
      × ExtendsStored (old_state files client tree_id w).0 sth

  consistent_with-ExtendsStored :
      (old : Option SignedCheckpoint) (sth : SignedCheckpoint) (tree_id : Bytes) (w : W)
      {u : Unit {0}}
      → (consistent_with c r old sth tree_id w).0 ≡ ok u
      → ExtendsStored old sth
  consistent_with-ExtendsStored none sth tree_id w h = tt
  consistent_with-ExtendsStored (some old) sth tree_id w h =
      prove_consistency_of-Extends c r old sth tree_id w h

  stored-ok :
      (tree_id : Bytes) (sth : SignedCheckpoint) (p : Result (Verify.Error E) (Unit {0}) × W)
      {u : Unit {0}}
      → (stored files client tree_id sth p).0 ≡ ok u
      → p.0 ≡ ok tt
  stored-ok tree_id sth (err e, w) h = cc
  stored-ok tree_id sth (ok _, w) h = refl

  if_signed-ok :
      (b : Bool) (old : Option SignedCheckpoint) (tree_id : Bytes) (sth : SignedCheckpoint) (w : W)
      {u : Unit {0}}
      → (if_signed c r files client b old tree_id sth w).0 ≡ ok u
      → (b ≡ true) × ExtendsStored old sth
  if_signed-ok false old tree_id sth w h = cc
  if_signed-ok true old tree_id sth w h = (
    refl,
    consistent_with-ExtendsStored old sth tree_id w
        (stored-ok tree_id sth (consistent_with c r old sth tree_id w) h),
  )

  with_verifier-ok :
      (old : Option SignedCheckpoint) (tree_id : Bytes) (sth : SignedCheckpoint)
      (p : Result (InfoError E) V × W) {u : Unit {0}}
      → (with_verifier c r files client old tree_id sth p).0 ≡ ok u
      → (v : V) × (p.0 ≡ ok v) × (verify c.crypto sth.signed_note v ≡ true) × ExtendsStored old sth
  with_verifier-ok old tree_id sth (err e, w) h = cc
  with_verifier-ok old tree_id sth (ok v, w) h =
      let (signed, extends) =
        if_signed-ok (verify c.crypto sth.signed_note v) old tree_id sth w h in
      (v, refl, signed, extends)

  with_head-ok :
      (tree_id : Bytes) (s : Result CheckpointError SignedCheckpoint)
      (o : Option SignedCheckpoint × W) {u : Unit {0}}
      → (with_head c r files client tree_id s o).0 ≡ ok u
      → (sth : SignedCheckpoint) × (s ≡ ok sth)
        × (v : V) × ((load_verifier client tree_id o.1).0 ≡ ok v)
        × (verify c.crypto sth.signed_note v ≡ true)
        × ExtendsStored o.0 sth
  with_head-ok tree_id (err e) (old, w) h = cc
  with_head-ok tree_id (ok sth) (old, w) h =
      let (v, key, signed, extends) =
        with_verifier-ok old tree_id sth (load_verifier client tree_id w) h in
      (sth, refl, v, key, signed, extends)

  pub verify_tree-IsKept :
      (text tree_id : Bytes) (w : W) {u : Unit {0}}
      → (verify_tree c r files client text tree_id w).0 ≡ ok u
      → IsKept w text tree_id
  unfolding verify_tree
  verify_tree-IsKept text tree_id w h =
      with_head-ok tree_id (unmarshal_signed_checkpoint c.fscanf text)
        (old_state files client tree_id w) h

  next_tree-ok :
      (tree_id : Bytes) (p : Result (InfoError E) (Unit {0}) × W)
      (rest : W → Result (InfoError E) (Unit {0}) × W) {u : Unit {0}}
      → (next_tree tree_id p rest).0 ≡ ok u
      → (p.0 ≡ ok tt) × ((rest p.1).0 ≡ ok u)
  next_tree-ok tree_id (err e, w) rest h = cc
  next_tree-ok tree_id (ok _, w) rest h = (refl, h)

  -- The tree heads of these shards are, each in the state that the check of the shard in front leaves.
  abbrev pub AreKept : W → List InactiveShardLogInfo → Type 0
  AreKept w [] = Unit {0}
  AreKept w (i ∷ is) =
      IsKept w i.signed_tree_head i.tree_id
      × AreKept (verify_tree c r files client i.signed_tree_head i.tree_id w).1 is

  verify_inactive_trees-AreKept :
      (is : List InactiveShardLogInfo) (w : W) {u : Unit {0}}
      → (verify_inactive_trees c r files client is w).0 ≡ ok u
      → AreKept w is
  unfolding verify_inactive_trees
  verify_inactive_trees-AreKept [] w h = tt
  verify_inactive_trees-AreKept (i ∷ is) w h =
      let p = verify_tree c r files client i.signed_tree_head i.tree_id w in
      let (first, others) =
        next_tree-ok i.tree_id p (verify_inactive_trees c r files client is) h in
      (
        verify_tree-IsKept i.signed_tree_head i.tree_id w first,
        verify_inactive_trees-AreKept is p.1 others,
      )

  -- The output is of this answer of the server, all of whose tree heads are kept.
  abbrev pub IsVerified : W → LogInfo → LogInfoCmdOutput → Type 0
  IsVerified w info o =
      AreKept w info.inactive_shards
      × IsKept (verify_inactive_trees c r files client info.inactive_shards w).1
          info.signed_tree_head info.tree_id
      × (output_of info ≡ o)

  output_after-ok :
      (info : LogInfo) (p : Result (InfoError E) (Unit {0}) × W) {o : LogInfoCmdOutput}
      → (output_after info p).0 ≡ ok o
      → (p.0 ≡ ok tt) × (output_of info ≡ o)
  output_after-ok info (err e, w) h = cc
  output_after-ok info (ok _, w) h = (refl, ok-injective h)

  active_tree-ok :
      (info : LogInfo) (s : Result CheckpointError SignedCheckpoint) (w : W) {o : LogInfoCmdOutput}
      → (active_tree c r files client info s w).0 ≡ ok o
      → IsKept w info.signed_tree_head info.tree_id × (output_of info ≡ o)
  active_tree-ok info (err e) w h = cc
  active_tree-ok info (ok _) w {o} h =
      let p = verify_tree c r files client info.signed_tree_head info.tree_id w in
      let (verified, same) = output_after-ok info p {o = o} h in
      (verify_tree-IsKept info.signed_tree_head info.tree_id w verified, same)

  after_inactive-IsVerified :
      (info : LogInfo) (p : Result (InfoError E) (Unit {0}) × W) {o : LogInfoCmdOutput}
      → (after_inactive c r files client info p).0 ≡ ok o
      → (p.0 ≡ ok tt) × IsKept p.1 info.signed_tree_head info.tree_id × (output_of info ≡ o)
  after_inactive-IsVerified info (err e, w) h = cc
  after_inactive-IsVerified info (ok _, w) {o} h =
      let (kept, same) =
        active_tree-ok info (unmarshal_signed_checkpoint c.fscanf info.signed_tree_head) w {o = o}
          h in
      (refl, kept, same)

  from_info-IsVerified :
      (i : Result E LogInfo × W) {o : LogInfoCmdOutput}
      → (from_info c r files client i).0 ≡ ok o
      → (info : LogInfo) × (i.0 ≡ ok info) × IsVerified i.1 info o
  from_info-IsVerified (err e, w) h = cc
  from_info-IsVerified (ok info, w) {o} h =
      let p = verify_inactive_trees c r files client info.inactive_shards w in
      let (inactive, kept, same) = after_inactive-IsVerified info p {o = o} h in
      (info, refl, (verify_inactive_trees-AreKept info.inactive_shards w inactive, kept, same))

  -- If the command loginfo prints an output, it is of the answer of the server, and every tree head of
  -- that answer, of the inactive shards and of the active one, is signed by the key of its tree, and
  -- extends the head that was stored when its check began, if there was one: for that tree, or for the
  -- server if the tree has no id.
  pub log_info_cmd-IsVerified :
      (w : W) {o : LogInfoCmdOutput}
      → (log_info_cmd c r files client w).0 ≡ ok o
      → (info : LogInfo) × ((client.get_log_info w).0 ≡ ok info)
        × IsVerified (client.get_log_info w).1 info o
  unfolding log_info_cmd
  log_info_cmd-IsVerified w {o} h = from_info-IsVerified (client.get_log_info w) {o = o} h
