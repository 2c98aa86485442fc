-- ===== src/Api/Leaf/Identity.antt =====
-- What the entry that pkg/api/entries.go makes from a leaf says of it.
use rekor.Base.{
  ℕ, suc, ◌==◌, ◌≡◌, refl, ap, ◌∙◌, subst, List, [], ◌∷◌, none, some, length, ok, guard, wrap,
  wrap-eq-ok, >>=-eq-ok, ok-injective,
}
use rekor.Base.Bytes.{Bytes}
use rekor.Base.Int64.{ℤ}
use rekor.Golib.Hex.{hex_encode}
use rekor.Golib.Num.{format_int}
use rekor.Sharding.EntryId.{EntryId, create_entry_id_from_parts}
use rekor.Sharding.Ranges.{LogRange, virtual_log_index, get_log_range_by_tree_id}
use rekor.Trillian.Client.{Leaf, LogRoot}
use rekor.Trillian.Client
use rekor.Api.{
  Api, marshalling, canonicalizing, signing, bad_log_root, unknown_shard, entry_id_failed,
  length_mismatch, Verification, LogEntryAnon,
}
use rekor.Api.Leaf.{
  sign_each, sign_entry_multiple, first_or_panic, additional, behind_first, checkpoint_or_new,
  entry_of_leaf, anon_of_leaf, verification_of, verified, sign_leaf,
}

abbrev pub behind {ℓ} : {A : Type ℓ} → List A → List A
behind [] = []
behind (x ∷ xs) = xs

module _ {E S V P W : Type 0} (api : Api E S V P W) where
  -- A signature of the message by each signer, in order.
  abbrev Signs : Bytes → List S → List Bytes → Type 0
  Signs msg [] [] = Unit {0}
  Signs msg (s ∷ ss) (sig ∷ sigs) = (api.crypto.sign_message s msg ≡ ok sig) × Signs msg ss sigs
  Signs msg _ _ = ⊥

  -- The same, with a log id for each.
  abbrev pub SignsWith : Bytes → List S → List Bytes → List (Bytes × Bytes) → Type 0
  SignsWith msg [] ids [] = Unit {0}
  SignsWith msg (s ∷ ss) (id ∷ ids) ((i, sig) ∷ sigs) =
      (i ≡ id) × (api.crypto.sign_message s msg ≡ ok sig) × SignsWith msg ss ids sigs
  SignsWith msg _ _ _ = ⊥

  -- The primary signature is of the first signer; the others are of the signers behind it, in order,
  -- each with the log id at its place.
  abbrev pub AllSign : Bytes → List S → List Bytes → Bytes → List (Bytes × Bytes) → Type 0
  AllSign msg [] ids primary more = ⊥
  AllSign msg (s ∷ ss) ids primary more =
      (api.crypto.sign_message s msg ≡ ok primary) × SignsWith msg ss (behind ids) more

  -- All sign the canonical form of the entry.
  abbrev pub IsSignedByAll :
      LogEntryAnon → List S → List Bytes → Bytes → List (Bytes × Bytes) → Type 0
  IsSignedByAll e ss ids primary more =
      (payload : Bytes) × (canonical : Bytes) × (api.marshal_binary e ≡ ok payload)
      × (api.canonical_json payload ≡ ok canonical)
      × AllSign canonical ss ids primary more

  sign_each-Signs :
      (i : ℕ) (msg : Bytes) (ss : List S) {sigs : List Bytes}
      → sign_each api i msg ss ≡ ok sigs
      → Signs msg ss sigs
  unfolding sign_each
  sign_each-Signs i msg [] e = subst (Signs msg []) (ok-injective e) tt
  sign_each-Signs i msg (s ∷ ss) e =
      let (sig, one, e1) = >>=-eq-ok (wrap (signing i) (api.crypto.sign_message s msg)) _ e in
      let (sigs, more, e2) = >>=-eq-ok (sign_each api (suc i) msg ss) _ e1 in
      subst (Signs msg (s ∷ ss)) (ok-injective {a = sig ∷ sigs} e2) (
        wrap-eq-ok (signing i) (api.crypto.sign_message s msg) one,
        sign_each-Signs (suc i) msg ss {sigs = sigs} more,
      )

  additional-SignsWith :
      (msg : Bytes) (ss : List S) (ids sigs : List Bytes) {o : List (Bytes × Bytes)}
      → Signs msg ss sigs
      → additional api ids sigs ≡ ok o
      → SignsWith msg ss ids o
  additional-SignsWith msg [] ids [] h e = subst (SignsWith msg [] ids) (ok-injective e) tt
  additional-SignsWith msg [] ids (sig ∷ sigs) h e = absurd h
  additional-SignsWith msg (s ∷ ss) ids [] h e = absurd h
  additional-SignsWith msg (s ∷ ss) [] (sig ∷ sigs) h e = cc
  additional-SignsWith msg (s ∷ ss) (id ∷ ids) (sig ∷ sigs) (h, hs) e =
      let (o, more, e1) = >>=-eq-ok (additional api ids sigs) _ e in
      subst (SignsWith msg (s ∷ ss) (id ∷ ids)) (ok-injective {a = (id, sig) ∷ o} e1)
        (refl, h, additional-SignsWith msg ss ids sigs {o = o} hs more)

  behind_first-AllSign :
      (msg : Bytes) (ss : List S) (ids sigs : List Bytes) {primary : Bytes}
      {more : List (Bytes × Bytes)}
      → Signs msg ss sigs
      → first_or_panic api sigs ≡ ok primary
      → behind_first api ids sigs ≡ ok more
      → AllSign msg ss ids primary more
  behind_first-AllSign msg ss ids [] h f e = cc
  behind_first-AllSign msg [] ids (sig ∷ sigs) h f e = absurd h
  behind_first-AllSign msg (s ∷ ss) [] (sig ∷ sigs) {more} (h, hs) f e =
      (h ∙ ap ok (ok-injective f), additional-SignsWith msg ss [] sigs {o = more} hs e)
  behind_first-AllSign msg (s ∷ ss) (id ∷ ids) (sig ∷ sigs) {more} (h, hs) f e =
      (h ∙ ap ok (ok-injective f), additional-SignsWith msg ss ids sigs {o = more} hs e)

  pub sign_entry_multiple-IsSignedByAll :
      (ss : List S) (ids : List Bytes) (e : LogEntryAnon) {o : List Bytes × List Bytes}
      {primary : Bytes} {more : List (Bytes × Bytes)}
      → sign_entry_multiple api ss ids e ≡ ok o
      → first_or_panic api o.0 ≡ ok primary
      → behind_first api o.1 o.0 ≡ ok more
      → IsSignedByAll e ss ids primary more
  unfolding sign_entry_multiple
  sign_entry_multiple-IsSignedByAll [] ids e h f b = cc
  sign_entry_multiple-IsSignedByAll (s ∷ ss) ids e {o} {primary} {more} h f b =
      let (u, _, e1) =
        >>=-eq-ok
          (guard (length (s ∷ ss) == length ids) (length_mismatch (length (s ∷ ss)) (length ids))) _
          h in
      let (payload, text, e2) = >>=-eq-ok (wrap marshalling (api.marshal_binary e)) _ e1 in
      let (msg, form, e3) = >>=-eq-ok (wrap canonicalizing (api.canonical_json payload)) _ e2 in
      let (sigs, signed, e4) = >>=-eq-ok (sign_each api 0 msg (s ∷ ss)) _ e3 in
      let q = ok-injective {a = (sigs, ids)} {b = o} e4 in
      (
        payload,
        msg,
        wrap-eq-ok marshalling (api.marshal_binary e) text,
        wrap-eq-ok canonicalizing (api.canonical_json payload) form,
        behind_first-AllSign msg (s ∷ ss) ids sigs {primary = primary} {more = more}
            (sign_each-Signs 0 msg (s ∷ ss) {sigs = sigs} signed)
            (ap (λ x. first_or_panic api x.0) q ∙ f) (ap (λ x. behind_first api x.1 x.0) q ∙ b),
      )

  -- What an entry says of the leaf and the shard it is made from, and that all signers of the shard
  -- signed the entry without its verification.
  abbrev pub IsEntryOf : Leaf → ℤ → LogRange S → LogEntryAnon → Type 0
  IsEntryOf leaf tid r e =
      (e.log_id ≡ r.log_id)
      × (e.log_index ≡ virtual_log_index leaf.leaf_index tid api.log_ranges)
      × (e.body ≡ leaf.leaf_value)
      × (e.integrated_time ≡ leaf.integrate_timestamp)
      × (v : Verification) × (e.verification ≡ some v)
      × IsSignedByAll (record e { verification = none }) r.signers r.log_ids
          v.signed_entry_timestamp v.additional_signed_entry_timestamps

  pub made-IsEntryOf :
      (leaf : Leaf) (tid : ℤ) (r : LogRange S) (root : LogRoot) (proof : Client.InclusionProof)
      (sc sig : Bytes) (more : List (Bytes × Bytes))
      → IsSignedByAll (anon_of_leaf api leaf tid r) r.signers r.log_ids sig more
      → IsEntryOf leaf tid r
          (verified api (anon_of_leaf api leaf tid r) (verification_of api root proof sc sig more))
  unfolding anon_of_leaf verified verification_of
  made-IsEntryOf leaf tid r root proof sc sig more signed =
      (refl, refl, refl, refl, verification_of api root proof sc sig more, refl, signed)

  sign_leaf_lem :
      (leaf : Leaf) (proof : Client.InclusionProof) (tid : ℤ) (root : LogRoot) (r : LogRange S)
      {o : EntryId × LogEntryAnon}
      → sign_leaf api leaf proof tid root r ≡ ok o
      → (create_entry_id_from_parts (format_int 16 tid) (hex_encode leaf.merkle_leaf_hash) ≡ ok o.0)
        × IsEntryOf leaf tid r o.1
  unfolding sign_leaf
  sign_leaf_lem leaf proof tid root r {o} e2 =
      let anon = anon_of_leaf api leaf tid r in
      let (sg, signed, e3) = >>=-eq-ok (sign_entry_multiple api r.signers r.log_ids anon) _ e2 in
      let (primary, at, e4) = >>=-eq-ok (first_or_panic api sg.0) _ e3 in
      let (sc, _, e5) =
        >>=-eq-ok (checkpoint_or_new api (api.cached_checkpoints tid) tid root r.signers) _ e4 in
      let (id, made, e6) =
        >>=-eq-ok
          (wrap entry_id_failed
            (create_entry_id_from_parts (format_int 16 tid) (hex_encode leaf.merkle_leaf_hash)))
          _ e5 in
      let (more, rest, e7) = >>=-eq-ok (behind_first api sg.1 sg.0) _ e6 in
      let q =
        ok-injective {a = (id, verified api anon (verification_of api root proof sc primary more))}
          {b = o} e7 in
      let all =
        sign_entry_multiple-IsSignedByAll r.signers r.log_ids anon {o = sg} {primary = primary}
          {more = more} signed at rest in
      (
        wrap-eq-ok entry_id_failed
              (create_entry_id_from_parts (format_int 16 tid) (hex_encode leaf.merkle_leaf_hash))
              made
            ∙ ap (λ x. ok x.0) q,
        subst (λ x. IsEntryOf leaf tid r x.1) q
            (made-IsEntryOf leaf tid r root proof sc primary more all),
      )

  -- The entry of a leaf is made from a shard with the tree id: it has the log id of the shard, the
  -- virtual index of the leaf, its value and time, and the signatures of all signers of the shard.
  pub entry_of_leaf_lem :
      (leaf : Leaf) (signed_root : Bytes) (proof : Client.InclusionProof) (tid : ℤ)
      {o : EntryId × LogEntryAnon}
      → entry_of_leaf api leaf signed_root proof tid ≡ ok o
      → (r : LogRange S) × (get_log_range_by_tree_id api.log_ranges tid ≡ ok r)
        × (create_entry_id_from_parts (format_int 16 tid) (hex_encode leaf.merkle_leaf_hash)
            ≡ ok o.0)
        × IsEntryOf leaf tid r o.1
  unfolding entry_of_leaf
  entry_of_leaf_lem leaf signed_root proof tid {o} e =
      let (root, _, e1) = >>=-eq-ok (wrap bad_log_root (api.unmarshal_log_root signed_root)) _ e in
      let (r, found, e2) =
        >>=-eq-ok (wrap unknown_shard (get_log_range_by_tree_id api.log_ranges tid)) _ e1 in
      let (made, is) = sign_leaf_lem leaf proof tid root r {o = o} e2 in
      (r, wrap-eq-ok unknown_shard (get_log_range_by_tree_id api.log_ranges tid) found, made, is)
