-- ===== src/Signer/Panics.antt =====
-- That NewMultipleFromConfig of pkg/signer/signer.go does not panic.
use rekor.Base.{
  wrap, ℕ, suc, ◌<◌, ◌≡◌, refl, ap, Bool, true, false, List, [], ◌∷◌, Option, none, some, arith,
  if◌then◌else◌, length, Result, ok, err, ◌>>=◌, Result-cases, >>=-eq-ok, ok-ne-err, ◌∙◌, subst,
  inl, inr, ◌≢◌, err-injective,
}
use rekor.Signer.{
  loading_cosigner, creating_signer, creating_batch_signer, SignerConfig, SigningConfig, MtcConfig,
  Error, panic, Providers, Loop, new_from_config, load_cosigner, cosign, round, rounds, add_signer,
  batch, insert_batch, start, multiple, new_multiple_from_config, get_signer_configs,
  mtc_signer_config,
}
use rekor.Signer.Total.{cosigner_count, AtMost, rounds-Grown}

module _ {E S K : Type 0} (p : Providers E S K) where
  wrap_no_panic :
      {A F : Type 0} (f : F → Error E) (r : Result F A)
      → ((x : F) → f x ≢ panic)
      → wrap f r ≢ err panic
  wrap_no_panic f (ok a) h e = cc
  wrap_no_panic f (err x) h e = h x (err-injective e)

  bind_no_panic :
      {A B : Type 0} (m : Result (Error E) A) (f : A → Result (Error E) B)
      → m ≢ err panic
      → ((a : A) → f a ≢ err panic)
      → (m >>= f) ≢ err panic
  bind_no_panic (ok a) f h k e = k a e
  bind_no_panic (err x) f h k e = h (ap err (err-injective e))

  cosign_no_panic :
      (mtc : Option MtcConfig) (i : ℕ) (c : SignerConfig) (l : Loop S K)
      → cosign p mtc i c l ≢ err panic
  cosign_no_panic none i c l e = cc
  cosign_no_panic (some _) i c l e =
      bind_no_panic (wrap (loading_cosigner i) (load_cosigner p c)) _
        (wrap_no_panic _ (load_cosigner p c) (λ x q. cc)) (λ k q. ok-ne-err q) e

  round_branch_no_panic :
      (mtc : Option MtcConfig) (i : ℕ) (c : SignerConfig) (l : Loop S K) (b : Bool)
      → (if b
          then cosign p mtc i c l
          else wrap (creating_signer i) (new_from_config p c) >>= λ s. ok (add_signer p l s))
        ≢ err panic
  round_branch_no_panic mtc i c l true = cosign_no_panic mtc i c l
  round_branch_no_panic mtc i c l false =
      bind_no_panic (wrap (creating_signer i) (new_from_config p c)) _
        (wrap_no_panic _ (new_from_config p c) (λ x e. cc)) (λ k e. ok-ne-err e)

  rounds_no_panic :
      (mtc : Option MtcConfig) (i : ℕ) (cs : List SignerConfig) (l : Loop S K)
      → rounds p mtc i cs l ≢ err panic
  unfolding rounds round
  rounds_no_panic mtc i [] l e = ok-ne-err e
  rounds_no_panic mtc i (c ∷ cs) l e =
      bind_no_panic (round p mtc i c l) _ (round_branch_no_panic mtc i c l c.mtc_cosigner)
        (λ m. rounds_no_panic mtc (suc i) cs m) e

  -- Without a block, a loop that succeeds has met no cosigner.
  round_branch_none :
      (i : ℕ) (c : SignerConfig) (l : Loop S K) {m : Loop S K} (b : Bool)
      → (if b
          then cosign p none i c l
          else wrap (creating_signer i) (new_from_config p c) >>= λ s. ok (add_signer p l s))
        ≡ ok m
      → b ≡ false
  round_branch_none i c l true e = cc
  round_branch_none i c l false e = refl

  rounds-none :
      (i : ℕ) (cs : List SignerConfig) (l : Loop S K) {m : Loop S K}
      → rounds p none i cs l ≡ ok m
      → cosigner_count cs ≡ 0
  unfolding rounds round
  rounds-none i [] l e = refl
  rounds-none i (c ∷ cs) l e =
      let (k, first, others) = >>=-eq-ok (round p none i c l) _ e in
      ground (arith, round_branch_none i c l c.mtc_cosigner first, rounds-none (suc i) cs k others)

  insert_batch_no_panic :
      (o : Option ℕ) (b : S) (made : List S)
      → AtMost o (length made)
      → insert_batch p o b made ≢ err panic
  insert_batch_no_panic none b made h e = h
  insert_batch_no_panic (some n) b made h e = ground arith

  batch_no_panic :
      (mtc : Option MtcConfig) (ks : List K) (o : Option ℕ) (made : List S)
      → (mtc ≡ none → length ks ≡ 0)
      → (0 < length ks → AtMost o (length made))
      → batch p mtc ks o made ≢ err panic
  batch_no_panic mtc [] o made h a e = ok-ne-err e
  batch_no_panic none (k ∷ ks) o made h a e = absurd (omega (arith, h refl))
  batch_no_panic (some m) (k ∷ ks) o made h a e =
      bind_no_panic (wrap creating_batch_signer (p.new_mtc (mtc_signer_config p m (k ∷ ks)))) _
        (wrap_no_panic _ (p.new_mtc (mtc_signer_config p m (k ∷ ks))) (λ x q. cc))
        (λ b. insert_batch_no_panic o b made (a (omega arith))) e

  multiple_no_panic :
      (mtc : Option MtcConfig) (cs : List SignerConfig) → multiple p mtc cs ≢ err panic
  multiple_no_panic mtc [] e = cc
  multiple_no_panic mtc (c ∷ cs) e = elim (Result-cases (rounds p mtc 0 (c ∷ cs) (start p))) [
    | inr (x, failed) ↦
        rounds_no_panic mtc 0 (c ∷ cs) (start p) (failed ∙ ap err (err-injective (rw failed at e)))
    | inl (l, looped) ↦
        let g = rounds-Grown p mtc 0 (c ∷ cs) (start p) looped (λ none_yet. omega arith) in
        batch_no_panic mtc l.cosigners l.insert_pos l.made
          (λ unset. omega (
            arith,
            rounds-none 0 (c ∷ cs) (start p)
                (subst (λ t. rounds p t 0 (c ∷ cs) (start p) ≡ ok l) unset looped),
            g.cosigners_length,
          ))
          g.placed (rw looped at e)
  ]

  -- Whatever the configuration, NewMultipleFromConfig does not panic: its result is signers or an error.
  pub new_multiple_no_panic : (sc : SigningConfig) → new_multiple_from_config p sc ≢ err panic
  unfolding new_multiple_from_config
  new_multiple_no_panic sc = multiple_no_panic sc.mtc (get_signer_configs sc)
