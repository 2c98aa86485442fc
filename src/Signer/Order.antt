-- ===== src/Signer/Order.antt =====
-- The order of the signers that NewMultipleFromConfig of pkg/signer/signer.go makes.
use rekor.Base.{
  ℕ, suc, ◌<◌, ◌≡◌, refl, ap, sym, ◌∙◌, true, false, List, [], ◌∷◌, ◌++◌, Option, none, some, arith,
  if◌then◌else◌, length, ok, length-append, append-nil, append_assoc, All, subst, Bool-cases, inl,
  inr, take-length, drop-length, length-snoc,
}
use rekor.Signer.{
  SignerConfig, SigningConfig, MtcConfig, Providers, Loop, new_from_config, load_cosigner, round,
  rounds, add_cosigner, add_signer, batch, insert_batch, multiple, new_multiple_from_config,
  get_signer_configs, configs_or, new, mtc_signer_config,
}

module _ {E S K : Type 0} (p : Providers E S K) (signer_of : SignerConfig → S)
    (key_of : SignerConfig → K) where
  -- Every provider that an entry calls succeeds.
  abbrev pub Made : SignerConfig → Type 0
  Made c =
      (c.mtc_cosigner ≡ true → load_cosigner p c ≡ ok (key_of c))
      × (c.mtc_cosigner ≡ false → new p c ≡ ok (signer_of c))

  abbrev pub own_signers : List SignerConfig → List S
  own_signers [] = []
  own_signers (c ∷ cs) = if c.mtc_cosigner then own_signers cs else signer_of c ∷ own_signers cs

  abbrev pub keys : List SignerConfig → List K
  keys [] = []
  keys (c ∷ cs) = if c.mtc_cosigner then key_of c ∷ keys cs else keys cs

  -- The signers in the order of the entries, with `b` for the first of the cosigners and nothing for
  -- the others.
  abbrev pub in_order : S → List SignerConfig → List S
  in_order b [] = []
  in_order b (c ∷ cs) = if c.mtc_cosigner then b ∷ own_signers cs else signer_of c ∷ in_order b cs

  -- Where the first cosigner stands among the entries with a signer of their own.
  abbrev first_key : ℕ → List SignerConfig → Option ℕ
  first_key n [] = none
  first_key n (c ∷ cs) = if c.mtc_cosigner then some n else first_key (suc n) cs

  round_plain :
      (mtc : Option MtcConfig) (i : ℕ) (c : SignerConfig) (l : Loop S K)
      → c.mtc_cosigner ≡ false
      → Made c
      → round p mtc i c l ≡ ok (add_signer p l (signer_of c))
  unfolding round new_from_config
  round_plain mtc i c l b h = ground (arith, h.1 b)

  round_key :
      (m : MtcConfig) (i : ℕ) (c : SignerConfig) (l : Loop S K)
      → c.mtc_cosigner ≡ true
      → Made c
      → round p (some m) i c l ≡ ok (add_cosigner p l (key_of c))
  unfolding round
  round_key m i c l b h = ground (arith, h.0 b)

  -- Further cosigners leave the place alone.
  later_key :
      (ms : List S) (k j : K) (ks : List K) (o : Option ℕ)
      → add_cosigner p (record { made = ms; cosigners = k ∷ ks; insert_pos = o }) j
        ≡ record { made = ms; cosigners = k ∷ (ks ++ j ∷ []); insert_pos = o }
  later_key ms k j ks o = ground (arith, length-append ks (j ∷ []))

  -- The step of an induction on the entries.
  rounds_step :
      (mtc : Option MtcConfig) (i : ℕ) (c : SignerConfig) (cs : List SignerConfig) (l m : Loop S K)
      → round p mtc i c l ≡ ok m
      → rounds p mtc i (c ∷ cs) l ≡ rounds p mtc (suc i) cs m
  unfolding rounds
  rounds_step mtc i c cs l m e = rw e refl

  rounds_after :
      (m : MtcConfig) (i : ℕ) (cs : List SignerConfig) (ms : List S) (k : K) (ks : List K)
      (o : Option ℕ)
      → All Made cs
      → rounds p (some m) i cs (record { made = ms; cosigners = k ∷ ks; insert_pos = o })
        ≡ ok (record {
          made = ms ++ own_signers cs;
          cosigners = k ∷ (ks ++ keys cs);
          insert_pos = o;
        })
  unfolding rounds
  rounds_after m i [] ms k ks o _ = rw (append-nil ms, append-nil ks) refl
  rounds_after m i (c ∷ cs) ms k ks o (h, hs) = elim (Bool-cases c.mtc_cosigner) [
    | inl b ↦
        rounds_step (some m) i c cs _ _
          (round_key m i c _ b h ∙ ap ok (later_key ms k (key_of c) ks o))
        ∙ rounds_after m (suc i) cs ms k (ks ++ key_of c ∷ []) o hs
        ∙ rw (b, append_assoc) refl
    | inr b ↦
        rounds_step (some m) i c cs _ _ (round_plain (some m) i c _ b h)
        ∙ rounds_after m (suc i) cs (ms ++ signer_of c ∷ []) k ks o hs
        ∙ rw (b, append_assoc) refl
  ]

  rounds_before :
      (m : MtcConfig) (i : ℕ) (cs : List SignerConfig) (ms : List S)
      → All Made cs
      → rounds p (some m) i cs (record { made = ms; cosigners = []; insert_pos = none })
        ≡ ok (record {
          made = ms ++ own_signers cs;
          cosigners = keys cs;
          insert_pos = first_key (length ms) cs;
        })
  unfolding rounds
  rounds_before m i [] ms _ = rw (append-nil ms) refl
  rounds_before m i (c ∷ cs) ms (h, hs) = elim (Bool-cases c.mtc_cosigner) [
    | inl b ↦
        rounds_step (some m) i c cs _ _ (round_key m i c _ b h)
        ∙ rounds_after m (suc i) cs ms (key_of c) [] (some (length ms)) hs
        ∙ rw b refl
    | inr b ↦
        rounds_step (some m) i c cs _ _ (round_plain (some m) i c _ b h)
        ∙ rounds_before m (suc i) cs (ms ++ signer_of c ∷ []) hs
        ∙ rw (b, append_assoc, length-snoc ms) refl
  ]

  insert_first :
      (b : S) (ms ss : List S) → insert_batch p (some (length ms)) b (ms ++ ss) ≡ ok (ms ++ b ∷ ss)
  insert_first b ms ss = ground (arith, length-append ms ss, take-length ms ss, drop-length ms ss)

  insert_in_order :
      (b : S) (cs : List SignerConfig) (ms : List S)
      → 0 < length (keys cs)
      → insert_batch p (first_key (length ms) cs) b (ms ++ own_signers cs)
        ≡ ok (ms ++ in_order b cs)
  insert_in_order b [] ms h = absurd (omega arith)
  insert_in_order b (c ∷ cs) ms h = elim (Bool-cases c.mtc_cosigner) [
    | inl q ↦ rw q (insert_first b ms (own_signers cs))
    | inr q ↦ ground (
      arith,
      q,
      length-snoc ms (signer_of c),
      append_assoc ms (signer_of c ∷ []) (own_signers cs),
      append_assoc ms (signer_of c ∷ []) (in_order b cs),
      insert_in_order b cs (ms ++ signer_of c ∷ []),
    )
  ]

  in_order_none : (b : S) (cs : List SignerConfig) → keys cs ≡ [] → in_order b cs ≡ own_signers cs
  in_order_none b [] e = refl
  in_order_none b (c ∷ cs) e = ground (arith, in_order_none b cs)

  batch-in_order :
      (m : MtcConfig) (b : S) (cs : List SignerConfig) (ks : List K)
      → keys cs ≡ ks
      → p.new_mtc (mtc_signer_config p m ks) ≡ ok b
      → batch p (some m) ks (first_key 0 cs) (own_signers cs) ≡ ok (in_order b cs)
  batch-in_order m b cs [] e h = ap ok (sym (in_order_none b cs e))
  batch-in_order m b cs (k ∷ ks) e h = rw h (insert_in_order b cs [] (rw e (omega arith)))

  multiple-in_order :
      (m : MtcConfig) (b : S) (c : SignerConfig) (cs : List SignerConfig)
      → All Made (c ∷ cs)
      → p.new_mtc (mtc_signer_config p m (keys (c ∷ cs))) ≡ ok b
      → multiple p (some m) (c ∷ cs) ≡ ok (in_order b (c ∷ cs))
  multiple-in_order m b c cs h made =
      rw (rounds_before m 0 (c ∷ cs) [] h) (batch-in_order m b (c ∷ cs) _ refl made)

  multiple_or_in_order :
      (m : MtcConfig) (b : S) (c : SignerConfig) (ds : List SignerConfig)
      → All Made (configs_or c ds)
      → p.new_mtc (mtc_signer_config p m (keys (configs_or c ds))) ≡ ok b
      → multiple p (some m) (configs_or c ds) ≡ ok (in_order b (configs_or c ds))
  multiple_or_in_order m b c [] = multiple-in_order m b c []
  multiple_or_in_order m b c (d ∷ ds) = multiple-in_order m b d ds

  -- Where all providers succeed and there is a block for the cosigners, the signers come in the order
  -- of the entries: one for each entry that is no cosigner, and the batch signer, over the keys of
  -- all cosigners in their order, at the place of the first of them.
  pub new_multiple_in_order :
      (sc : SigningConfig) (m : MtcConfig) (b : S)
      → sc.mtc ≡ some m
      → All Made (get_signer_configs sc)
      → p.new_mtc (mtc_signer_config p m (keys (get_signer_configs sc))) ≡ ok b
      → new_multiple_from_config p sc ≡ ok (in_order b (get_signer_configs sc))
  unfolding new_multiple_from_config get_signer_configs
  new_multiple_in_order sc m b e h made =
      subst (λ t. multiple p t (get_signer_configs sc) ≡ ok (in_order b (get_signer_configs sc)))
        (sym e) (multiple_or_in_order m b sc.signer_config sc.signers h made)
