-- ===== src/Signer/Total.antt =====
-- NewMultipleFromConfig of pkg/signer/signer.go on every configuration: its panics and its length.
use rekor.Base.{
  wrap, ℕ, suc, ◌+◌, ◌≤◌, ◌<◌, ◌≡◌, refl, ap, Bool, true, false, List, [], ◌∷◌, ◌++◌, Option, none,
  some, ◌==◌, arith, if◌then◌else◌, length, take, drop, Result, ok, err, ◌>>=◌, >>=-eq-ok,
  ok-injective, ◌∙◌, subst, length-append, length-take, length-drop, leb,
}
use mathlib.Core.Path.{subst₂, ap₂}
use rekor.Signer.{
  loading_cosigner, creating_signer, creating_batch_signer, SignerConfig, SigningConfig, MtcConfig,
  Error, panic, Providers, Loop, new_from_config, load_cosigner, cosign, round, rounds,
  add_cosigner, add_signer, batch, insert_at, insert_batch, start, multiple,
  new_multiple_from_config, get_signer_configs, mtc_signer_config,
}

-- The entries with a signer of their own, and the cosigners.
abbrev pub plain_count : List SignerConfig → ℕ
plain_count [] = 0
plain_count (c ∷ cs) = if c.mtc_cosigner then plain_count cs else suc (plain_count cs)

abbrev pub cosigner_count : List SignerConfig → ℕ
cosigner_count [] = 0
cosigner_count (c ∷ cs) = if c.mtc_cosigner then suc (cosigner_count cs) else cosigner_count cs

abbrev pub AtMost : Option ℕ → ℕ → Type 0
AtMost none k = ⊥
AtMost (some n) k = n ≤ k

module _ {E S K : Type 0} (p : Providers E S K) where
  -- Once there is a cosigner, the batch signer has a place among the signers.
  abbrev pub IsPlaced : Loop S K → Type 0
  IsPlaced l = 0 < length l.cosigners → AtMost l.insert_pos (length l.made)

  AtMost-mono : (o : Option ℕ) (a b : ℕ) → a ≤ b → AtMost o a → AtMost o b
  AtMost-mono none a b h x = x
  AtMost-mono (some n) a b h x = omega arith

  pub record Grown (l m : Loop S K) (plain cosigning : ℕ) : Type 0 where
    pub made_length : length m.made ≡ length l.made + plain
    pub cosigners_length : length m.cosigners ≡ length l.cosigners + cosigning
    pub placed : IsPlaced m

  add_cosigner-placed :
      (l : Loop S K) (k : K) (b : Bool)
      → (length (l.cosigners ++ k ∷ []) == 1) ≡ b
      → IsPlaced l
      → AtMost (if b then some (length l.made) else l.insert_pos) (length l.made)
  add_cosigner-placed l k true e h = omega arith
  add_cosigner-placed l k false e h = h (ground (arith, length-append l.cosigners (k ∷ [])))

  add_cosigner-Grown : (l : Loop S K) (k : K) → IsPlaced l → Grown l (add_cosigner p l k) 0 1
  add_cosigner-Grown l k h = record {
    made_length = omega arith;
    cosigners_length = length-append l.cosigners (k ∷ []);
    placed = λ _. add_cosigner-placed l k _ refl h;
  }

  add_signer-Grown : (l : Loop S K) (s : S) → IsPlaced l → Grown l (add_signer p l s) 1 0
  add_signer-Grown l s h = record {
    made_length = length-append l.made (s ∷ []);
    cosigners_length = omega arith;
    placed = λ some_key.
        AtMost-mono l.insert_pos _ _ (omega (arith, length-append l.made (s ∷ []))) (h some_key);
  }

  cosign-Grown :
      (mtc : Option MtcConfig) (i : ℕ) (c : SignerConfig) (l : Loop S K) {m : Loop S K}
      → cosign p mtc i c l ≡ ok m
      → IsPlaced l
      → Grown l m 0 1
  cosign-Grown none i c l e h = cc
  cosign-Grown (some _) i c l {m} e h =
      let (k, _, made) = >>=-eq-ok (wrap (loading_cosigner i) (load_cosigner p c)) _ e in
      subst (λ x. Grown l x 0 1) (ok-injective made) (add_cosigner-Grown l k h)

  round_branch-Grown :
      (mtc : Option MtcConfig) (i : ℕ) (c : SignerConfig) (l : Loop S K) {m : Loop S K} (b : Bool)
      → (if b
          then cosign p mtc i c l
          else wrap (creating_signer i) (new_from_config p c) >>= λ s. ok (add_signer p l s))
        ≡ ok m
      → IsPlaced l
      → Grown l m (if b then 0 else 1) (if b then 1 else 0)
  round_branch-Grown mtc i c l true e h = cosign-Grown mtc i c l e h
  round_branch-Grown mtc i c l false e h =
      let (s, _, made) = >>=-eq-ok (wrap (creating_signer i) (new_from_config p c)) _ e in
      subst (λ x. Grown l x 1 0) (ok-injective made) (add_signer-Grown l s h)

  round-Grown :
      (mtc : Option MtcConfig) (i : ℕ) (c : SignerConfig) (l : Loop S K) {m : Loop S K}
      → round p mtc i c l ≡ ok m
      → IsPlaced l
      → Grown l m (if c.mtc_cosigner then 0 else 1) (if c.mtc_cosigner then 1 else 0)
  unfolding round
  round-Grown mtc i c l e h = round_branch-Grown mtc i c l c.mtc_cosigner e h

  Grown-trans :
      {l m n : Loop S K} (a b c d : ℕ) → Grown l m a b → Grown m n c d → Grown l n (a + c) (b + d)
  Grown-trans a b c d g h = record {
    made_length = omega (arith, g.made_length, h.made_length);
    cosigners_length = omega (arith, g.cosigners_length, h.cosigners_length);
    placed = h.placed;
  }

  pub rounds-Grown :
      (mtc : Option MtcConfig) (i : ℕ) (cs : List SignerConfig) (l : Loop S K) {m : Loop S K}
      → rounds p mtc i cs l ≡ ok m
      → IsPlaced l
      → Grown l m (plain_count cs) (cosigner_count cs)
  unfolding rounds
  rounds-Grown mtc i [] l {m} e h =
      subst (λ x. Grown l x 0 0) (ok-injective e)
        (record { made_length = omega arith; cosigners_length = omega arith; placed = h })
  rounds-Grown mtc i (c ∷ cs) l {m} e h =
      let (k, first, others) = >>=-eq-ok (round p mtc i c l) _ e in
      let g = round-Grown mtc i c l first h in
      subst₂ (Grown l m) (ground arith) (ground arith)
        (Grown-trans _ _ _ _ g (rounds-Grown mtc (suc i) cs k others g.placed))

  length-insert_at :
      (n : ℕ) (a : S) (xs : List S) → n ≤ length xs → length (insert_at n a xs) ≡ suc (length xs)
  length-insert_at n a xs h =
      omega (arith, length-append (take n xs) (a ∷ drop n xs), length-take n xs, length-drop n xs)

  insert_branch-length :
      (n : ℕ) (b : S) (made : List S) {ss : List S} (q : Bool)
      → leb n (length made) ≡ q
      → ◌≡◌ {A = Result (Error E) (List S)}
          (if q then ok (insert_at n b made) else err panic)
          (ok ss)
      → length ss ≡ suc (length made)
  insert_branch-length n b made true h e =
      rw (← ap length (ok-injective e)) (length-insert_at n b made (ground arith))
  insert_branch-length n b made false h e = cc

  insert_batch-length :
      (o : Option ℕ) (b : S) (made : List S) {ss : List S}
      → insert_batch p o b made ≡ ok ss
      → length ss ≡ suc (length made)
  insert_batch-length none b made e = cc
  insert_batch-length (some n) b made e = insert_branch-length n b made _ refl e

  batch-length :
      (mtc : Option MtcConfig) (ks : List K) (o : Option ℕ) (made : List S) {ss : List S}
      → batch p mtc ks o made ≡ ok ss
      → length ss ≡ length made + (if length ks == 0 then 0 else 1)
  batch-length mtc [] o made e = omega (arith, ap length (ok-injective e))
  batch-length none (k ∷ ks) o made e = cc
  batch-length (some m) (k ∷ ks) o made {ss} e =
      let (b, _, inserted) =
        >>=-eq-ok (wrap creating_batch_signer (p.new_mtc (mtc_signer_config p m (k ∷ ks)))) _ e in
      ground (arith, insert_batch-length o b made inserted)

  some_signer :
      (c : SignerConfig) (cs : List SignerConfig)
      → 0 < plain_count (c ∷ cs) + (if cosigner_count (c ∷ cs) == 0 then 0 else 1)
  some_signer c cs = ground arith

  -- The configurations that the signers are made from, with the block of the cosigners.
  multiple-length :
      (mtc : Option MtcConfig) (cs : List SignerConfig) {ss : List S}
      → multiple p mtc cs ≡ ok ss
      → (length ss ≡ plain_count cs + (if cosigner_count cs == 0 then 0 else 1)) × (0 < length ss)
  multiple-length mtc [] e = cc
  multiple-length mtc (c ∷ cs) {ss} e =
      let (l, looped, added) = >>=-eq-ok (rounds p mtc 0 (c ∷ cs) (start p)) _ e in
      let g = rounds-Grown mtc 0 (c ∷ cs) (start p) looped (λ none_yet. omega arith) in
      let n = batch-length mtc l.cosigners l.insert_pos l.made added in
      let a : length l.made ≡ plain_count (c ∷ cs) = omega (arith, g.made_length) in
      let k : length l.cosigners ≡ cosigner_count (c ∷ cs) = omega (arith, g.cosigners_length) in
      let total : length ss
          ≡ plain_count (c ∷ cs) + (if cosigner_count (c ∷ cs) == 0 then 0 else 1) =
        n ∙ ap₂ (λ x y. x + (if y == 0 then 0 else 1)) a k in
      (total, omega (arith, total, some_signer c cs))

  -- If NewMultipleFromConfig succeeds, there is one signer at least: one for each entry that is no
  -- cosigner, and one for all the cosigners together if there are any.
  pub new_multiple-length :
      (sc : SigningConfig) {ss : List S}
      → new_multiple_from_config p sc ≡ ok ss
      → (length ss
          ≡ plain_count (get_signer_configs sc)
            + (if cosigner_count (get_signer_configs sc) == 0 then 0 else 1))
        × (0 < length ss)
  unfolding new_multiple_from_config
  new_multiple-length sc e = multiple-length sc.mtc (get_signer_configs sc) e
