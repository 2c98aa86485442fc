-- ===== src/Trillian/Manager/Sharing.antt =====
-- pkg/trillianclient/manager.go: what the clients handed out have to do with each other.
use rekor.Base.{
  ◌⊎◌, inl, inr, ◌≡◌, refl, ap, sym, ◌∙◌, Bool, true, false, List, ◌∷◌, Option, none, some, Result,
  ok, err, ok-injective, some-injective, Bool-cases,
}
use rekor.Base.Int64.{ℤ, int_eq, int_eq_refl, int_eq_iff}
use rekor.Trillian.Config.{GrpcConfig}
use rekor.Trillian.Manager.{
  ClientManager, TrillianClient, Error, shutting_down, Grpc, client_at, conn_at, dial_section,
  read_section, write_section, shut_section, close_section, cache_client, cached_or_dial,
  get_trillian_client, unless_shutdown, client_or_connect,
}

module _ {E C W : Type 0} (grpc : Grpc E C W) where
  -- One section of one caller, in any state of the world.
  pub data Step : ClientManager C → ClientManager C → Type 0 where
    dials :
        (m : ClientManager C) (config : GrpcConfig) (w : W)
        → Step m (dial_section grpc config m w).1
    caches : (m : ClientManager C) (tid : ℤ) (conn : C) → Step m (write_section grpc m tid conn).1
    shuts : (m : ClientManager C) → Step m (shut_section grpc m)
    closes : (m : ClientManager C) (w : W) → Step m (close_section grpc m w).1

  pub data Steps : ClientManager C → ClientManager C → Type 0 where
    done : {m : ClientManager C} → Steps m m
    then_steps : {m n o : ClientManager C} → Step m n → Steps n o → Steps m o

  -- The client of the tree is the one given, or the manager is shut down.
  abbrev pub Keeps : ℤ → TrillianClient C → ClientManager C → Type 0
  Keeps tid c m = (m.shutdown ≡ true) ⊎ (client_at tid m.trillian_clients ≡ some c)

  dialled-clients :
      (m : ClientManager C) (config : GrpcConfig) (o : Option C) (r : Result E C × W) (w : W)
      → (grpc.dial config w ≡ r)
      → ((cached_or_dial grpc m config o w).1.shutdown ≡ m.shutdown)
        × ((cached_or_dial grpc m config o w).1.trillian_clients ≡ m.trillian_clients)
  dialled-clients m config (some conn) r w e = (refl, refl)
  dialled-clients m config none (err x, v) w e = rw e (refl, refl)
  dialled-clients m config none (ok conn, v) w e = rw e (refl, refl)

  dial-Keeps :
      (tid : ℤ) (c : TrillianClient C) (m : ClientManager C) (config : GrpcConfig) (w : W)
      → Keeps tid c m
      → Keeps tid c (dial_section grpc config m w).1
  unfolding dial_section
  dial-Keeps tid c m config w k =
      let (s, t) =
        dialled-clients m config (conn_at config m.connections) (grpc.dial config w) w refl in
      elim k [ inl down ↦ inl (s ∙ down) | inr is ↦ inr (ap (client_at tid) t ∙ is) ]

  or_rest-int_eq :
      (tid u : ℤ) (c d : TrillianClient C) (m : List (ℤ × TrillianClient C))
      → client_at tid m ≡ some c
      → client_at u m ≡ none
      → client_at tid ((u, d) ∷ m) ≡ some c
  unfolding client_at
  or_rest-int_eq tid u c d m is fresh = elim (Bool-cases (int_eq u tid)) [
    | inl same ↦ absurd (cc (ap (λ x. client_at x m) ((int_eq_iff u tid).0 same), is, fresh))
    | inr other ↦ rw other is
  ]

  cache-Keeps :
      (tid : ℤ) (c : TrillianClient C) (m : ClientManager C) (u : ℤ) (conn : C) (b : Bool)
      (o : Option (TrillianClient C))
      → (client_at u m.trillian_clients ≡ o)
      → Keeps tid c m
      → Keeps tid c (cache_client grpc m u conn (unless_shutdown grpc b o)).1
  cache-Keeps tid c m u conn true o e k = k
  cache-Keeps tid c m u conn false (some d) e k = k
  cache-Keeps tid c m u conn false none e (inl down) = inl down
  cache-Keeps tid c m u conn false none e (inr is) =
      inr (or_rest-int_eq tid u c _ m.trillian_clients is e)

  Step-Keeps :
      (tid : ℤ) (c : TrillianClient C) {m n : ClientManager C}
      → Step m n
      → Keeps tid c m
      → Keeps tid c n
  unfolding write_section read_section shut_section close_section
  Step-Keeps tid c (dials m config w) k = dial-Keeps tid c m config w k
  Step-Keeps tid c (caches m u conn) k =
      cache-Keeps tid c m u conn m.shutdown (client_at u m.trillian_clients) refl k
  Step-Keeps tid c (shuts m) k = inl refl
  Step-Keeps tid c (closes m w) k = k

  Steps-Keeps :
      (tid : ℤ) (c : TrillianClient C) {m n : ClientManager C}
      → Steps m n
      → Keeps tid c m
      → Keeps tid c n
  Steps-Keeps tid c done k = k
  Steps-Keeps tid c (then_steps s ss) k = Steps-Keeps tid c ss (Step-Keeps tid c s k)

  -- What a caller is handed by the write section is cached.
  cached-when_handed :
      (m : ClientManager C) (tid : ℤ) (conn : C) (b : Bool) (o : Option (TrillianClient C))
      {c : TrillianClient C}
      → (client_at tid m.trillian_clients ≡ o)
      → (cache_client grpc m tid conn (unless_shutdown grpc b o)).0 ≡ ok c
      → Keeps tid c (cache_client grpc m tid conn (unless_shutdown grpc b o)).1
  unfolding client_at
  cached-when_handed m tid conn true o e h = cc
  cached-when_handed m tid conn false (some d) e h = inr (e ∙ ap some (ok-injective h))
  cached-when_handed m tid conn false none e h =
      inr (rw (int_eq_refl tid) (ap some (ok-injective h)))

  kept-when_handed :
      (m : ClientManager C) (tid : ℤ) (conn : C) (b : Bool) (o : Option (TrillianClient C))
      {c d : TrillianClient C}
      → (m.shutdown ≡ b)
      → (client_at tid m.trillian_clients ≡ o)
      → Keeps tid c m
      → (cache_client grpc m tid conn (unless_shutdown grpc b o)).0 ≡ ok d
      → d ≡ c
  kept-when_handed m tid conn true o s e k h = cc
  kept-when_handed m tid conn false o s e (inl down) h = absurd (cc (s, down))
  kept-when_handed m tid conn false (some x) s e (inr is) h =
      sym (ok-injective h) ∙ some-injective (sym e ∙ is)
  kept-when_handed m tid conn false none s e (inr is) h = absurd (cc (e, is))

  -- Two callers that are handed a client of the same tree, with the connections that they have, are
  -- handed the same client, whatever sections of other callers run between their write sections.
  pub one_client_per_tree :
      (tid : ℤ) (m n : ClientManager C) (conn conn2 : C) {c d : TrillianClient C}
      → (write_section grpc m tid conn).0 ≡ ok c
      → Steps (write_section grpc m tid conn).1 n
      → (write_section grpc n tid conn2).0 ≡ ok d
      → d ≡ c
  unfolding write_section read_section
  one_client_per_tree tid m n conn conn2 {c} h ss h2 =
      let k = cached-when_handed m tid conn m.shutdown (client_at tid m.trillian_clients) refl h in
      kept-when_handed n tid conn2 n.shutdown (client_at tid n.trillian_clients) refl refl
        (Steps-Keeps tid c ss k) h2

  dial-shutdown :
      (m : ClientManager C) (config : GrpcConfig) (w : W)
      → (dial_section grpc config m w).1.shutdown ≡ m.shutdown
  unfolding dial_section
  dial-shutdown m config w =
      (dialled-clients m config (conn_at config m.connections) (grpc.dial config w) w refl).0

  cache-shutdown :
      (m : ClientManager C) (u : ℤ) (conn : C) (r : Result (Error E) (Option (TrillianClient C)))
      → (cache_client grpc m u conn r).1.shutdown ≡ m.shutdown
  cache-shutdown m u conn (err x) = refl
  cache-shutdown m u conn (ok (some d)) = refl
  cache-shutdown m u conn (ok none) = refl

  Step-shutdown : {m n : ClientManager C} → Step m n → m.shutdown ≡ true → n.shutdown ≡ true
  unfolding write_section shut_section close_section
  Step-shutdown (dials m config w) h = dial-shutdown m config w ∙ h
  Step-shutdown (caches m u conn) h = cache-shutdown m u conn (read_section grpc m u) ∙ h
  Step-shutdown (shuts m) h = refl
  Step-shutdown (closes m w) h = h

  Steps-shutdown : {m n : ClientManager C} → Steps m n → m.shutdown ≡ true → n.shutdown ≡ true
  Steps-shutdown done h = h
  Steps-shutdown (then_steps s ss) h = Steps-shutdown ss (Step-shutdown s h)

  refused :
      (b : Bool) {A : Type 0} (a : A) → b ≡ true → unless_shutdown grpc b a ≡ err shutting_down
  refused true a h = refl
  refused false a h = cc

  -- After the shutdown section of Close, whatever sections run, neither GetTrillianClient nor a caller
  -- that was between its sections is handed a client, and GetTrillianClient asks for no connection.
  pub none_after_close :
      (tid : ℤ) (m n : ClientManager C) (conn : C) (w : W)
      → Steps (shut_section grpc m) n
      → (get_trillian_client grpc n tid w ≡ (err shutting_down, n, w))
        × (write_section grpc n tid conn ≡ (err shutting_down, n))
  unfolding get_trillian_client write_section read_section shut_section
  none_after_close tid m n conn w ss =
      let h = refused n.shutdown (client_at tid n.trillian_clients) (Steps-shutdown ss refl) in
      (ap (λ r. client_or_connect grpc n tid r w) h, ap (cache_client grpc n tid conn) h)
