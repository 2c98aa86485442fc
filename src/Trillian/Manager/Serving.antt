-- ===== src/Trillian/Manager/Serving.antt =====
-- pkg/trillianclient/manager.go: GetTrillianClient gives a client, and keeps it.
use rekor.Base.{
  ◌≡◌, refl, ap, ◌∙◌, inl, inr, ℕ, Bool, true, false, ◌==◌, ==_iff, List, ◌∷◌, none, some,
  Option-cases, ok,
}
use rekor.Base.Bytes.{bytes_eq_refl}
use rekor.Trillian.Config.{GrpcConfig}
use rekor.Base.Int64.{ℤ, int_eq_refl}
use rekor.Trillian.Manager.{
  bool_eq, config_eq, ClientManager, TrillianClient, Grpc, client_at, conn_at, config_of, dialled,
  cached_or_dial, dial_section, conn_or_dial, get_conn, unless_shutdown, read_section, cache_client,
  write_section, with_conn, client_or_connect, get_trillian_client,
}

bool_eq_refl : (b : Bool) → bool_eq b b ≡ true
bool_eq_refl true = refl
bool_eq_refl false = refl

==_refl : (n : ℕ) → (n == n) ≡ true
==_refl n = (==_iff n n).1 refl

config_eq_refl : (a : GrpcConfig) → config_eq a a ≡ true
unfolding config_eq
config_eq_refl a =
    rw
      (
        bytes_eq_refl a.address,
        ==_refl a.port,
        bytes_eq_refl a.tls_ca_cert,
        bool_eq_refl a.use_system_trust_store,
        bytes_eq_refl a.grpc_service_config,
      )
      refl

module _ {E C W : Type 0} (grpc : Grpc E C W) where
  -- The server of the tree can be dialled, now.
  abbrev pub CanDial : ClientManager C → ℤ → W → Type 0
  CanDial m tid w = (conn : C) × (v : W) × (grpc.dial (config_of grpc m tid) w ≡ (ok conn, v))

  -- The client asks about this tree, over the connection that is cached for its configuration.
  abbrev pub IsClientFor : ClientManager C → ℤ → TrillianClient C → Type 0
  IsClientFor m tid client =
      (client.log_id ≡ tid) × (conn_at (config_of grpc m tid) m.connections ≡ some client.conn)

  -- The client that is cached for the tree, if there is one, is a client for it.
  abbrev pub IsKeyed : ClientManager C → ℤ → Type 0
  IsKeyed m tid =
      (client : TrillianClient C)
      → client_at tid m.trillian_clients ≡ some client
      → IsClientFor m tid client

  -- The call gives a client for the tree, and another one, at any time, gives the same client and
  -- changes nothing.
  abbrev pub Serves : ClientManager C → ℤ → W → Type 0
  Serves m tid w =
      (client : TrillianClient C) × (n : ClientManager C) × (v : W) × (get_trillian_client grpc m
          tid w
        ≡ (ok client, n, v))
      × IsClientFor n tid client
      × (n.tree_id_to_config ≡ m.tree_id_to_config)
      × ((u : W) → get_trillian_client grpc n tid u ≡ (ok client, n, u))

  client_at_first :
      (tid : ℤ) (client : TrillianClient C) (m : List (ℤ × TrillianClient C))
      → client_at tid ((tid, client) ∷ m) ≡ some client
  unfolding client_at
  client_at_first tid client m = rw (int_eq_refl tid) refl

  conn_at_first :
      (config : GrpcConfig) (conn : C) (m : List (GrpcConfig × C))
      → conn_at config ((config, conn) ∷ m) ≡ some conn
  unfolding conn_at
  conn_at_first config conn m = rw (config_eq_refl config) refl

  again :
      (m : ClientManager C) (tid : ℤ) (client : TrillianClient C) (u : W)
      → m.shutdown ≡ false
      → client_at tid m.trillian_clients ≡ some client
      → get_trillian_client grpc m tid u ≡ (ok client, m, u)
  unfolding get_trillian_client read_section
  again m tid client u up there = rw (up, there) refl

  none_cached :
      (m : ClientManager C) (tid : ℤ)
      → m.shutdown ≡ false
      → client_at tid m.trillian_clients ≡ none
      → read_section grpc m tid ≡ ok none
  unfolding read_section
  none_cached m tid up missing =
      ap (λ b. unless_shutdown grpc b (client_at tid m.trillian_clients)) up ∙ ap ok missing

  -- The first call of a tree, once there is a connection.
  connected-Serves :
      (m n : ClientManager C) (tid : ℤ) (conn : C) (w v : W)
      → m.shutdown ≡ false
      → client_at tid m.trillian_clients ≡ none
      → get_conn grpc m tid w ≡ (ok conn, n, v)
      → n.shutdown ≡ false
      → client_at tid n.trillian_clients ≡ none
      → conn_at (config_of grpc n tid) n.connections ≡ some conn
      → n.tree_id_to_config ≡ m.tree_id_to_config
      → Serves m tid w
  unfolding get_trillian_client read_section write_section
  connected-Serves m n tid conn w v up missing got up_then missing_then cached same =
      let client : TrillianClient C = record { conn = conn; log_id = tid } in
      let kept : ClientManager C = record n {
        trillian_clients = (tid, client) ∷ n.trillian_clients;
      } in
      (
        client,
        kept,
        v,
        ap (λ r. client_or_connect grpc m tid r w) (none_cached m tid up missing)
            ∙ ap (with_conn grpc tid) got
            ∙ ap (λ r. ((cache_client grpc n tid conn r).0, (cache_client grpc n tid conn r).1, v))
                (none_cached n tid up_then missing_then),
        (refl, cached),
        same,
        λ u. again kept tid client u up_then (client_at_first tid client n.trillian_clients),
      )

  unknown-Serves :
      (m : ClientManager C) (tid : ℤ) (w : W)
      → m.shutdown ≡ false
      → client_at tid m.trillian_clients ≡ none
      → CanDial m tid w
      → Serves m tid w
  unfolding get_conn dial_section
  unknown-Serves m tid w up missing (conn, v, dials) =
      let config = config_of grpc m tid in
      elim (Option-cases (conn_at config m.connections)) [
        | inl q ↦
            connected-Serves m (record m { connections = (config, conn) ∷ m.connections }) tid conn
              w v up missing
              (ap (λ o. conn_or_dial grpc config o m w) q
                ∙ ap (λ o. cached_or_dial grpc m config o w) q
                ∙ ap (dialled grpc m config) dials)
              up missing (conn_at_first config conn m.connections) refl
        | inr (open_conn, q) ↦
            connected-Serves m m tid open_conn w w up missing
              (ap (λ o. conn_or_dial grpc config o m w) q) up missing q refl
      ]

  -- If the manager is not shut down, the server of a tree can be dialled, and a client that is cached for
  -- the tree is one for it, then GetTrillianClient gives a client for the tree: it asks about that tree,
  -- over the connection that is cached for the configuration of the tree. The manager that it leaves
  -- gives the same client whenever it is called again, without a dial or any other change.
  pub get_trillian_client-Serves :
      (m : ClientManager C) (tid : ℤ) (w : W)
      → m.shutdown ≡ false
      → IsKeyed m tid
      → CanDial m tid w
      → Serves m tid w
  get_trillian_client-Serves m tid w up keyed dials =
      elim (Option-cases (client_at tid m.trillian_clients)) [
        | inl missing ↦ unknown-Serves m tid w up missing dials
        | inr (client, there) ↦ (
          client,
          m,
          w,
          again m tid client w up there,
          keyed client there,
          refl,
          λ u. again m tid client u up there,
        )
      ]
