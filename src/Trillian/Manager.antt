-- ===== src/Trillian/Manager.antt =====
-- pkg/trillianclient/manager.go: the cache of clients and of the connections they share. Each section
-- that holds a lock is a function, since others may run between two of them.
pub mod Sharing
pub mod Serving
mod Examples
use rekor.Base.{
  ℕ, Bool, true, false, List, [], ◌∷◌, ◌++◌, Option, none, some, if◌then◌else◌, ◌==◌, ◌&&◌, Result,
  ok, err,
}
use rekor.Base.Bytes.{Bytes, bytes_eq}
use rekor.Base.Int64.{ℤ, int_eq}
use rekor.Trillian.Config.{GrpcConfig}

abbrev pub bool_eq : Bool → Bool → Bool
bool_eq true b = b
bool_eq false true = false
bool_eq false false = true

-- The key of the connections is the whole configuration.
unfoldable pub config_eq : GrpcConfig → GrpcConfig → Bool
config_eq a b =
    bytes_eq a.address b.address
    && (a.port == b.port)
    && bytes_eq a.tls_ca_cert b.tls_ca_cert
    && bool_eq a.use_system_trust_store b.use_system_trust_store
    && bytes_eq a.grpc_service_config b.grpc_service_config

-- The value of the first key that is the same.
abbrev pub or_rest : {A : Type 0} → Bool → A → Option A → Option A
or_rest true a rest = some a
or_rest false a rest = rest

unfoldable pub conn_at : {C : Type 0} → GrpcConfig → List (GrpcConfig × C) → Option C
conn_at k [] = none
conn_at k ((j, c) ∷ m) = or_rest (config_eq j k) c (conn_at k m)

-- A client is the connection and the tree it asks about.
pub record TrillianClient (C : Type 0) : Type 0 where
  pub conn : C
  pub log_id : ℤ

unfoldable pub client_at :
    {C : Type 0} → ℤ → List (ℤ × TrillianClient C) → Option (TrillianClient C)
client_at k [] = none
client_at k ((j, c) ∷ m) = or_rest (int_eq j k) c (client_at k m)

pub record ClientManager (C : Type 0) : Type 0 where
  pub connections : List (GrpcConfig × C)
  pub trillian_clients : List (ℤ × TrillianClient C)
  pub shutdown : Bool
  pub tree_id_to_config : ℤ → Option GrpcConfig
  pub default_config : GrpcConfig

pub data Error (E : Type 0) : Type 0 where
  shutting_down : Error E
  dial_failed : E → Error E

unfoldable pub new_client_manager :
    {C : Type 0} → (ℤ → Option GrpcConfig) → GrpcConfig → ClientManager C
new_client_manager tree_id_to_config default_config = record {
  connections = [];
  trillian_clients = [];
  shutdown = false;
  tree_id_to_config = tree_id_to_config;
  default_config = default_config;
}

-- What gRPC does: a connection, and the error of closing one.
pub record Grpc (E C W : Type 0) : Type 0 where
  pub dial : GrpcConfig → W → Result E C × W
  pub close : C → W → Option E × W

module _ {E C W : Type 0} (grpc : Grpc E C W) where
  abbrev pub or_default : GrpcConfig → Option GrpcConfig → GrpcConfig
  or_default d none = d
  or_default d (some c) = c

  abbrev pub config_of : ClientManager C → ℤ → GrpcConfig
  config_of m tid = or_default m.default_config (m.tree_id_to_config tid)

  abbrev pub dialled :
      ClientManager C → GrpcConfig → Result E C × W → Result (Error E) C × ClientManager C × W
  dialled m config (err e, w) = (err (dial_failed e), m, w)
  dialled m config (ok conn, w) =
      (ok conn, record m { connections = (config, conn) ∷ m.connections }, w)

  abbrev pub cached_or_dial :
      ClientManager C → GrpcConfig → Option C → W → Result (Error E) C × ClientManager C × W
  cached_or_dial m config (some conn) w = (ok conn, m, w)
  cached_or_dial m config none w = dialled m config (grpc.dial config w)

  -- getConn from its write lock on: it looks again, then dials and caches the new connection.
  unfoldable pub dial_section :
      GrpcConfig → ClientManager C → W → Result (Error E) C × ClientManager C × W
  dial_section config m w = cached_or_dial m config (conn_at config m.connections) w

  abbrev pub conn_or_dial :
      GrpcConfig → Option C → ClientManager C → W → Result (Error E) C × ClientManager C × W
  conn_or_dial config (some conn) m w = (ok conn, m, w)
  conn_or_dial config none m w = dial_section config m w

  unfoldable pub get_conn : ClientManager C → ℤ → W → Result (Error E) C × ClientManager C × W
  get_conn m tid w =
      let config = config_of m tid in conn_or_dial config (conn_at config m.connections) m w

  abbrev pub unless_shutdown : {A : Type 0} → Bool → A → Result (Error E) A
  unless_shutdown true a = err shutting_down
  unless_shutdown false a = ok a

  -- The section of GetTrillianClient under the read lock.
  unfoldable pub read_section : ClientManager C → ℤ → Result (Error E) (Option (TrillianClient C))
  read_section m tid = unless_shutdown m.shutdown (client_at tid m.trillian_clients)

  abbrev pub cache_client :
      ClientManager C
      → ℤ
      → C
      → Result (Error E) (Option (TrillianClient C))
      → Result (Error E) (TrillianClient C) × ClientManager C
  cache_client m tid conn (err e) = (err e, m)
  cache_client m tid conn (ok (some client)) = (ok client, m)
  cache_client m tid conn (ok none) =
      let client : TrillianClient C = record { conn = conn; log_id = tid } in
      (ok client, record m { trillian_clients = (tid, client) ∷ m.trillian_clients })

  -- The section of GetTrillianClient under the write lock, which makes both checks again.
  unfoldable pub write_section :
      ClientManager C → ℤ → C → Result (Error E) (TrillianClient C) × ClientManager C
  write_section m tid conn = cache_client m tid conn (read_section m tid)

  abbrev pub with_conn :
      ℤ
      → Result (Error E) C × ClientManager C × W
      → Result (Error E) (TrillianClient C) × ClientManager C × W
  with_conn tid (err e, m, w) = (err e, m, w)
  with_conn tid (ok conn, m, w) = let (r, n) = write_section m tid conn in (r, n, w)

  abbrev pub client_or_connect :
      ClientManager C
      → ℤ
      → Result (Error E) (Option (TrillianClient C))
      → W
      → Result (Error E) (TrillianClient C) × ClientManager C × W
  client_or_connect m tid (err e) w = (err e, m, w)
  client_or_connect m tid (ok (some client)) w = (ok client, m, w)
  client_or_connect m tid (ok none) w = with_conn tid (get_conn m tid w)

  -- GetTrillianClient where nothing runs between its sections.
  unfoldable pub get_trillian_client :
      ClientManager C → ℤ → W → Result (Error E) (TrillianClient C) × ClientManager C × W
  get_trillian_client m tid w = client_or_connect m tid (read_section m tid) w

  -- The section of Close that holds the lock of the clients.
  unfoldable pub shut_section : ClientManager C → ClientManager C
  shut_section m = record m { shutdown = true; trillian_clients = [] }

  abbrev pub and_error : GrpcConfig → Option E → List (GrpcConfig × E) → List (GrpcConfig × E)
  and_error config none errors = errors
  and_error config (some e) errors = (config, e) ∷ errors

  -- Every connection is closed, whatever the errors of the others; the errors are joined.
  unfoldable pub close_all : List (GrpcConfig × C) → W → List (GrpcConfig × E) × W
  close_all [] w = ([], w)
  close_all ((config, conn) ∷ rest) w =
      let (e, v) = grpc.close conn w in
      let (errors, u) = close_all rest v in (and_error config e errors, u)

  -- The section of Close that holds the lock of the connections.
  unfoldable pub close_section : ClientManager C → W → List (GrpcConfig × E) × ClientManager C × W
  close_section m w =
      let (errors, v) = close_all m.connections w in (errors, record m { connections = [] }, v)

  unfoldable pub close : ClientManager C → W → List (GrpcConfig × E) × ClientManager C × W
  close m w = close_section (shut_section m) w
