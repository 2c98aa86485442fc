-- ===== src/Trillian/Manager/Examples.antt =====
-- Callers of pkg/trillianclient/manager.go, on which its theorems are applied.
use rekor.Base.{ℕ, suc, ◌≡◌, refl, [], none, ok, err, false}
use rekor.Base.Int64.{pos}
use rekor.Trillian.Config.{GrpcConfig}
use rekor.Trillian.Manager.{
  ClientManager, TrillianClient, shutting_down, Grpc, new_client_manager, write_section,
  read_section, dial_section, shut_section, get_trillian_client, client_at, conn_at,
}
use rekor.Trillian.Manager.Serving.{Serves, get_trillian_client-Serves}
use rekor.Trillian.Manager.Sharing.{dials, done, then_steps, one_client_per_tree, none_after_close}

abbrev local : GrpcConfig
local = record {
  address = [];
  port = 8090;
  tls_ca_cert = [];
  use_system_trust_store = false;
  grpc_service_config = [];
}

-- A connection is the number of the dial.
abbrev grpc : Grpc ℕ ℕ ℕ
grpc = record { dial = λ _ w. (ok w, suc w); close = λ _ w. (none, w) }

abbrev manager : ClientManager ℕ
manager = new_client_manager (λ _. none) local

abbrev after_first : ClientManager ℕ
after_first = (write_section grpc manager (pos 3) 0).1

abbrev client_three : TrillianClient ℕ
client_three = record { conn = 0; log_id = pos 3 }

-- The second caller has dialled a connection of its own.
abbrev after_dial : ClientManager ℕ
after_dial = (dial_section grpc local after_first 1).1

first_handed : (write_section grpc manager (pos 3) 0).0 ≡ ok client_three
unfolding write_section read_section new_client_manager client_at
first_handed = refl

second_handed : (write_section grpc after_dial (pos 3) 1).0 ≡ ok client_three
unfolding write_section read_section new_client_manager client_at dial_section conn_at
second_handed = refl

one_client_per_tree_example : client_three ≡ client_three
one_client_per_tree_example =
    one_client_per_tree grpc (pos 3) manager after_dial 0 1 first_handed
      (then_steps (dials after_first local 1) done) second_handed

abbrev shut : ClientManager ℕ
shut = shut_section grpc after_first

abbrev late : ClientManager ℕ
late = (dial_section grpc local shut 1).1

none_after_close_example :
    (get_trillian_client grpc late (pos 3) 2 ≡ (err shutting_down, late, 2))
    × (write_section grpc late (pos 3) 1 ≡ (err shutting_down, late))
none_after_close_example =
    none_after_close grpc (pos 3) after_first late 1 2 (then_steps (dials shut local 1) done)

get_trillian_client-Serves_example : Serves grpc manager (pos 3) 5
unfolding new_client_manager client_at
get_trillian_client-Serves_example =
    get_trillian_client-Serves grpc manager (pos 3) 5 refl (λ client e. cc) (5, 6, refl)
