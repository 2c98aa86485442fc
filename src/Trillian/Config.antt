-- ===== src/Trillian/Config.antt =====
-- pkg/trillianclient/config.go: where a log server is.
use rekor.Base.{ℕ, Bool}
use rekor.Base.Bytes.{Bytes}

pub record GrpcConfig : Type 0 where
  pub address : Bytes
  pub port : ℕ
  pub tls_ca_cert : Bytes
  pub use_system_trust_store : Bool
  pub grpc_service_config : Bytes
