-- ===== src/Buford/Push/Setup.antt =====
-- buford/push/service.go: `NewService` and `NewClient`. What they leave out has its zero value.
use gaurun.Prelude.{pos, String, true, some}
use gaurun.Server.Apns.{HttpClient}

pub record Service (Client : Type 0) : Type 0 where
  pub host : String
  pub client : Client

unfoldable pub new_service : {Client : Type 0} → Client → (host : String) → Service Client
new_service client host = record { host = host; client = client }

unfoldable pub new_client : {Cert : Type 0} → Cert → HttpClient Cert
new_client cert = record {
  transport = record {
    certificate = some cert;
    max_idle_conns_per_host = pos 0;
    dial_timeout = pos 0;
    dial_keep_alive = pos 0;
    idle_conn_timeout = pos 0;
    force_attempt_http2 = true;
  };
  timeout = pos 0;
}
