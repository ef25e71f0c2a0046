-- ===== src/Server/Fcm.antt =====
-- gaurun/client.go: `InitGCMClient`. Its transport names no certificate and leaves HTTP/2 as it is.
use gaurun.Prelude.{String, false, Option, none}
use gaurun.Http.{Result, ok, err}
use gaurun.Conf.{SectionAndroid}
use gaurun.Gcm.Client.{Client, new_client, make_fcm_send_endpoint}
use gaurun.Server.{keep_alive_interval}
use gaurun.Server.Apns.{Transport, HttpClient, seconds}

-- `GCMClient` with its field `Http`.
pub record FcmClient : Type 0 where
  pub client : Client
  pub http : HttpClient (Unit {0})

unfoldable pub fcm_transport : SectionAndroid → Transport (Unit {0})
fcm_transport android = record {
  certificate = none;
  max_idle_conns_per_host = android.keep_alive_conns;
  dial_timeout = seconds android.timeout;
  dial_keep_alive = seconds (keep_alive_interval android.keep_alive_timeout);
  idle_conn_timeout = seconds android.keep_alive_timeout;
  force_attempt_http2 = false;
}

unfoldable pub init_gcm_client :
    (parse_url : String → Option String)
    → (quote : String → String) → SectionAndroid
    → Result FcmClient
unfolding fcm_transport
init_gcm_client parse_url quote android =
    elim (new_client parse_url quote (make_fcm_send_endpoint android.project_id) android.api_key) [
      | err text ↦ err text
      | ok client ↦ ok (record {
        client = client;
        http = record { transport = fcm_transport android; timeout = seconds android.timeout };
      })
    ]
