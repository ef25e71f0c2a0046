-- ===== src/Recover/Main.antt =====
-- cmd/gaurun_recover/gaurun_recover.go: `main`, up to the goroutines that push. `open_log` is
-- `os.Open` with the lines that the scanner finds; the lines printed for what cannot be read are left
-- out. The machine is that of the server's start.
use gaurun.Prelude.{ℕ, pos, String, Bool, false, List, [], ◌∷◌, none, if◌then◌else◌}
use gaurun.Http.{Result, ok, err}
use gaurun.Version.{version_text}
use gaurun.Conf.{ConfToml, SectionAndroid, SectionIos, build_default_conf}
use gaurun.Conf.Load.{load_conf, load_accsess_key_json}
use gaurun.Gcm.Client.{new_client, make_fcm_send_endpoint}
use gaurun.Server.Apns.{ApnsClient, Transport, seconds}
use gaurun.Server.Fcm.{FcmClient}
use gaurun.Server.Run.{Run, panic, print, ◌>>=◌, pure, or_fatal, or_panic}
use gaurun.Server.Main.{Machine, same, apns_result}
use gaurun.Recover.{Entry, scan, losts}

pub record Flags : Type 0 where
  pub version_printed : Bool
  pub conf_path : String
  pub log_path : String
  pub access_key_path : String

-- What the goroutines start from: the globals of the packages, and the lost entries.
pub record Plan (Cert Key : Type 0) : Type 0 where
  pub conf_gaurun : ConfToml
  pub apns_client : ApnsClient Cert Key
  pub losts : List (ℕ × Entry)

unfoldable pub opened : Result (List String) → Run (List String)
opened (err text) = (panic ∷ [], none)
opened (ok lines) = pure lines

-- `APNSClient.HTTPClient.Timeout = …`
unfoldable pub with_timeout :
    {Cert Key : Type 0} → SectionIos → ApnsClient Cert Key → ApnsClient Cert Key
with_timeout ios client = record client {
  http_client = record (client.http_client) { timeout = seconds ios.timeout };
}

-- The transport that the tool gives to its client for FCM.
unfoldable pub transport_gcm : SectionAndroid → Transport (Unit {0})
transport_gcm android = record {
  certificate = none;
  max_idle_conns_per_host = android.keep_alive_conns;
  dial_timeout = seconds android.timeout;
  dial_keep_alive = seconds android.keep_alive_timeout;
  idle_conn_timeout = pos 0;
  force_attempt_http2 = false;
}

module _ {Level B Cert Key : Type 0} (m : Machine Level B Cert Key)
    (unmarshal : String → Result Entry) (open_log : String → Result (List String)) where
  -- The client for FCM, a local variable of `main`
  unfoldable pub gcm_client : SectionAndroid → Result FcmClient
  gcm_client android =
      elim (new_client m.parse_url m.quote (make_fcm_send_endpoint android.project_id)
        android.api_key) [
          | err text ↦ err text
          | ok client ↦ ok (record {
            client = client;
            http = record { transport = transport_gcm android; timeout = seconds android.timeout };
          })
        ]

  unfoldable pub recover : Flags → Run (Plan Cert Key)
  unfolding opened
  recover flags = do
    json ← or_fatal same (load_accsess_key_json m.read_file flags.access_key_path)
    conf ←
        or_fatal same
          (load_conf m.read_file m.unmarshal_conf (build_default_conf m.num_cpu) flags.conf_path)
    lines ← opened (open_log flags.log_path)
    let lost = losts (scan unmarshal lines)
    result ← or_fatal same (apns_result m conf.ios)
    client ← or_panic result
    gcm ← or_fatal same (gcm_client conf.android)
    pure (record { conf_gaurun = conf; apns_client = with_timeout conf.ios client; losts = lost })

  unfoldable pub main : Flags → Run (Plan Cert Key)
  main flags =
      if flags.version_printed
      then (print (version_text m.compiler m.go_version) ∷ [], none)
      else recover flags
