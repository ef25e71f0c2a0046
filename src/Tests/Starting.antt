-- ===== src/Tests/Starting.antt =====
-- A start of the server, its requests, and the sample client.
use gaurun.Prelude.{
  ℕ, ℤ, pos, ◌≡◌, ◌↔◌, ◌≢◌, ◌≤ℤ◌, refl, inl, inr, arith, String, ◌++ˢ◌, str_eq, false, List, [],
  ◌∷◌, none, some, All, if◌then◌else◌, lookup, show_ℕ, to_int64, ◌*ℤ◌,
}
use gaurun.Http.{Result, ok, err, response}
use gaurun.Conf.{
  ConfToml, build_default_conf, is_certificate_based_provider, is_token_based_provider,
}
use gaurun.Conf.Load.{load_conf, load_accsess_key_json}
use gaurun.Conf.Pushers.{Values, config_pushers_handler, set_pusher_max, max_value}
use gaurun.Log.Setup.{stdout, stderr, init_log, writer_of}
use gaurun.Notification.{Notification}
use gaurun.Notification.Handler.{push_notification_handler}
use gaurun.Server.{init_apns_client}
use gaurun.Server.Start.{overwrite}
use gaurun.Server.Apns.{
  ApnsClient, fault, new_apns_client, new_transport, load_x509_key_pair_with_password, key_block,
  pair_with, client_with,
}
use gaurun.Server.Fcm.{FcmClient, init_gcm_client, fcm_transport}
use gaurun.Gcm.Client.{new_client, make_fcm_send_endpoint}
use gaurun.Server.Run.{write_file, go_signal_handler}
use gaurun.Server.Main.{Flags, Machine, Globals, apns_result, main}
use gaurun.Server.Ready.{IsReady, launched}
use gaurun.Server.Started.{Started}
use gaurun.Server.Starts.{main-eq-launched}
use gaurun.Server.Routes.{Live, WebRequest, serve_all}
use gaurun.Server.Served.{with_limit, limit_by, limit_after, AreAnswers, serve_all-with_limit}
use gaurun.Server.Keys.{new_apns_client-fault_iff}
use gaurun.Sample.Accepted.{received, IsValid, sample_accepted}
use gaurun.Tests.Samples.{conf, batch, no_stats}

abbrev flags : Flags
flags = record {
  version_printed = false;
  conf_path = "gaurun.toml";
  listen_port = "8080";
  worker_num = pos 2;
  queue_num = pos 0;
  access_key_path = "key.json";
}

-- What the file says: a provider of certificates, a key for Android and a pid file.
abbrev pub good : ConfToml
good = record conf {
  core = record (conf.core) { pid = "/run/gaurun.pid" };
  ios = record (conf.ios) { pem_cert_path = "cert.pem"; pem_key_path = "key.pem" };
  android = record (conf.android) { api_key = "secret" };
}

-- A machine on which all goes well.
abbrev pub machine : Machine (Unit {0}) (Unit {0}) String String
machine = record {
  num_cpu = 4;
  compiler = "gc";
  go_version = "go1.15";
  read_file = λ path. ok path;
  unmarshal_conf = λ doc old. ok good;
  new_file_writer = λ path mode. none;
  unmarshal_level = λ text. ok tt;
  auth_key_from_file = λ path. err "no such file";
  pem_decode = λ text. none;
  is_encrypted_pem_block = λ block. false;
  decrypt_pem_block = λ block passphrase. err "no block";
  encode_to_memory = λ block bytes. bytes;
  x509_key_pair = λ cert key. ok (cert ++ˢ key);
  parse_url = λ url. none;
  quote = λ text. text;
  dir = λ path. "/run";
  stat_missing = λ path. none;
  getpid = 7;
  write = λ path content. none;
}

abbrev full : ConfToml
full = overwrite "8080" (pos 2) (pos 0) good

abbrev fcm_client : FcmClient
fcm_client = record {
  client = record { api_key = "secret"; url = make_fcm_send_endpoint "" };
  http = record { transport = fcm_transport full.android; timeout = pos 5000000000 };
}

abbrev apns_client : ApnsClient String String
apns_client = record {
  http_client = record {
    transport = new_transport full.ios ("cert.pem" ++ˢ "key.pem");
    timeout = pos 5000000000;
  };
  token = none;
}

abbrev globals : Globals (Unit {0}) String String
globals = record {
  access_key_json_data = "key.json";
  conf_gaurun = full;
  log_access = record { writer = stdout; level = tt };
  log_error = record { writer = stderr; level = tt };
  gcm_client = some fcm_client;
  apns_client = some apns_client;
}

globals-IsReady : IsReady machine flags globals
unfolding load_accsess_key_json load_conf init_log writer_of overwrite build_default_conf
    is_certificate_based_provider is_token_based_provider init_gcm_client new_client apns_result
    init_apns_client new_apns_client load_x509_key_pair_with_password key_block pair_with
    client_with to_int64 ◌*ℤ◌ make_fcm_send_endpoint
globals-IsReady = record {
  conf = good;
  key_read = refl;
  conf_read = refl;
  overwritten = refl;
  access_log = refl;
  error_log = refl;
  startable = (inl refl, inr (inl (refl, refl, refl, refl)), inr (λ e. cc e));
  pid = inr (refl, refl, refl);
  fcm = inr (fcm_client, refl, refl, refl);
  apns = inr (apns_client, refl, refl, refl);
}

-- The logs go to the standard streams, so that the pid file is the only one written.
started : main machine flags ≡ (
  go_signal_handler ∷ write_file "/run/gaurun.pid" "7" ∷ launched machine globals,
  some globals,
)
unfolding globals-IsReady build_default_conf overwrite show_ℕ
started = main-eq-launched machine flags globals globals-IsReady refl

-- The requests to the site: a new limit, one that is refused, and a push.
abbrev parse_query : String → Result (List (String × Values))
parse_query query = ok (("max", record { first = query; others = [] }) ∷ [])

abbrev parse_int : String → Result ℤ
parse_int text = if str_eq text "5" then ok (pos 5) else err "invalid syntax"

-- Nothing has been queued at the first request; what the goroutines and the workers have done by the
-- third, it reads.
abbrev live : (queue_len pusher_count_all : ℕ) → Live
live queue_len pusher_count_all = record {
  queue_cap = 8192;
  queue_len = queue_len;
  pusher_count_all = pusher_count_all;
  counters = no_stats;
}

abbrev web_request : (path method query : String) → Live → WebRequest (List Notification)
web_request path method query now = record {
  live = now;
  path = path;
  raw_query = query;
  request = record { method = method; content_length = pos 2; body = batch };
}

abbrev requests : List (WebRequest (List Notification))
requests =
    web_request "/config/pushers" "PUT" "5" (live 0 0)
    ∷ web_request "/config/pushers" "PUT" "many" (live 7 1)
    ∷ web_request "/push" "POST" "" (live 0 3)
    ∷ web_request "/stat/app" "GET" "" (live 2 3)
    ∷ []

abbrev read_all : List Notification → Result String
read_all body = err "no text"

abbrev unmarshal : String → Result (List Notification)
unmarshal text = err "no JSON"

abbrev decode : List Notification → Result (List Notification)
decode body = ok body

limit_tests : limit_after read_all unmarshal decode parse_query parse_int requests (pos 0) ≡ pos 5
unfolding limit_after limit_by config_pushers_handler set_pusher_max max_value lookup
limit_tests = refl

serve_all-with_limit_example :
    let (answers, after) =
      serve_all read_all unmarshal decode parse_query parse_int requests conf in
    ((after
        ≡ with_limit conf (
            limit_after read_all unmarshal decode parse_query parse_int requests
              conf.core.pusher_max))
      × (pos 0
          ≤ℤ limit_after read_all unmarshal decode parse_query parse_int requests
              conf.core.pusher_max)
      × AreAnswers read_all unmarshal decode parse_query parse_int conf conf.core.pusher_max
          requests answers)
unfolding build_default_conf
serve_all-with_limit_example =
    serve_all-with_limit read_all unmarshal decode parse_query parse_int requests conf (omega arith)

abbrev passphrase : String
passphrase = "secret"

-- With a passphrase and a key file without a PEM block.
new_apns_client-fault_iff_example :
    (new_apns_client machine.read_file machine.pem_decode machine.is_encrypted_pem_block
        machine.decrypt_pem_block machine.encode_to_memory machine.x509_key_pair {Key = String}
        conf.ios "cert.pem" "key.pem" passphrase
      ≡ ok fault)
    ↔ ((passphrase ≢ "")
        × ((text : String) × (machine.read_file "key.pem" ≡ ok text)
            × (machine.pem_decode text ≡ none)))
new_apns_client-fault_iff_example =
    new_apns_client-fault_iff machine.read_file machine.pem_decode machine.is_encrypted_pem_block
      machine.decrypt_pem_block machine.encode_to_memory machine.x509_key_pair conf.ios "cert.pem"
      "key.pem" passphrase

sample_accepted_example :
    let body = received "a" "" in
    ((push_notification_handler read_all unmarshal decode
          (build_default_conf 4)
          (record { method = "POST"; content_length = pos 2; body = body })
        ≡ record { answer = response "ok" 200; enqueue = some body })
      × All IsValid body)
sample_accepted_example =
    sample_accepted read_all unmarshal decode 4 "a" ""
      (record { method = "POST"; content_length = pos 2; body = received "a" "" }) (inl (λ e. cc e))
      refl (λ e. cc e) refl
