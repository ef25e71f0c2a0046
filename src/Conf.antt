-- ===== src/Conf.antt =====
-- gaurun/conf.go: the configuration, its defaults, and which APNs provider it names.
pub mod Pushers
pub mod Load
pub mod Laws
use gaurun.Prelude.{ℕ, ℤ, pos, String, Bool, true, false, not, ◌&&◌, is_empty}

-- `ConfToml` and its four sections. int and int64 fields are integers.
pub record SectionCore : Type 0 where
  pub port : String
  pub worker_num : ℤ
  pub queue_num : ℤ
  pub notification_max : ℤ
  pub pusher_max : ℤ
  pub shutdown_timeout : ℤ
  pub pid : String
  pub allows_empty_message : Bool

pub record SectionAndroid : Type 0 where
  pub enabled : Bool
  pub api_key : String
  pub timeout : ℤ
  pub keep_alive_timeout : ℤ
  pub keep_alive_conns : ℤ
  pub retry_max : ℤ
  pub project_id : String

pub record SectionIos : Type 0 where
  pub enabled : Bool
  pub pem_cert_path : String
  pub pem_key_path : String
  pub pem_key_passphrase : String
  pub token_auth_key_path : String
  pub token_auth_key_id : String
  pub token_auth_team_id : String
  pub sandbox : Bool
  pub retry_max : ℤ
  pub timeout : ℤ
  pub keep_alive_timeout : ℤ
  pub keep_alive_conns : ℤ
  pub topic : String

pub record SectionLog : Type 0 where
  pub access_log : String
  pub error_log : String
  pub level : String

pub record ConfToml : Type 0 where
  pub core : SectionCore
  pub android : SectionAndroid
  pub ios : SectionIos
  pub log : SectionLog

-- `runtime.NumCPU()` is the argument. What `BuildDefaultConf` does not set is Go's zero value.
unfoldable pub build_default_conf : ℕ → ConfToml
build_default_conf num_cpu = record {
  core = record {
    port = "1056";
    worker_num = pos num_cpu;
    queue_num = pos 8192;
    notification_max = pos 100;
    pusher_max = pos 0;
    shutdown_timeout = pos 10;
    pid = "";
    allows_empty_message = false;
  };
  android = record {
    enabled = true;
    api_key = "";
    timeout = pos 5;
    keep_alive_timeout = pos 90;
    keep_alive_conns = pos num_cpu;
    retry_max = pos 1;
    project_id = "";
  };
  ios = record {
    enabled = true;
    pem_cert_path = "";
    pem_key_path = "";
    pem_key_passphrase = "";
    token_auth_key_path = "";
    token_auth_key_id = "";
    token_auth_team_id = "";
    sandbox = true;
    retry_max = pos 1;
    timeout = pos 5;
    keep_alive_timeout = pos 90;
    keep_alive_conns = pos num_cpu;
    topic = "";
  };
  log = record { access_log = "stdout"; error_log = "stderr"; level = "error" };
}

unfoldable pub is_token_based_provider : SectionIos → Bool
is_token_based_provider s =
    not (is_empty s.token_auth_key_path)
    && not (is_empty s.token_auth_key_id)
    && not (is_empty s.token_auth_team_id)

unfoldable pub is_certificate_based_provider : SectionIos → Bool
is_certificate_based_provider s = not (is_empty s.pem_cert_path) && not (is_empty s.pem_key_path)
