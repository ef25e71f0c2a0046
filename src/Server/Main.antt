-- ===== src/Server/Main.antt =====
-- cmd/gaurun/gaurun.go: `main`, up to the goroutine that serves. Files, decoders, PEM blocks, X.509
-- and the operating system are the record `Machine`; a file reads the same each time.
use gaurun.Prelude.{
  ℕ, ℤ, String, ◌++ˢ◌, Bool, [], ◌∷◌, Option, none, some, is_empty, show_ℕ, if◌then◌else◌,
}
use gaurun.Http.{Result, ok, err}
use gaurun.Conf.{ConfToml, SectionAndroid, SectionIos, build_default_conf}
use gaurun.Conf.Load.{load_conf, load_accsess_key_json}
use gaurun.Log.Setup.{Writer, stdout, stderr, discard, file, Logging, writer_of, init_log}
use gaurun.Version.{version_text}
use gaurun.Server.{init_apns_client}
use gaurun.Server.Start.{overwrite, check_start}
use gaurun.Server.Apns.{ApnsClient, Loaded, loaded, new_apns_client, new_apns_client_for_token}
use gaurun.Server.Fcm.{FcmClient, init_gcm_client}
use gaurun.Server.Run.{
  Run, print, open_log, go_signal_handler, write_file, init_stat, start_push_workers, go_run_server,
  ◌>>=◌, ◌>>◌, pure, emit, fatal, or_fatal, or_panic, unless_fatal,
}

pub record Flags : Type 0 where
  pub version_printed : Bool
  pub conf_path : String
  pub listen_port : String
  pub worker_num : ℤ
  pub queue_num : ℤ
  pub access_key_path : String

pub record Machine (Level B Cert Key : Type 0) : Type 0 where
  pub num_cpu : ℕ
  pub compiler : String
  pub go_version : String
  pub read_file : String → Result String
  pub unmarshal_conf : (doc : String) → ConfToml → Result ConfToml
  pub new_file_writer : (path : String) → (mode : ℕ) → Option String
  pub unmarshal_level : String → Result Level
  pub auth_key_from_file : String → Result Key
  pub pem_decode : String → Option B
  pub is_encrypted_pem_block : B → Bool
  pub decrypt_pem_block : B → String → Result String
  pub encode_to_memory : B → String → String
  pub x509_key_pair : (cert_pem key_pem : String) → Result Cert
  pub parse_url : String → Option String
  pub quote : String → String
  pub dir : String → String
  -- the error of `os.Stat` if `os.IsNotExist` holds of it
  pub stat_missing : String → Option String
  pub getpid : ℕ
  -- `ioutil.WriteFile` with mode 0644
  pub write : (path content : String) → Option String

-- The global variables that `main` sets.
pub record Globals (Level Cert Key : Type 0) : Type 0 where
  pub access_key_json_data : String
  pub conf_gaurun : ConfToml
  pub log_access : Logging Level
  pub log_error : Logging Level
  pub gcm_client : Option FcmClient
  pub apns_client : Option (ApnsClient Cert Key)

abbrev pub same : String → String
same text = text

module _ {Level B Cert Key : Type 0} (m : Machine Level B Cert Key) where
  -- The file that `InitLog` has opened before it reads the level.
  unfoldable pub open_writer : Result Writer → Run (Unit {0})
  open_writer (ok (file path mode)) = emit (open_log path mode)
  open_writer (ok stdout) = pure tt
  open_writer (ok stderr) = pure tt
  open_writer (ok discard) = pure tt
  open_writer (err text) = pure tt

  -- A call of `InitLog`
  unfoldable pub log_of : (out level : String) → Run (Logging Level)
  unfolding open_writer
  log_of out level = do
    open_writer (writer_of m.new_file_writer m.unmarshal_level out)
    or_fatal same (init_log m.new_file_writer m.unmarshal_level out level)

  -- The pid file
  unfoldable pub create_pid : String → Run (Unit {0})
  create_pid pid = if is_empty pid then pure tt else elim (m.stat_missing (m.dir pid)) [
    | some text ↦ fatal ("directory for pid file is not exist: " ++ˢ text)
    | none ↦ elim (m.write pid (show_ℕ m.getpid)) [
      | some text ↦ fatal ("failed to create a pid file: " ++ˢ text)
      | none ↦ emit (write_file pid (show_ℕ m.getpid))
    ]
  ]

  unfoldable pub gcm_of : SectionAndroid → Run (Option FcmClient)
  gcm_of android =
      if android.enabled
      then (do
        client ←
            or_fatal (λ text. "failed to init gcm/fcm client: " ++ˢ text)
              (init_gcm_client m.parse_url m.quote android)
        pure (some client))
      else pure none

  -- `InitAPNSClient` with the clients of gaurun/apns_http2.go
  unfoldable pub apns_result : SectionIos → Result (Loaded (ApnsClient Cert Key))
  apns_result ios =
      init_apns_client
        (new_apns_client m.read_file m.pem_decode m.is_encrypted_pem_block m.decrypt_pem_block
          m.encode_to_memory m.x509_key_pair ios)
        m.auth_key_from_file
        (λ key key_id team_id. ok (loaded (new_apns_client_for_token ios key key_id team_id))) ios

  unfoldable pub apns_of : SectionIos → Run (Option (ApnsClient Cert Key))
  apns_of ios =
      if ios.enabled
      then (do
        result ←
            or_fatal (λ text. "failed to init http client for APNs: " ++ˢ text) (apns_result ios)
        client ← or_panic result
        pure (some client))
      else pure none

  -- With the configuration as the flags change it, up to the clients.
  unfoldable pub set_up_with :
      (json : String) → (conf conf_gaurun : ConfToml) → Run (Globals Level Cert Key)
  set_up_with json conf conf_gaurun = do
    access ← log_of conf_gaurun.log.access_log "info"
    error ← log_of conf_gaurun.log.error_log conf_gaurun.log.level
    unless_fatal (check_start m.read_file m.auth_key_from_file conf_gaurun)
    emit go_signal_handler
    create_pid conf.core.pid
    gcm ← gcm_of conf_gaurun.android
    apns ← apns_of conf_gaurun.ios
    pure (record {
      access_key_json_data = json;
      conf_gaurun = conf_gaurun;
      log_access = access;
      log_error = error;
      gcm_client = gcm;
      apns_client = apns;
    })

  unfoldable pub set_up : Flags → Run (Globals Level Cert Key)
  set_up flags = do
    json ← or_fatal same (load_accsess_key_json m.read_file flags.access_key_path)
    conf ←
        or_fatal same
          (load_conf m.read_file m.unmarshal_conf (build_default_conf m.num_cpu) flags.conf_path)
    set_up_with json conf (overwrite flags.listen_port flags.worker_num flags.queue_num conf)

  -- `InitStat`, `StartPushWorkers` and the server
  unfoldable pub launch : Globals Level Cert Key → Run (Globals Level Cert Key)
  launch globals = do
    emit init_stat
    emit (start_push_workers globals.conf_gaurun.core.worker_num globals.conf_gaurun.core.queue_num)
    emit (go_run_server globals.conf_gaurun.core.port)
    pure globals

  -- `main`, up to the wait for SIGTERM
  unfoldable pub main : Flags → Run (Globals Level Cert Key)
  unfolding launch
  main flags =
      if flags.version_printed
      then (print (version_text m.compiler m.go_version) ∷ [], none)
      else (do globals ← set_up flags; launch globals)
