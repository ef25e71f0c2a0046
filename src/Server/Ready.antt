-- ===== src/Server/Ready.antt =====
-- What the start of cmd/gaurun/gaurun.go does before and after the clients are made, and what the
-- globals of a started server are.
use gaurun.Prelude.{
  ◌≡◌, refl, ◌⊎◌, inl, inr, arith, String, true, false, List, [], ◌∷◌, ◌++◌, Option, none, some,
  Option-cases, Bool-cases, str_eq, is_empty, show_ℕ, if◌then◌else◌,
}
use gaurun.Http.{ok, err}
use gaurun.Conf.{ConfToml, SectionAndroid, SectionIos, build_default_conf}
use gaurun.Conf.Load.{load_conf, load_accsess_key_json}
use gaurun.Log.Setup.{Writer, stdout, stderr, discard, file, init_log, writer_of}
use gaurun.Server.Start.{overwrite}
use gaurun.Server.Laws.{IsStartable}
use gaurun.Server.Apns.{ApnsClient, loaded}
use gaurun.Server.Fcm.{FcmClient, init_gcm_client}
use gaurun.Server.Run.{
  Effect, open_log, go_signal_handler, write_file, init_stat, start_push_workers, go_run_server,
}
use gaurun.Server.Main.{Flags, Machine, Globals, open_writer, apns_result}

module _ {Level B Cert Key : Type 0} (m : Machine Level B Cert Key) where
  -- The file of a log is opened unless the log goes to one of three fixed places.
  abbrev pub opens : (out : String) → List Effect
  opens out =
      if str_eq out "stdout"
      then []
      else if str_eq out "stderr"
      then []
      else if str_eq out "discard"
      then []
      else open_log out 420 ∷ []

  abbrev pub pid_writes : String → List Effect
  pid_writes pid = if is_empty pid then [] else write_file pid (show_ℕ m.getpid) ∷ []

  -- What `main` does on the outside before it makes the clients, with a configuration as it was read.
  abbrev pub prepared : Flags → ConfToml → List Effect
  prepared flags conf =
      let full = overwrite flags.listen_port flags.worker_num flags.queue_num conf in
      opens full.log.access_log
      ++ (opens full.log.error_log ++ go_signal_handler ∷ pid_writes conf.core.pid)

  -- No pid file is asked for, or it can be written.
  abbrev pub IsWritable : (pid : String) → Type 0
  IsWritable pid =
      (is_empty pid ≡ true)
      ⊎ ((is_empty pid ≡ false)
          × (m.stat_missing (m.dir pid) ≡ none)
          × (m.write pid (show_ℕ m.getpid) ≡ none))

  -- The client that `main` keeps, for an enabled platform only.
  abbrev pub HasFcm : SectionAndroid → Option FcmClient → Type 0
  HasFcm android client =
      ((android.enabled ≡ false) × (client ≡ none))
      ⊎ ((made : FcmClient) × (android.enabled ≡ true)
          × (client ≡ some made)
          × (init_gcm_client m.parse_url m.quote android ≡ ok made))

  abbrev pub HasApns : SectionIos → Option (ApnsClient Cert Key) → Type 0
  HasApns ios client =
      ((ios.enabled ≡ false) × (client ≡ none))
      ⊎ ((made : ApnsClient Cert Key) × (ios.enabled ≡ true)
          × (client ≡ some made)
          × (apns_result m ios ≡ ok (loaded made)))

  -- What the globals of a started server are.
  pub record IsReady (flags : Flags) (g : Globals Level Cert Key) : Type 0 where
    pub conf : ConfToml
    pub key_read :
        load_accsess_key_json m.read_file flags.access_key_path ≡ ok g.access_key_json_data
    pub conf_read :
        load_conf m.read_file m.unmarshal_conf (build_default_conf m.num_cpu) flags.conf_path
        ≡ ok conf
    pub overwritten :
        g.conf_gaurun ≡ overwrite flags.listen_port flags.worker_num flags.queue_num conf
    pub access_log :
        init_log m.new_file_writer m.unmarshal_level g.conf_gaurun.log.access_log "info"
        ≡ ok g.log_access
    pub error_log :
        init_log m.new_file_writer m.unmarshal_level g.conf_gaurun.log.error_log
          g.conf_gaurun.log.level
        ≡ ok g.log_error
    pub startable : IsStartable m.read_file m.auth_key_from_file g.conf_gaurun
    pub pid : IsWritable conf.core.pid
    pub fcm : HasFcm g.conf_gaurun.android g.gcm_client
    pub apns : HasApns g.conf_gaurun.ios g.apns_client

  pub writer_of-opens :
      (out : String)
      → let chosen = writer_of m.new_file_writer m.unmarshal_level out in
        (((writer : Writer) × (chosen ≡ ok writer)
            × (open_writer m (ok writer) ≡ (opens out, some tt)))
          ⊎ ((text : String) × (chosen ≡ err text)))
  unfolding writer_of open_writer
  writer_of-opens out = elim (Bool-cases (str_eq out "stdout")) [
    | inl std ↦ inl (stdout, ground (arith, std), rw std refl)
    | inr std ↦ elim (Bool-cases (str_eq out "stderr")) [
      | inl errors ↦ inl (stderr, ground (arith, std, errors), rw (std, errors) refl)
      | inr errors ↦ elim (Bool-cases (str_eq out "discard")) [
        | inl nowhere ↦
            inl (discard, ground (arith, std, errors, nowhere), rw (std, errors, nowhere) refl)
        | inr nowhere ↦ elim (Option-cases (m.new_file_writer out 420)) [
          | inr (text, failed) ↦ inr (text, ground (arith, std, errors, nowhere, failed))
          | inl there ↦ inl (
            file out 420,
            ground (arith, std, errors, nowhere, there),
            rw (std, errors, nowhere) refl,
          )
        ]
      ]
    ]
  ]

  pub init_log-err :
      (out level text : String)
      → writer_of m.new_file_writer m.unmarshal_level out ≡ err text
      → init_log m.new_file_writer m.unmarshal_level out level ≡ err text
  unfolding init_log
  init_log-err out level text failed = rw (failed, init_log) refl

  -- What `main` does on the outside when all went well.
  abbrev pub launched : Globals Level Cert Key → List Effect
  launched g =
      init_stat
      ∷ start_push_workers g.conf_gaurun.core.worker_num g.conf_gaurun.core.queue_num
      ∷ go_run_server g.conf_gaurun.core.port
      ∷ []

  -- A configuration as it is read.
  abbrev pub IsRead : Flags → ConfToml → Type 0
  IsRead flags conf =
      load_conf m.read_file m.unmarshal_conf (build_default_conf m.num_cpu) flags.conf_path
      ≡ ok conf
