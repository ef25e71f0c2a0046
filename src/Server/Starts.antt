-- ===== src/Server/Starts.antt =====
-- When the start of cmd/gaurun/gaurun.go succeeds.
use mathlib.Core.List.{append-nil}
use gaurun.Prelude.{◌≡◌, refl, sym, inl, inr, arith, String, false, [], ◌++◌, Option, some}
use gaurun.Http.{ok, err}
use gaurun.Conf.{SectionAndroid, SectionIos}
use gaurun.Log.Setup.{Logging, init_log}
use gaurun.Server.Laws.{check_start_iff}
use gaurun.Server.Apns.{ApnsClient}
use gaurun.Server.Fcm.{FcmClient}
use gaurun.Server.Main.{
  Flags, Machine, Globals, log_of, create_pid, gcm_of, apns_of, set_up_with, set_up, launch, main,
}
use gaurun.Server.Ready.{
  HasFcm, HasApns, IsReady, IsWritable, opens, pid_writes, prepared, launched, writer_of-opens,
  init_log-err,
}

module _ {Level B Cert Key : Type 0} (m : Machine Level B Cert Key) where
  gcm_of-eq :
      (android : SectionAndroid) (client : Option FcmClient)
      → HasFcm m android client
      → gcm_of m android ≡ ([], some client)
  unfolding gcm_of
  gcm_of-eq android client (inl (off, e)) = simp (off, e) refl
  gcm_of-eq android client (inr (made, on, e, initialized)) = simp (on, e, initialized) refl

  apns_of-eq :
      (ios : SectionIos) (client : Option (ApnsClient Cert Key))
      → HasApns m ios client
      → apns_of m ios ≡ ([], some client)
  unfolding apns_of
  apns_of-eq ios client (inl (off, e)) = simp (off, e) refl
  apns_of-eq ios client (inr (made, on, e, initialized)) = simp (on, e, initialized) refl

  log_of-eq :
      (out level : String) (a : Logging Level)
      → init_log m.new_file_writer m.unmarshal_level out level ≡ ok a
      → log_of m out level ≡ (opens m out, some a)
  unfolding log_of
  log_of-eq out level a made = elim (writer_of-opens m out) [
    | inl (writer, chosen, opening) ↦ simp (chosen, opening, made, append-nil) refl
    | inr (text, failed) ↦
        let lost : init_log m.new_file_writer m.unmarshal_level out level ≡ err text =
          init_log-err m out level text failed in
        absurd (ground (arith, lost, made))
  ]

  create_pid-eq : (pid : String) → IsWritable m pid → create_pid m pid ≡ (pid_writes m pid, some tt)
  unfolding create_pid
  create_pid-eq pid (inl empty) = simp (empty) refl
  create_pid-eq pid (inr (given, there, written)) = simp (given, there, written) refl

  set_up-eq :
      (flags : Flags) (g : Globals Level Cert Key) (ready : IsReady m flags g)
      → set_up m flags ≡ (prepared m flags ready.conf, some g)
  unfolding set_up set_up_with
  set_up-eq flags g ready =
      simp
        (
          ready.key_read,
          ready.conf_read,
          sym ready.overwritten,
          log_of-eq g.conf_gaurun.log.access_log "info" g.log_access ready.access_log,
          log_of-eq g.conf_gaurun.log.error_log g.conf_gaurun.log.level g.log_error ready.error_log,
          (check_start_iff m.read_file m.auth_key_from_file g.conf_gaurun).1 ready.startable,
          create_pid-eq ready.conf.core.pid ready.pid,
          gcm_of-eq g.conf_gaurun.android g.gcm_client ready.fcm,
          apns_of-eq g.conf_gaurun.ios g.apns_client ready.apns,
          append-nil,
        )
        refl

  pub main-eq-launched :
      (flags : Flags) (g : Globals Level Cert Key) (ready : IsReady m flags g)
      → flags.version_printed ≡ false
      → main m flags ≡ (prepared m flags ready.conf ++ launched m g, some g)
  unfolding main launch
  main-eq-launched flags g ready run = simp (run, set_up-eq flags g ready) refl
