-- ===== src/Server/Startable.antt =====
-- What the start of cmd/gaurun/gaurun.go needs to succeed.
use gaurun.Prelude.{◌≡◌, ◌⊎◌, true, false}
use gaurun.Conf.{ConfToml}
use gaurun.Server.Start.{overwrite}
use gaurun.Server.Laws.{IsStartable, loads}
use gaurun.Server.Run.{Run}
use gaurun.Server.Main.{Flags, Machine}
use gaurun.Server.Ready.{IsRead, IsWritable}
use gaurun.Server.Started.{Started}
use gaurun.Server.Needs.{CanLog, CanSend, CanPush}

module _ {Level B Cert Key : Type 0} (m : Machine Level B Cert Key) where
  pub record CanStart (flags : Flags) (conf : ConfToml) : Type 0 where
    pub full : ConfToml
    pub overwritten : full ≡ overwrite flags.listen_port flags.worker_num flags.queue_num conf
    pub key_read : loads (m.read_file flags.access_key_path) ≡ true
    pub conf_read : IsRead m flags conf
    pub access_log : CanLog m full.log.access_log "info"
    pub error_log : CanLog m full.log.error_log full.log.level
    pub startable : IsStartable m.read_file m.auth_key_from_file full
    pub pid : IsWritable m conf.core.pid
    pub android : CanSend m full.android
    pub ios : (full.ios.enabled ≡ false) ⊎ CanPush m full.ios
