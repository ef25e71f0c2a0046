-- ===== src/Server/Start.antt =====
-- cmd/gaurun/gaurun.go: the flags, and the checks before the server starts. `LogSetupFatal` ends the
-- program: its text is the result.
use gaurun.Prelude.{
  ℤ, pos, String, ◌++ˢ◌, not, ◌&&◌, Option, none, some, is_empty, ltb_ℤ, if◌then◌else◌,
}
use gaurun.Http.{Result, ok, err}
use gaurun.Conf.{
  ConfToml, SectionIos, SectionAndroid, is_certificate_based_provider, is_token_based_provider,
}

-- A flag that is given replaces the configured value.
unfoldable pub overwrite : (listen_port : String) → (worker_num queue_num : ℤ) → ConfToml → ConfToml
overwrite listen_port worker_num queue_num conf = record conf {
  core = record (conf.core) {
    port = if not (is_empty listen_port) then listen_port else conf.core.port;
    worker_num = if ltb_ℤ (pos 0) worker_num then worker_num else conf.core.worker_num;
    queue_num = if ltb_ℤ (pos 0) queue_num then queue_num else conf.core.queue_num;
  };
}

abbrev pub unless {ℓ} : {A : Type ℓ} → Result A → String → Option String → Option String
unless (err e) fatal next = some fatal
unless (ok a) fatal next = next

-- The files are read for this check only: `read_file`, `auth_key_from_file`.
module _ {Key : Type 0} (read_file : String → Result String)
    (auth_key_from_file : String → Result Key) where
  unfoldable pub check_certificate : SectionIos → Option String
  check_certificate ios =
      unless (read_file ios.pem_cert_path) "the certification file for iOS was not found"
        (unless (read_file ios.pem_key_path) "the key file for iOS was not found" none)

  unfoldable pub check_token : SectionIos → Option String
  check_token ios = elim (auth_key_from_file ios.token_auth_key_path) [
    | err e ↦ some ("the auth key file for iOS was not loading: " ++ˢ e)
    | ok key ↦ none
  ]

  unfoldable pub check_ios : SectionIos → Option String
  check_ios ios =
      let certificate = is_certificate_based_provider ios in
      let token = is_token_based_provider ios in
      if certificate && token
      then some
          "you can use only one of certificate-based provider or token-based provider connection trust"
      else if certificate
      then check_certificate ios
      else if token
      then check_token ios
      else some "the key file or APNsAuthKey file for iOS was not found"

  unfoldable pub check_android : SectionAndroid → Option String
  check_android android =
      if is_empty android.api_key then some "the APIKey for Android cannot be empty" else none

  -- From "no platform has been enabled" on; `none` if the start goes on.
  unfoldable pub check_start : ConfToml → Option String
  check_start conf =
      if not conf.ios.enabled && not conf.android.enabled
      then some "no platform has been enabled"
      else elim (if conf.ios.enabled then check_ios conf.ios else none) [
        | some fatal ↦ some fatal
        | none ↦ if conf.android.enabled then check_android conf.android else none
      ]
