-- ===== src/Server.antt =====
-- gaurun/client.go and gaurun/server.go, and the start of cmd/gaurun/gaurun.go.
pub mod Start
pub mod Listener
pub mod Apns
pub mod Fcm
pub mod Routes
pub mod Served
pub mod Keys
pub mod Run
pub mod Signals
pub mod Main
pub mod Ending
pub mod Ready
pub mod Started
pub mod Starts
pub mod Needs
pub mod Startable
pub mod Laws
use gaurun.Prelude.{ℕ, ℤ, pos, negsuc, ◌/◌, String, ltb, leb, if◌then◌else◌}
use gaurun.Http.{Result, ok, err}
use gaurun.Conf.{SectionIos, is_certificate_based_provider, is_token_based_provider}

-- `keepAliveInterval`, in seconds. The quotient is of a positive number.
third : ℕ → ℕ
third n = if ltb (n / 3) 30 then 30 else if ltb 90 (n / 3) then 90 else n / 3

unfoldable pub keep_alive_interval : ℤ → ℤ
unfolding third
keep_alive_interval (pos n) = if leb n 30 then pos n else pos (third n)
keep_alive_interval (negsuc n) = negsuc n

-- `InitAPNSClient`, with the constructors of the two kinds of client and the reader of the key file
-- as parameters.
module _ {Client Key : Type 0}
    (new_client : (cert_path key_path passphrase : String) → Result Client)
    (auth_key_from_file : String → Result Key)
    (new_client_for_token : Key → (key_id team_id : String) → Result Client) where
  with_key : SectionIos → Result Key → Result Client
  with_key ios (err text) = err text
  with_key ios (ok key) = new_client_for_token key ios.token_auth_key_id ios.token_auth_team_id

  unfoldable pub init_apns_client : SectionIos → Result Client
  unfolding with_key
  init_apns_client ios =
      if is_certificate_based_provider ios
      then new_client ios.pem_cert_path ios.pem_key_path ios.pem_key_passphrase
      else if is_token_based_provider ios
      then with_key ios (auth_key_from_file ios.token_auth_key_path)
      else err "should be specify Token-based provider or Certificate-based provider"
