-- ===== src/Server/Laws.antt =====
-- About the start of the server: gaurun/client.go, cmd/gaurun/gaurun.go.
use gaurun.Prelude.{
  ℤ, pos, negsuc, ◌≡◌, ◌≢◌, ◌↔◌, ◌⊎◌, inl, inr, refl, arith, ◌≤ℤ◌, String, Bool, true, false,
  Option, none, is_empty_iff, Bool-cases,
}
use gaurun.Http.{Result, ok, err, Result-cases}
use gaurun.Conf.{ConfToml, SectionIos, is_certificate_based_provider, is_token_based_provider}
use gaurun.Server.{keep_alive_interval, third, init_apns_client, with_key}
use gaurun.Server.Start.{
  check_start, check_ios, check_android, unless, check_certificate, check_token,
}

-- The interval between keep-alive probes grows with the timeout and stays within it; it is at most
-- 90 seconds, and at least 30 unless the timeout is shorter.
pub keep_alive_interval-bounds :
    (a b : ℤ)
    → a ≤ℤ b
    → (keep_alive_interval a ≤ℤ keep_alive_interval b)
      × (keep_alive_interval a ≤ℤ a)
      × (keep_alive_interval a ≤ℤ pos 90)
      × ((a ≤ℤ pos 30) ⊎ (pos 30 ≤ℤ keep_alive_interval a))
unfolding keep_alive_interval third
keep_alive_interval-bounds (pos a) (pos b) h = ground (arith, h)
keep_alive_interval-bounds (negsuc a) (pos b) h = ground (arith, h)
keep_alive_interval-bounds (pos a) (negsuc b) h = ground (arith, h)
keep_alive_interval-bounds (negsuc a) (negsuc b) h = ground (arith, h)

-- A call of the environment that succeeds.
abbrev pub loads : {A : Type 0} → Result A → Bool
loads (ok a) = true
loads (err e) = false

unless-none_iff :
    {A : Type 0} (r : Result A) (fatal : String) (next : Option String)
    → (unless r fatal next ≡ none) ↔ ((loads r ≡ true) × (next ≡ none))
unless-none_iff (ok a) fatal next = ground arith
unless-none_iff (err e) fatal next = ground arith

module _ {Key : Type 0} (read_file : String → Result String)
    (auth_key_from_file : String → Result Key) where
  -- Exactly one provider, and what it needs.
  abbrev pub IsProvided : SectionIos → Type 0
  IsProvided ios =
      ((is_certificate_based_provider ios ≡ true)
        × (is_token_based_provider ios ≡ false)
        × (loads (read_file ios.pem_cert_path) ≡ true)
        × (loads (read_file ios.pem_key_path) ≡ true))
      ⊎ ((is_certificate_based_provider ios ≡ false)
          × (is_token_based_provider ios ≡ true)
          × (loads (auth_key_from_file ios.token_auth_key_path) ≡ true))

  -- What the configuration must say for the server to start.
  abbrev pub IsStartable : ConfToml → Type 0
  IsStartable conf =
      ((conf.ios.enabled ≡ true) ⊎ (conf.android.enabled ≡ true))
      × ((conf.ios.enabled ≡ false) ⊎ IsProvided conf.ios)
      × ((conf.android.enabled ≡ false) ⊎ (conf.android.api_key ≢ ""))

  check_certificate_iff :
      (ios : SectionIos)
      → (check_certificate read_file auth_key_from_file ios ≡ none) ↔ (
          (loads (read_file ios.pem_cert_path) ≡ true)
          × (loads (read_file ios.pem_key_path) ≡ true))
  unfolding check_certificate
  check_certificate_iff ios = ground (
    arith,
    unless-none_iff (read_file ios.pem_cert_path) "the certification file for iOS was not found"
        (unless (read_file ios.pem_key_path) "the key file for iOS was not found" none),
    unless-none_iff (read_file ios.pem_key_path) "the key file for iOS was not found" none,
  )

  check_token_iff :
      (ios : SectionIos)
      → (check_token read_file auth_key_from_file ios ≡ none)
        ↔ (loads (auth_key_from_file ios.token_auth_key_path) ≡ true)
  unfolding check_token
  check_token_iff ios = ground arith

  check_ios_iff :
      (ios : SectionIos) → (check_ios read_file auth_key_from_file ios ≡ none) ↔ IsProvided ios
  unfolding check_ios
  check_ios_iff ios = ground (arith, check_certificate_iff ios, check_token_iff ios)

  -- The checks let the server start exactly if a platform is enabled, the enabled platform iOS has
  -- one provider, of certificates or of a token and not both, whose files can be read, and the
  -- enabled platform Android has an API key.
  pub check_start_iff :
      (conf : ConfToml) → (check_start read_file auth_key_from_file conf ≡ none) ↔ IsStartable conf
  unfolding check_start check_android
  check_start_iff conf = ground (arith, check_ios_iff conf.ios, is_empty_iff conf.android.api_key)

  -- A server whose checks have passed gets its client for Apple's service from the one provider that
  -- the configuration names: a client of certificates if the provider is based on certificates, and
  -- otherwise the provider is based on a token and the client has the file's key (read the same
  -- again).
  pub init_apns_client-after_check :
      {Client : Type 0} (new_client : (cert_path key_path passphrase : String) → Result Client)
      (new_client_for_token : Key → (key_id team_id : String) → Result Client) (conf : ConfToml)
      → check_start read_file auth_key_from_file conf ≡ none
      → conf.ios.enabled ≡ true
      → let client = init_apns_client new_client auth_key_from_file new_client_for_token conf.ios in
        (((is_certificate_based_provider conf.ios ≡ true)
            × (client
                ≡ new_client conf.ios.pem_cert_path conf.ios.pem_key_path
                    conf.ios.pem_key_passphrase))
          ⊎ ((key : Key) × (is_certificate_based_provider conf.ios ≡ false)
              × (is_token_based_provider conf.ios ≡ true)
              × (auth_key_from_file conf.ios.token_auth_key_path ≡ ok key)
              × (client
                  ≡ new_client_for_token key conf.ios.token_auth_key_id
                      conf.ios.token_auth_team_id)))
  unfolding init_apns_client with_key
  init_apns_client-after_check new_client new_client_for_token conf passed enabled =
      elim (Bool-cases (is_certificate_based_provider conf.ios)) [
        | inl cert ↦ inl (cert, rw cert refl)
        | inr no_cert ↦ elim (Result-cases (auth_key_from_file conf.ios.token_auth_key_path)) [
          | inl (key, read) ↦
              let token : is_token_based_provider conf.ios ≡ true =
                ground (arith, passed, enabled, no_cert, check_start_iff conf) in
              inr (key, no_cert, token, read, rw (no_cert, token, read, with_key) refl)
          | inr (text, unread) ↦
              absurd (ground (arith, passed, enabled, no_cert, unread, check_start_iff conf))
        ]
      ]
