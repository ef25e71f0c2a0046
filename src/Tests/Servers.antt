-- ===== src/Tests/Servers.antt =====
-- Requests for Apple's service and the start of the server.
use Prim.Native.String.{len}
use gaurun.Prelude.{
  ℕ, List, replicate, replicate, length, All, ◌%◌, to_uint64, ◌∷◌, pos, ◌≡◌, ◌≤◌, ◌↔◌, ◌⊎◌, ◌≤ℤ◌,
  ◌&&◌, ◌++ˢ◌, refl, arith, String, str_eq, true, false, if◌then◌else◌, [], none, some, lookup,
}
use gaurun.Http.{Result, ok, err}
use gaurun.Conf.{
  ConfToml, build_default_conf, is_certificate_based_provider, is_token_based_provider,
}
use gaurun.Buford.Push.{Reply}
use gaurun.Buford.Token.{Token, generate_bearer_if_expired}
use gaurun.Buford.Push.Header.{Headers, set}
use gaurun.Buford.Push.Service.{
  sent, max_payload, device_url, header_value, prepare, push, production,
}
use gaurun.Buford.Push.Laws.{described, set-eq-described, push-sent_iff}
use gaurun.Notification.{Notification}
use gaurun.Buford.Payload.{number, aps_fields}
use gaurun.Buford.Push.DeviceToken.{is_hex_digit, is_device_token_valid}
use gaurun.Buford.Push.Tokens.{is_device_token_valid_iff}
use gaurun.Pusher.Ios.{aps_of}
use gaurun.Pusher.Payload.{text_or_none, flag_or_none, alert_or_none, aps_fields-aps_of}
use gaurun.Server.{keep_alive_interval, init_apns_client}
use gaurun.Server.Start.{check_start, check_ios, check_certificate, check_android}
use gaurun.Server.Laws.{keep_alive_interval-bounds, init_apns_client-after_check}
use gaurun.Tests.Samples.{notification, conf, unavailable}

abbrev headers : Headers
headers = record {
  id = "";
  collapse_id = "news";
  expiration = some (pos 60);
  low_priority = true;
  topic = "com.example";
  auth_token = true;
  push_type = "alert";
}

abbrev token : Token (Unit {0})
token = record { auth_key = some tt; key_id = "k"; team_id = "t"; issued_at = 0; bearer = "b" }

set-eq-described_example :
    lookup "apns-topic" (set unavailable (some headers) (some token) 0 []).0 ≡ (
      if str_eq "apns-topic" "authorization" && true
      then some
          ("bearer " ++ˢ (generate_bearer_if_expired unavailable.now unavailable.sign token 0).0)
      else described headers "apns-topic" none)
unfolding lookup
set-eq-described_example = set-eq-described unavailable headers token 0 [] "apns-topic"

push-sent_iff_example :
    let (request, t', e') = prepare unavailable production "a" (some headers) "{}" (some token) 0 in
    (((push unavailable production "a" (some headers) "{}" (some token) 0).0 ≡ sent "id") ↔ (
      (len "{}" ≤ max_payload)
      × (unavailable.check_url (device_url unavailable production "a") ≡ none)
      × ((reply : Reply) × ((unavailable.round_trip request e').0 ≡ ok reply)
          × (reply.status_code ≡ 200)
          × (header_value "apns-id" reply.headers ≡ "id"))))
push-sent_iff_example =
    push-sent_iff unavailable production "a" (some headers) "{}" (some token) 0 "id"

keep_alive_tests :
    (keep_alive_interval (pos 10) ≡ pos 10)
    × (keep_alive_interval (pos 60) ≡ pos 30)
    × (keep_alive_interval (pos 300) ≡ pos 90)
unfolding keep_alive_interval
keep_alive_tests = (refl, refl, refl)

keep_alive_interval-bounds_example :
    (keep_alive_interval (pos 60) ≤ℤ keep_alive_interval (pos 150))
    × (keep_alive_interval (pos 60) ≤ℤ pos 60)
    × (keep_alive_interval (pos 60) ≤ℤ pos 90)
    × ((pos 60 ≤ℤ pos 30) ⊎ (pos 30 ≤ℤ keep_alive_interval (pos 60)))
keep_alive_interval-bounds_example = keep_alive_interval-bounds (pos 60) (pos 150) (omega arith)

-- A provider of certificates, and the key for Android.
abbrev good : ConfToml
good = record conf {
  ios = record (conf.ios) { pem_cert_path = "cert.pem"; pem_key_path = "key.pem" };
  android = record (conf.android) { api_key = "secret" };
}

abbrev read_file : String → Result String
read_file name = ok "PEM"

abbrev no_key : String → Result String
no_key name = err "no such file"

good_passes : check_start read_file no_key good ≡ none
unfolding check_start check_ios check_certificate check_android build_default_conf
    is_certificate_based_provider is_token_based_provider
good_passes = refl

init_apns_client-after_check_example :
    let client =
      init_apns_client
        (λ cert key phrase. ok (cert ++ˢ key))
        no_key
        (λ key id team. err "no token")
        good.ios in
    (((is_certificate_based_provider good.ios ≡ true) × (client ≡ ok ("cert.pem" ++ˢ "key.pem")))
      ⊎ ((key : String) × (is_certificate_based_provider good.ios ≡ false)
          × (is_token_based_provider good.ios ≡ true)
          × (no_key good.ios.token_auth_key_path ≡ ok key)
          × (client ≡ err "no token")))
unfolding build_default_conf
init_apns_client-after_check_example =
    init_apns_client-after_check read_file no_key (λ cert key phrase. ok (cert ++ˢ key))
      (λ key id team. err "no token") good good_passes refl

abbrev titled : Notification
titled = record (notification (pos 1) ("a" ∷ [])) { title = "News"; sound = "default" }

abbrev long_token : List ℕ
long_token = replicate 64 b'a'

is_device_token_valid_iff_example : (is_device_token_valid long_token ≡ true) ↔ (
    (64 ≤ length long_token)
    × (length long_token ≤ 200)
    × (length long_token % 2 ≡ 0)
    × All (λ c. is_hex_digit c ≡ true) long_token)
is_device_token_valid_iff_example = is_device_token_valid_iff long_token

aps_fields-aps_of_example :
    let m = aps_fields (aps_of titled) in
    ((lookup "alert" m ≡ alert_or_none titled)
      × (lookup "badge" m ≡ some (number (to_uint64 titled.badge)))
      × (lookup "sound" m ≡ text_or_none titled.sound)
      × (lookup "category" m ≡ text_or_none titled.category)
      × (lookup "content-available" m ≡ flag_or_none titled.content_available)
      × (lookup "mutable-content" m ≡ flag_or_none titled.mutable_content)
      × (lookup "thread-id" m ≡ none))
aps_fields-aps_of_example = aps_fields-aps_of titled
