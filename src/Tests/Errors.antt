-- ===== src/Tests/Errors.antt =====
-- Error reasons, and messages for FCM.
use gaurun.Prelude.{pos, contains, false, refl, ◌≡◌, ◌≢◌, ◌↔◌, [], ◌∷◌, none, some}
use gaurun.Http.{ok}
use gaurun.Notification.{platform_android}
use gaurun.Buford.Errors.{plain, new, bad_message_id, sentinel, map_error_reason}
use gaurun.Buford.Errors.Laws.{apple_reason, map_error_reason_iff}
use gaurun.Gcm.Message.{Message, new_message, validate}
use gaurun.Gcm.Client.{status_error, Outside, Client, fault, send}
use gaurun.Worker.{is_external_server_error}
use gaurun.Worker.Fcm.{fcm_retry_iff}
use gaurun.Tests.Samples.{show_time}
use gaurun.Gcm.Laws.{IsSendable, validate_iff, send-ne-fault}

map_error_reason_iff_example :
    (map_error_reason "BadMessageID" ≡ sentinel bad_message_id)
    ↔ ("BadMessageID" ≡ apple_reason bad_message_id)
map_error_reason_iff_example = map_error_reason_iff "BadMessageID" bad_message_id

abbrev greeting : Message
greeting = new_message [] (some ("t" ∷ []))

validate_iff_example : (validate (some greeting) ≡ none) ↔ IsSendable greeting
validate_iff_example = validate_iff greeting

abbrev answering : Outside (Unit {0}) (Unit {0})
answering = record {
  credentials = λ _. ok tt;
  access_token = λ _ e. (ok "token", e);
  encode = λ _. ok "{}";
  check_url = λ _. none;
  parse_url = λ _. none;
  round_trip = λ _ e.
      (ok (record { status_code = 200; status = "200 OK"; headers = []; body = "{}" }), "", e);
  decode = λ _. ok (record { multicast_id = pos 0; canonical_ids = pos 0; results = [] });
}

abbrev client : Client
client = record { api_key = "key"; url = "https://fcm.googleapis.com/v1/projects/p/messages:send" }

send-ne-fault_example : (send answering client greeting "{}" tt).0 ≢ fault
send-ne-fault_example = send-ne-fault answering client greeting "{}" tt

fcm_retry_iff_example :
    is_external_server_error show_time
      (plain (new (status_error 503 "503 Service Unavailable")))
      platform_android
    ≡ contains "503 Service Unavailable" "Timeout"
fcm_retry_iff_example = fcm_retry_iff show_time 503 "503 Service Unavailable"

-- So this answer is not retried.
unavailable_dropped : contains "503 Service Unavailable" "Timeout" ≡ false
unfolding contains
unavailable_dropped = refl
