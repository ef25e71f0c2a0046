-- ===== src/Tests/Recovery.antt =====
-- A log with a lost push, its scan, and the second push.
use gaurun.Prelude.{
  ℕ, pos, ◌≡◌, ◌↔◌, ◌⊎◌, refl, inl, some, String, str_eq, false, if◌then◌else◌, List, [], ◌∷◌, none,
  lookup_id, insert_id,
}
use gaurun.Http.{Result, ok, err}
use gaurun.Notification.{Notification}
use gaurun.Log.{Line, accepted_push, succeeded_push, log_push}
use gaurun.Gcm.Client.{Outside}
use gaurun.Recover.{Entry, scan, losts, losts_from, scan_from, take_line, take_entry, request_of}
use gaurun.Recover.Entries.{decode}
use gaurun.Recover.Roundtrip.{request_of-log_push}
use gaurun.Recover.Laws.{read, last_of, unless_succeeded, losts-eq-unless}
use gaurun.Recover.Main.{Flags, Plan, gcm_client, main}
use gaurun.Recover.Lost.{Logged, request, push, line_of, Never, text_of_log, Reads, main-losts_iff}
use gaurun.Conf.{build_default_conf, is_certificate_based_provider, is_token_based_provider}
use gaurun.Conf.Load.{load_conf, load_accsess_key_json}
use gaurun.Log.Setup.{log_accepted_request}
use gaurun.Gcm.Client.{new_client, make_fcm_send_endpoint}
use gaurun.Server.{init_apns_client}
use gaurun.Server.Apns.{
  ApnsClient, loaded, new_apns_client, load_x509_key_pair_with_password, key_block, pair_with,
  client_with,
}
use gaurun.Server.Fcm.{FcmClient}
use gaurun.Server.Main.{apns_result}
use gaurun.Tests.Starting.{machine, good}
use gaurun.Recover.Push.{pushed, push_lost}
use gaurun.Recover.Push.Laws.{push_lost-android_fails}
use gaurun.Tests.Samples.{conf, notification, unavailable, marshal, show_time}

abbrev entry : (kind platform : String) (id : ℕ) → Entry
entry kind platform id = record {
  kind = kind;
  id = id;
  platform = platform;
  token = "a";
  message = "hello";
  collapse_key = "";
  delay_while_idle = false;
  time_to_live = pos 0;
  title = "";
  subtitle = "";
  badge = pos 0;
  category = "";
  sound = "";
  content_available = false;
  mutable_content = false;
  expiry = pos 0;
}

-- The lines of the log by their names: two acceptances and one success.
abbrev unmarshal : String → Result Entry
unmarshal line =
    if str_eq line "accepted 1"
    then ok (entry "accepted-push" "ios" 1)
    else if str_eq line "accepted 2"
    then ok (entry "accepted-push" "android" 2)
    else if str_eq line "succeeded 1"
    then ok (entry "succeeded-push" "ios" 1)
    else err "no JSON"

abbrev log : List String
log = "accepted 1" ∷ "start server" ∷ "accepted 2" ∷ "succeeded 1" ∷ []

lost_tests : losts (scan unmarshal log) ≡ (2, entry "accepted-push" "android" 2) ∷ []
unfolding losts scan losts_from scan_from take_line take_entry insert_id lookup_id
lost_tests = refl

losts-eq-unless_example :
    lookup_id 2 (losts (scan unmarshal log))
    ≡ unless_succeeded
        (last_of "succeeded-push" 2 none (read unmarshal log))
        (last_of "accepted-push" 2 none (read unmarshal log))
        none
losts-eq-unless_example = losts-eq-unless unmarshal log 2

abbrev accepted : Notification
accepted = notification (pos 1) ("a" ∷ "b" ∷ [])

request_of-log_push_example :
    request_of (decode (log_push 7 accepted_push "b" 0 accepted none)) ≡ record accepted {
      tokens = "b" ∷ [];
      identifier = "";
      priority = "";
      click_action = "";
      tag = "";
      push_type = "";
      mutable_content = false;
      retry = pos 0;
      extend = [];
      id = 0;
    }
request_of-log_push_example = request_of-log_push 7 accepted_push "b" 0 accepted none (inl refl)

-- A key file that is empty makes no credentials.
abbrev pub fcm : Outside ℕ (Unit {0})
fcm = record {
  credentials = λ json. if str_eq json "" then err "unexpected end of JSON input" else ok tt;
  access_token = λ _ e. (ok "access", e);
  encode = λ _. ok "{}";
  check_url = λ _. none;
  parse_url = λ _. none;
  round_trip = λ _ e. (err "connection refused", "", ℕ.suc e);
  decode = λ _. err "no response";
}

push_lost-android_fails_example :
    push_lost unavailable fcm marshal show_time conf.ios (entry "accepted-push" "android" 2) none 0
    ≡ (pushed false, none, 0)
push_lost-android_fails_example =
    push_lost-android_fails unavailable fcm marshal show_time conf.ios
      "unexpected end of JSON input" refl (entry "accepted-push" "android" 2) none 0 refl

-- A log of the server: a request, the acceptances of 1 and 2, the success of 1.
abbrev server_log : List Logged
server_log =
    request "/push" "POST" "HTTP/1.1" (pos 64)
    ∷ push 1 accepted_push "a" 0 (record accepted { message = "first" }) none
    ∷ push 2 accepted_push "b" 0 (record accepted { message = "second" }) none
    ∷ push 1 succeeded_push "a" 3000000 (record accepted { message = "done" }) none
    ∷ []

-- These lines differ by their messages.
abbrev encode : Line → String
encode line = line.message

abbrev decode_line : String → Result Entry
decode_line text =
    if str_eq text ""
    then ok (decode (line_of (request "/push" "POST" "HTTP/1.1" (pos 64))))
    else if str_eq text "first"
    then ok
        (decode (line_of (push 1 accepted_push "a" 0 (record accepted { message = "first" }) none)))
    else if str_eq text "second"
    then ok (
        decode (line_of (push 2 accepted_push "b" 0 (record accepted { message = "second" }) none)))
    else ok (
        decode
          (line_of (push 1 succeeded_push "a" 3000000 (record accepted { message = "done" }) none)))

server_log-Reads : Reads encode decode_line server_log
unfolding line_of log_accepted_request log_push
server_log-Reads = (refl, (refl, (refl, (refl, tt))))

abbrev open_log : String → Result (List String)
open_log path = ok (text_of_log encode decode_line server_log)

abbrev recover_flags : Flags
recover_flags = record {
  version_printed = false;
  conf_path = "gaurun.toml";
  log_path = "gaurun.log";
  access_key_path = "key.json";
}

made : (c : ApnsClient String String) × (apns_result machine good.ios ≡ ok (loaded c))
unfolding apns_result init_apns_client new_apns_client load_x509_key_pair_with_password key_block
    pair_with client_with is_certificate_based_provider is_token_based_provider build_default_conf
made = (_, refl)

made_fcm : (c : FcmClient) × (gcm_client machine decode_line open_log good.android ≡ ok c)
unfolding gcm_client new_client make_fcm_send_endpoint build_default_conf
made_fcm = (_, refl)

key_file : load_accsess_key_json machine.read_file recover_flags.access_key_path ≡ ok "key.json"
unfolding load_accsess_key_json
key_file = refl

conf_file :
    load_conf machine.read_file machine.unmarshal_conf
      (build_default_conf machine.num_cpu)
      recover_flags.conf_path
    ≡ ok good
unfolding load_conf
conf_file = refl

main-losts_iff_example :
    (plan : Plan String String) × (main machine decode_line open_log recover_flags
      ≡ ([], some plan))
    × ((id : ℕ)
        → (lookup_id id plan.losts ≡ none)
          ↔ (Never accepted_push id server_log ⊎ ¬ (Never succeeded_push id server_log)))
main-losts_iff_example =
    main-losts_iff encode decode_line machine open_log recover_flags "key.json" good made.0
      made_fcm.0 server_log server_log-Reads refl key_file conf_file refl made.1 made_fcm.1
