-- ===== src/Pusher/Ios.antt =====
-- gaurun/apns_http2.go, and `pushNotificationIos` of gaurun/notification.go. `json.Marshal` of the
-- payload is the parameter `marshal`, `%v` of a time is `show_time`.
use gaurun.Prelude.{
  ℕ, ℤ, pos, negsuc, String, Bool, true, false, List, [], ◌∷◌, ◌++◌, Option, none, some, ◌-◌, ◌/◌,
  ◌^◌, ◌+ℤ◌, ◌*ℤ◌, to_int64, to_uint64, ltb_ℤ, str_eq, insert, if◌then◌else◌,
}
use gaurun.Http.{Result, ok, err}
use gaurun.Conf.{SectionIos}
use gaurun.Notification.{Notification, ExtendJson, push_type_background}
use gaurun.Log.{succeeded_push, failed_push, log_push}
use gaurun.Stat.{add_int64}
use gaurun.Buford.Badge
use gaurun.Buford.Payload.{Aps, Value, custom, to_map}
use gaurun.Buford.Errors.{GoError, plain, new, error_message}
use gaurun.Buford.Token.{Token}
use gaurun.Buford.Push.{Outside}
use gaurun.Buford.Push.Header.{Headers}
use gaurun.Buford.Push.Header as Header
use gaurun.Buford.Push.Service.{Pushed, sent, failed, development, production, push}
use gaurun.Pusher.{World}

-- `NewApnsServiceHttp2`, of which the host is the choice.
unfoldable pub service_host : SectionIos → String
service_host ios = if ios.sandbox then development else production

-- The loop over `req.Extend`
unfoldable pub add_extends : List ExtendJson → List (String × Value) → List (String × Value)
add_extends [] m = m
add_extends (x ∷ xs) m = add_extends xs (insert x.key (custom x.value) m)

unfoldable pub aps_of : Notification → Aps
aps_of req = record {
  alert = record {
    title = req.title;
    title_loc_key = "";
    title_loc_args = [];
    subtitle = req.subtitle;
    body = req.message;
    loc_key = "";
    loc_args = [];
    action_loc_key = "";
    launch_image = "";
  };
  badge = Badge.new (to_uint64 req.badge);
  sound = req.sound;
  content_available = req.content_available;
  category = req.category;
  mutable_content = req.mutable_content;
  thread_id = "";
}

-- `NewApnsPayloadHttp2`
unfoldable pub new_apns_payload : Notification → List (String × Value)
new_apns_payload req = add_extends req.extend (to_map (aps_of req))

-- `Unix()` of a time in nanoseconds
unfoldable pub unix_of : ℤ → ℤ
unix_of (pos n) = pos (n / 10 ^ 9)
unix_of (negsuc n) = negsuc (n / 10 ^ 9)

-- `time.Now().Add(time.Duration(int64(req.Expiry)) * time.Second)`
unfoldable pub expiration : ℤ → ℕ → ℤ
expiration expiry now = unix_of (pos now +ℤ to_int64 (expiry *ℤ pos (10 ^ 9)))

-- `NewApnsHeadersHttp2`, and `NewApnsHeadersHttp2WithToken` if `with_token`. The clock is read only
-- for a positive expiry.
module _ {E Key : Type 0} (o : Outside E Key) where
  base_headers : SectionIos → Notification → Bool → Option ℤ → Headers
  base_headers ios req with_token expires = record {
    id = "";
    collapse_id = "";
    expiration = expires;
    low_priority = false;
    topic = ios.topic;
    auth_token = with_token;
    push_type =
        if str_eq req.push_type push_type_background
        then Header.push_type_background
        else Header.push_type_alert;
  }

  unfoldable pub new_apns_headers : SectionIos → Notification → Bool → E → Headers × E
  unfolding base_headers
  new_apns_headers ios req with_token e =
      if ltb_ℤ (pos 0) req.expiry
      then (base_headers ios req with_token (some (expiration req.expiry (o.now e).0)), (o.now e).1)
      else (base_headers ios req with_token none, e)

abbrev pub is_some {ℓ} : {A : Type ℓ} → Option A → Bool
is_some none = false
is_some (some x) = true

-- `req.Tokens[0]`; an empty list is a fault.
abbrev pub first_token : List String → Option String
first_token [] = none
first_token (t ∷ ts) = some t

module _ {E Key : Type 0} (o : Outside E Key) (marshal : List (String × Value) → Result String)
    (show_time : Option ℤ → String) where
  -- `ApnsPushHttp2`
  unfoldable pub apns_push :
      (device_token host : String)
      → Headers
      → List (String × Value)
      → Option (Token Key)
      → E
      → Pushed × Option (Token Key) × E
  apns_push device_token host headers payload t e = elim (marshal payload) [
    | err text ↦ (failed (plain (new text)), t, e)
    | ok body ↦ push o host device_token (some headers) body t e
  ]

  -- The counters and the log after a push that took `ptime`.
  unfoldable pub finish_ios :
      Notification
      → (device_token : String) → (ptime : ℕ) → Pushed
      → World E Key
      → Option GoError × World E Key
  finish_ios req device_token ptime (failed x) w = (
    some x,
    record w {
      stats = record (w.stats) { ios_error = add_int64 w.stats.ios_error 1 };
      lines =
          w.lines
          ++ log_push req.id failed_push device_token ptime req (some (error_message show_time x))
            ∷ [];
    },
  )
  finish_ios req device_token ptime (sent id) w = (
    none,
    record w {
      stats = record (w.stats) { ios_success = add_int64 w.stats.ios_success 1 };
      lines = w.lines ++ log_push req.id succeeded_push device_token ptime req none ∷ [];
    },
  )

  unfoldable pub push_ios_token :
      SectionIos → Notification → String → World E Key → Option GoError × World E Key
  push_ios_token ios req device_token w =
      let (headers, e₁) = new_apns_headers o ios req (is_some w.token) w.env in
      let (start, e₂) = o.now e₁ in
      let (result, t, e₃) =
        apns_push device_token (service_host ios) headers (new_apns_payload req) w.token e₂ in
      let (end, e₄) = o.now e₃ in
      finish_ios req device_token (end - start) result (record w { token = t; env = e₄ })

  -- `pushNotificationIos`; `none` is the fault of `req.Tokens[0]`.
  unfoldable pub push_notification_ios :
      SectionIos → Notification → World E Key → Option (Option GoError × World E Key)
  push_notification_ios ios req w = elim (first_token req.tokens) [
    | none ↦ none
    | some t ↦ some (push_ios_token ios req t w)
  ]
