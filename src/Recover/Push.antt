-- ===== src/Recover/Push.antt =====
-- cmd/gaurun_recover/gaurun_recover.go: one push of a lost notification. `main` declares a second
-- `GCMClient`, so that the one used here stays nil, and nothing sets the `AccessKeyJsonData` used
-- here, which is empty.
pub mod Laws
use gaurun.Prelude.{
  ℤ, String, Bool, true, false, List, [], ◌∷◌, Option, none, some, str_eq, ◌++ˢ◌, if◌then◌else◌,
}
use gaurun.Http.{Result, ok, err}
use gaurun.Conf.{SectionIos}
use gaurun.Notification.{Notification}
use gaurun.Buford.Payload.{Value}
use gaurun.Buford.Push as Buford
use gaurun.Buford.Push.Service.{sent, failed}
use gaurun.Buford.Token.{Token}
use gaurun.Pusher.Ios.{service_host, new_apns_headers, new_apns_payload, apns_push}
use gaurun.Gcm.Client as Gcm
use gaurun.Gcm.Message.{Message, new_message, validate}
use gaurun.Recover.{Entry, request_of}

-- The result of a push, or a fault at the nil client.
pub data Tried : Type 0 where
  pushed : Bool → Tried
  fault : Tried

module _ {E Key : Type 0} (o : Buford.Outside E Key)
    (marshal : List (String × Value) → Result String) (show_time : Option ℤ → String)
    (ios : SectionIos) where
  -- The loop over the tokens of `pushNotificationIos`
  unfoldable pub push_tokens :
      Notification → List String → Option (Token Key) → E → Tried × Option (Token Key) × E
  push_tokens req [] t e = (pushed true, t, e)
  push_tokens req (token ∷ tokens) t e =
      let (headers, e₁) = new_apns_headers o ios req false e in
      let (result, t', e₂) =
        apns_push o marshal show_time token (service_host ios) headers (new_apns_payload req) t
          e₁ in
      elim result [ failed x ↦ (pushed false, t', e₂) | sent id ↦ push_tokens req tokens t' e₂ ]

module _ {E C : Type 0} (o : Gcm.Outside E C) where
  unfoldable pub message_of : Notification → Message
  message_of req = record (new_message (("message", req.message) ∷ []) (some req.tokens)) {
    collapse_key = req.collapse_key;
    delay_while_idle = req.delay_while_idle;
    time_to_live = req.time_to_live;
    priority = req.priority;
  }

  encode_first : Message → List String → E → Tried × E
  encode_first m [] e = (fault, e)
  encode_first m (token ∷ tokens) e = elim (o.encode (Gcm.for_token m token)) [
    | err text ↦ (pushed false, e)
    | ok json ↦ (fault, e)
  ]

  send_nil : Message → List String → Result String × E → Tried × E
  unfolding encode_first
  send_nil m tokens (err text, e) = (pushed false, e)
  send_nil m tokens (ok access_token, e) = encode_first m tokens e

  -- `pushNotificationAndroid`, with `Send` at a nil client, whose URL is first read for a request.
  unfoldable pub push_android : Notification → E → Tried × E
  unfolding send_nil
  push_android req e = elim (validate (some (message_of req))) [
    | some text ↦ (pushed false, e)
    | none ↦ send_nil (message_of req) req.tokens (Gcm.get_access_token o "" e)
  ]

-- What `pushNotification` prints.
unfoldable pub report : Tried → Entry → Option String
report fault entry = none
report (pushed done) entry =
    let about = (entry.token ++ˢ " ") ++ˢ (entry.platform ++ˢ (" " ++ˢ entry.message)) in
    some (
      (if done then "succeeded push notification: " else "failed to push notification: ") ++ˢ about)

module _ {E C Key : Type 0} (apns : Buford.Outside E Key) (fcm : Gcm.Outside E C)
    (marshal : List (String × Value) → Result String) (show_time : Option ℤ → String)
    (ios : SectionIos) where
  -- `pushNotification` of a lost entry
  unfoldable pub push_lost : Entry → Option (Token Key) → E → Tried × Option (Token Key) × E
  push_lost entry t e =
      let req = request_of entry in
      let (tried, e') = push_android fcm req e in
      if str_eq entry.platform "ios"
      then push_tokens apns marshal show_time ios req req.tokens t e
      else if str_eq entry.platform "android"
      then (tried, t, e')
      else (pushed false, t, e)
