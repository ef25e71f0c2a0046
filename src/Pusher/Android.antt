-- ===== src/Pusher/Android.antt =====
-- gaurun/notification.go: `pushNotificationAndroid`.
use gaurun.Prelude.{ℕ, String, List, [], ◌∷◌, ◌++◌, Option, none, some, ◌-◌, insert, length}
use gaurun.Notification.{Notification, ExtendJson}
use gaurun.Log.{succeeded_push, failed_push, log_push}
use gaurun.Stat.{add_int64}
use gaurun.Buford.Errors.{GoError, plain, new}
use gaurun.Gcm.Message.{Message, new_message}
use gaurun.Gcm.Client.{Outside, Client, Sent, response, failed, fault, send}
use gaurun.Pusher.{World}
use gaurun.Pusher.Ios.{first_token}

unfoldable pub extend_data : List ExtendJson → List (String × String) → List (String × String)
extend_data [] m = m
extend_data (x ∷ xs) m = extend_data xs (insert x.key x.value m)

-- The message that is built from the notification.
unfoldable pub message_of : Notification → String → Message
unfolding new_message
message_of req token = record (new_message (extend_data req.extend []) (some (token ∷ []))) {
  notification = record {
    title = req.title;
    body = req.message;
    click_action = req.click_action;
    tag = req.tag;
  };
  collapse_key = req.collapse_key;
  delay_while_idle = req.delay_while_idle;
  time_to_live = req.time_to_live;
  priority = req.priority;
}

module _ {E C Key : Type 0} (o : Outside E C) (now : E → ℕ × E) (client : Client)
    (access_key_json : String) where
  -- The counters and the log after a push; `none` is a fault in `Send`.
  unfoldable pub finish_android :
      Notification
      → (token : String) → (ptime : ℕ) → Sent
      → World E Key
      → Option (Option GoError × World E Key)
  finish_android req token ptime (failed text) w = some (
    some (plain (new text)),
    record w {
      stats = record (w.stats) { android_error = add_int64 w.stats.android_error 1 };
      lines = w.lines ++ log_push req.id failed_push token ptime req (some text) ∷ [];
    },
  )
  finish_android req token ptime (response r) w = some (
    none,
    record w {
      lines = w.lines ++ log_push req.id succeeded_push token ptime req none ∷ [];
      stats = record (w.stats) {
        android_success = add_int64 w.stats.android_success (length req.tokens);
      };
    },
  )
  finish_android req token ptime fault w = none

  unfoldable pub push_android_token :
      Notification → String → World E Key → Option (Option GoError × World E Key)
  push_android_token req token w =
      let (start, e₁) = now w.env in
      let (result, e₂) = send o client (message_of req token) access_key_json e₁ in
      let (end, e₃) = now e₂ in
      finish_android req token (end - start) result (record w { env = e₃ })

  -- `pushNotificationAndroid`; `none` is the fault of `req.Tokens[0]`.
  unfoldable pub push_notification_android :
      Notification → World E Key → Option (Option GoError × World E Key)
  push_notification_android req w = elim (first_token req.tokens) [
    | none ↦ none
    | some t ↦ push_android_token req t w
  ]
