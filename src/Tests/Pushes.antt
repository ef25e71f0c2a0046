-- ===== src/Tests/Pushes.antt =====
-- Pushes to Apple's service and the retry loop.
use gaurun.Prelude.{All, arith, ℕ, pos, contains, ◌+ℤ◌, ◌≡◌, refl, [], ◌∷◌, Option, some}
use gaurun.Notification.{Notification}
use gaurun.Buford.Errors.{GoError, plain, new, error_message, reason_text}
use gaurun.Pusher.Ios.{push_notification_ios}
use gaurun.Worker.{is_external_server_error}
use gaurun.Worker.Retry.{ended, push_sync, push_loop, goes_on, retried, budget}
use gaurun.Worker.Laws.{ended_of, Stops, push_sync-Stops}
use gaurun.Pusher.Laws.{push_sync-ios_once}
use gaurun.Notification.Enqueue.{enqueue_notifications}
use gaurun.Notification.Spec.{queued_of}
use gaurun.Http.{err}
use gaurun.Log.{Line, failed_push, log_push, optional_fields, platform_name}
use gaurun.Pusher.{World}
use gaurun.Pusher.Android.{
  push_notification_android, push_android_token, finish_android, message_of, extend_data,
}
use gaurun.Gcm.Message.{validate, new_message}
use gaurun.Gcm.Client.{
  Client, Outside, send, send_valid, send_loop, send_one, get_access_token, read_reply, for_token,
  request,
}
use gaurun.Pusher.Ends.{Ends, enqueue_notifications-Ends}
use gaurun.Tests.Recovery.{fcm}
use gaurun.Tests.Samples.{batch, conf, notification, unavailable, marshal, show_time, start}

abbrev to_ios : Notification
to_ios = notification (pos 1) ("a" ∷ [])

push_sync-ios_once_example :
    push_sync show_time
      (push_notification_ios unavailable marshal show_time conf.ios)
      to_ios
      (pos 3)
      start
    ≡ ended_of (push_notification_ios unavailable marshal show_time conf.ios to_ios start)
push_sync-ios_once_example =
    push_sync-ios_once unavailable marshal show_time conf.ios to_ios (pos 3) start refl

-- A pusher for Android that times out and counts its calls.
abbrev timing_out : Notification → ℕ → Option (Option GoError × ℕ)
timing_out req n = some (some (plain (new "net/http: Timeout")), ℕ.suc n)

abbrev to_android : Notification
to_android = notification (pos 2) ("a" ∷ [])

-- With a limit of 2 it is called three times.
timing_out_calls :
    push_sync show_time timing_out to_android (pos 2) 0
    ≡ ended (some (plain (new "net/http: Timeout"))) 3
unfolding push_sync push_loop goes_on retried budget is_external_server_error error_message
    reason_text contains ◌+ℤ◌
timing_out_calls = refl

push_sync-Stops_example :
    Stops show_time timing_out to_android
      (pos 2)
      0
      (push_sync show_time timing_out to_android (pos 2) 0)
push_sync-Stops_example = push_sync-Stops show_time timing_out to_android (pos 2) 0

abbrev pub client : Client
client = record { api_key = "secret"; url = "https://fcm.googleapis.com" }

enqueue_notifications-Ends_example :
    All
      (Ends unavailable fcm marshal show_time client "{}" conf)
      (queued_of (enqueue_notifications conf 7 batch).0)
enqueue_notifications-Ends_example =
    enqueue_notifications-Ends unavailable fcm marshal show_time client "{}" conf 7 batch
      (omega arith)

-- FCM does not answer in time: the push is retried once, and fails again.
abbrev slow : Outside ℕ (Unit {0})
slow = record fcm { round_trip = λ _ e. (err "Client.Timeout exceeded", "", ℕ.suc e) }

abbrev failure : Notification → Line
failure req = log_push 0 failed_push "a" 0 req (some "Client.Timeout exceeded")

abbrev in_the_end : World ℕ (Unit {0})
in_the_end = record start {
  stats = record (start.stats) { android_error = 2 };
  lines = failure to_android ∷ failure (record to_android { retry = pos 1 }) ∷ [];
  env = 2;
}

to_slow :
    push_sync show_time
      (push_notification_android slow unavailable.now client "{}")
      to_android
      (pos 1)
      start
    ≡ ended (some (plain (new "Client.Timeout exceeded"))) in_the_end
unfolding push_sync push_loop goes_on retried budget is_external_server_error error_message
    reason_text contains ◌+ℤ◌ push_notification_android push_android_token finish_android send
    send_valid send_loop send_one get_access_token validate message_of new_message read_reply
    log_push optional_fields platform_name for_token request extend_data
to_slow = refl
