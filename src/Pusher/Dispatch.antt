-- ===== src/Pusher/Dispatch.antt =====
-- gaurun/worker.go: the choice of the pusher and of the retry limit in `pushNotificationWorker`.
use gaurun.Prelude.{ℤ, String, List, [], ◌∷◌, Option, none, some, eq_ℤ, if◌then◌else◌}
use gaurun.Http.{Result}
use gaurun.Conf.{ConfToml}
use gaurun.Notification.{Notification, platform_ios, platform_android}
use gaurun.Buford.Payload.{Value}
use gaurun.Buford.Push as Buford
use gaurun.Gcm.Client as Gcm
use gaurun.Pusher.{World}
use gaurun.Pusher.Ios.{push_notification_ios}
use gaurun.Pusher.Android.{push_notification_android}
use gaurun.Worker.Retry.{Ended, ended, fault, no_fuel, push_sync}

module _ {E C Key : Type 0} (apns : Buford.Outside E Key) (fcm : Gcm.Outside E C)
    (marshal : List (String × Value) → Result String) (show_time : Option ℤ → String)
    (client : Gcm.Client) (access_key_json : String) where
  -- The push of one notification with its retries; `none` for a platform that is not known.
  unfoldable pub dispatch : ConfToml → Notification → World E Key → Option (Ended (World E Key))
  dispatch conf n w =
      if eq_ℤ n.platform platform_ios
      then some (
          push_sync show_time (push_notification_ios apns marshal show_time conf.ios) n
            conf.ios.retry_max w)
      else if eq_ℤ n.platform platform_android
      then some (
          push_sync show_time (push_notification_android fcm apns.now client access_key_json) n
            conf.android.retry_max w)
      else none

  -- The loop of `pushNotificationWorker` where every push is made by the worker itself, over what it
  -- receives; `none` is a fault, which ends the program.
  unfoldable pub push_all : ConfToml → List Notification → World E Key → Option (World E Key)
  push_all conf [] w = some w
  push_all conf (n ∷ ns) w = elim (dispatch conf n w) [
    | none ↦ push_all conf ns w
    | some (ended err w') ↦ push_all conf ns w'
    | some fault ↦ none
    | some no_fuel ↦ none
  ]
