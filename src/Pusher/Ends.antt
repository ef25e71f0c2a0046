-- ===== src/Pusher/Ends.antt =====
-- About the pushes of what has been queued: gaurun/notification.go, gaurun/worker.go.
use gaurun.Prelude.{
  ℕ, zero, suc, ℤ, ◌≡◌, ◌≢◌, refl, ◌∙◌, ap, ◌<◌, ◌^◌, inl, inr, String, List, [], ◌∷◌, Option, none,
  some, All, Option-cases,
}
use gaurun.Http.{Result}
use gaurun.Conf.{ConfToml, SectionIos}
use gaurun.Notification.{Notification}
use gaurun.Notification.Spec.{IsDeliverable, queued_of}
use gaurun.Notification.Enqueue.{enqueue_notifications}
use gaurun.Notification.Queued.{enqueue_notifications-IsDeliverable}
use gaurun.Buford.Payload.{Value}
use gaurun.Buford.Push as Buford
use gaurun.Buford.Errors.{GoError}
use gaurun.Gcm.Client as Gcm
use gaurun.Gcm.Client.{Sent, send}
use gaurun.Gcm.Laws.{send-ne-fault}
use gaurun.Pusher.{World}
use gaurun.Pusher.Ios.{push_notification_ios}
use gaurun.Pusher.Android.{finish_android, push_android_token, push_notification_android}
use gaurun.Pusher.Dispatch.{dispatch}
use gaurun.Worker.Retry.{ended, retried, push_sync}
use gaurun.Worker.Laws.{Retries, Stops, ended_of, push_sync-Stops}

-- A pusher that never faults on requests with these tokens.
module _ {S : Type 0} (show_time : Option ℤ → String)
    (pusher : Notification → S → Option (Option GoError × S)) (tokens : List String)
    (sound : (req : Notification) (s : S) → req.tokens ≡ tokens → pusher req s ≢ none) where
  Retries-ne-none :
      (k : ℕ) (req : Notification) (s : S)
      → req.tokens ≡ tokens
      → ¬ (Retries show_time pusher k req s none)
  unfolding retried
  Retries-ne-none zero req s same h = sound req s same h
  Retries-ne-none (suc k) req s same (x, s', called, external, more) =
      Retries-ne-none k (retried req) s' same more

  push_sync-ended :
      (req : Notification) (retry_max : ℤ) (s : S)
      → req.tokens ≡ tokens
      → (err : Option GoError) × (s' : S) × (push_sync show_time pusher req retry_max s
          ≡ ended err s')
  push_sync-ended req retry_max s same = go (push_sync-Stops show_time pusher req retry_max s)
    where
      go :
          Stops show_time pusher req retry_max s (push_sync show_time pusher req retry_max s)
          → (err : Option GoError) × (s' : S) × (push_sync show_time pusher req retry_max s
              ≡ ended err s')
      go stops = elim (Option-cases stops.outcome) [
        | inl faulty ↦ absurd (Retries-ne-none stops.retries req s same (rw faulty at stops.calls))
        | inr ((err, s'), fine) ↦ (err, s', stops.result_eq ∙ ap ended_of fine)
      ]

module _ {E C Key : Type 0} (apns : Buford.Outside E Key) (fcm : Gcm.Outside E C)
    (marshal : List (String × Value) → Result String) (show_time : Option ℤ → String)
    (client : Gcm.Client) (access_key_json : String) where
  push_notification_ios-ne-none :
      (ios : SectionIos) (token : String) (req : Notification) (w : World E Key)
      → req.tokens ≡ token ∷ []
      → push_notification_ios apns marshal show_time ios req w ≢ none
  unfolding push_notification_ios
  push_notification_ios-ne-none ios token req w one = rw one (λ p. cc p)

  finish_android-ne-none :
      (req : Notification) (token : String) (ptime : ℕ) (sent : Sent) (w : World E Key)
      → sent ≢ Gcm.fault
      → finish_android fcm apns.now client access_key_json req token ptime sent w ≢ none
  unfolding finish_android
  finish_android-ne-none req token ptime (Gcm.response r) w h = λ p. cc p
  finish_android-ne-none req token ptime (Gcm.failed text) w h = λ p. cc p
  finish_android-ne-none req token ptime Gcm.fault w h = absurd (h refl)

  push_notification_android-ne-none :
      (token : String) (req : Notification) (w : World E Key)
      → req.tokens ≡ token ∷ []
      → push_notification_android fcm apns.now client access_key_json req w ≢ none
  unfolding push_notification_android push_android_token
  push_notification_android-ne-none token req w one =
      rw one (finish_android-ne-none _ token _ _ _ (send-ne-fault fcm client _ access_key_json _))

  -- How a push of a notification from the queue is to end: with a result, not with a fault.
  abbrev pub Ends : ConfToml → Notification → Type 0
  Ends conf n =
      (w : World E Key)
      → (err : Option GoError) × (w' : World E Key) × (dispatch apns fcm marshal show_time client
            access_key_json conf n w
          ≡ some (ended err w'))

  pub deliverable-Ends : (conf : ConfToml) (n : Notification) → IsDeliverable conf n → Ends conf n
  unfolding dispatch
  deliverable-Ends conf n h w = elim h.enabled [
    | inl (ios, _) ↦
        let (err, w', e) =
          push_sync-ended show_time (push_notification_ios apns marshal show_time conf.ios) n.tokens
            (λ req w same. push_notification_ios-ne-none conf.ios h.token req w (same ∙ h.only)) n
            conf.ios.retry_max w refl in
        (err, w', simp (ios, e) refl)
    | inr (android, _) ↦
        let (err, w', e) =
          push_sync-ended show_time (push_notification_android fcm apns.now client access_key_json)
            n.tokens (λ req w same. push_notification_android-ne-none h.token req w (same ∙ h.only))
            n conf.android.retry_max w refl in
        (err, w', simp (android, e) refl)
  ]

  All-Ends :
      (conf : ConfToml) (ns : List Notification) → All (IsDeliverable conf) ns → All (Ends conf) ns
  All-Ends conf [] h = tt
  All-Ends conf (n ∷ ns) h = (deliverable-Ends conf n h.0, All-Ends conf ns h.1)

  -- Every notification that `enqueueNotifications` puts on the queue, from any value of the counter
  -- (a uint64), is pushed to an end in any state of the world: a worker finds its pusher, no pusher
  -- reads a token or a response that is not there, and the retries stop.
  pub enqueue_notifications-Ends :
      (conf : ConfToml) (seq_id : ℕ) (ns : List Notification)
      → seq_id < 2 ^ 64
      → All (Ends conf) (queued_of (enqueue_notifications conf seq_id ns).0)
  enqueue_notifications-Ends conf seq_id ns h =
      All-Ends conf _ (enqueue_notifications-IsDeliverable conf seq_id ns h)
