-- ===== src/Pusher/Laws.antt =====
-- About pushes to Apple's service and their retries: gaurun/notification.go and gaurun/worker.go.
use gaurun.Prelude.{
  ℕ, ℤ, String, ◌≡◌, refl, false, inl, inr, List, Option, none, some, arith, Option-cases,
}
use gaurun.Http.{Result, ok, err, Result-cases}
use gaurun.Conf.{SectionIos}
use gaurun.Notification.{Notification, platform_ios}
use gaurun.Buford.Payload.{Value}
use gaurun.Buford.Errors.{GoError}
use gaurun.Buford.Push.{Outside, Reply}
use gaurun.Buford.Push.Header.{Headers}
use gaurun.Buford.Push.Service.{
  Pushed, sent, failed, parse_error_response, read_reply, deliver, prepare, push,
}
use gaurun.Buford.Token.{Token}
use gaurun.Pusher.{World}
use gaurun.Pusher.Ios.{first_token, apns_push, finish_ios, push_ios_token, push_notification_ios}
use gaurun.Worker.{is_retried_ios, is_external_server_error}
use gaurun.Worker.Retry.{goes_on, push_sync}
use gaurun.Worker.Laws.{ended_of, push_sync_last}

-- The error of a push is no error variable of the package buford/push.
abbrev IsFresh : Pushed → Type 0
IsFresh (sent id) = Unit
IsFresh (failed x) = is_retried_ios x ≡ false

module _ {E Key : Type 0} (o : Outside E Key) where
  parse_error_response-IsFresh :
      (body : String) (code : ℕ) → is_retried_ios (parse_error_response o body code) ≡ false
  unfolding parse_error_response is_retried_ios
  parse_error_response-IsFresh body code = ground arith

  read_reply-IsFresh : (r : Result Reply) → IsFresh (read_reply o r)
  unfolding read_reply
  read_reply-IsFresh (err text) = unfold is_retried_ios in refl
  read_reply-IsFresh (ok reply) =
      ground (arith, parse_error_response-IsFresh reply.body reply.status_code)

  push-IsFresh :
      (host device_token : String) (h : Option Headers) (payload : String) (t : Option (Token Key))
      (e : E)
      → IsFresh (push o host device_token h payload t e).0
  unfolding push deliver is_retried_ios
  push-IsFresh host device_token h payload t e =
      let (request, t', e') = prepare o host device_token h payload t e in
      ground (arith, read_reply-IsFresh (o.round_trip request e').0)

module _ {E Key : Type 0} (o : Outside E Key) (marshal : List (String × Value) → Result String)
    (show_time : Option ℤ → String) (ios : SectionIos) where
  abbrev IsNotRetried : Option GoError → Type 0
  IsNotRetried none = Unit
  IsNotRetried (some x) = is_retried_ios x ≡ false

  finish_ios-IsNotRetried :
      (req : Notification) (device_token : String) (ptime : ℕ) (p : Pushed) (w : World E Key)
      → IsFresh p
      → IsNotRetried (finish_ios o marshal show_time req device_token ptime p w).0
  unfolding finish_ios
  finish_ios-IsNotRetried req device_token ptime (sent id) w h = tt
  finish_ios-IsNotRetried req device_token ptime (failed x) w h = h

  apns_push-IsFresh :
      (device_token host : String) (h : Headers) (payload : List (String × Value))
      (t : Option (Token Key)) (e : E)
      → IsFresh (apns_push o marshal show_time device_token host h payload t e).0
  unfolding apns_push is_retried_ios
  apns_push-IsFresh device_token host h payload t e = elim (Result-cases (marshal payload)) [
    | inr (text, failing) ↦ rw (failing, apns_push) refl
    | inl (body, done) ↦ rw (done, apns_push) (push-IsFresh o host device_token (some h) body t e)
  ]

  push_ios_token-IsNotRetried :
      (req : Notification) (device_token : String) (w : World E Key)
      → IsNotRetried (push_ios_token o marshal show_time ios req device_token w).0
  unfolding push_ios_token
  push_ios_token-IsNotRetried req device_token w =
      finish_ios-IsNotRetried req device_token _ _ _ (apns_push-IsFresh device_token _ _ _ _ _)

  push_notification_ios-IsNotRetried :
      (req : Notification) (w : World E Key) (x : Option GoError) (w' : World E Key)
      → push_notification_ios o marshal show_time ios req w ≡ some (x, w')
      → IsNotRetried x
  unfolding push_notification_ios
  push_notification_ios-IsNotRetried req w x w' called =
      elim (Option-cases (first_token req.tokens)) [
        | inl no_token ↦
            let e : ◌≡◌ {A = Option (Option GoError × World E Key)} none (some (x, w')) =
              rw (no_token, push_notification_ios) at called in
            absurd (cc e)
        | inr (t, given) ↦
            let e : some (push_ios_token o marshal show_time ios req t w) ≡ some (x, w') =
              rw (given, push_notification_ios) at called in
            let same : (push_ios_token o marshal show_time ios req t w).0 ≡ x = ground (arith, e) in
            rw same at (push_ios_token-IsNotRetried req t w)
      ]

  goes_on-false :
      (pusher : Notification → World E Key → Option (Option GoError × World E Key))
      (req : Notification) (retry_max : ℤ) (x : Option GoError)
      → req.platform ≡ platform_ios
      → IsNotRetried x
      → goes_on show_time pusher req retry_max x ≡ false
  unfolding goes_on
  goes_on-false pusher req retry_max none p h = refl
  goes_on-false pusher req retry_max (some x) p h = unfold is_external_server_error in ground arith

  -- A notification for iOS is pushed once, whatever the retry limit: the loop ends with the outcome
  -- of its first call. (An error of Apple's service comes as a `*push.Error`, which is never
  -- identical to the error variables that the loop compares it with.)
  pub push_sync-ios_once :
      (req : Notification) (retry_max : ℤ) (w : World E Key)
      → req.platform ≡ platform_ios
      → push_sync show_time (push_notification_ios o marshal show_time ios) req retry_max w
        ≡ ended_of (push_notification_ios o marshal show_time ios req w)
  push_sync-ios_once req retry_max w p =
      push_sync_last show_time (push_notification_ios o marshal show_time ios) req retry_max w
        (λ x w' called.
          goes_on-false _ req retry_max x p (push_notification_ios-IsNotRetried req w x w' called))
