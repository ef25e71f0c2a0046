-- ===== src/Pusher/Totals/Served.antt =====
-- The counters of gaurun/stat.go and the log over all that a worker pushes of what
-- gaurun/notification.go has queued.
use gaurun.Prelude.{
  ℕ, ℤ, ◌^◌, ◌<◌, ◌≡◌, refl, ap, subst, arith, inl, inr, String, List, [], ◌∷◌, Option, none, some,
  All, map, length, length-append,
}
use gaurun.Http.{Result}
use gaurun.Conf.{ConfToml, SectionIos}
use gaurun.Notification.{Notification, platform_ios, platform_android}
use gaurun.Notification.Spec.{IsDeliverable, queued_of}
use gaurun.Notification.Enqueue.{enqueue_notifications}
use gaurun.Notification.Queued.{enqueue_notifications-IsDeliverable}
use gaurun.Buford.Payload.{Value}
use gaurun.Buford.Push as Buford
use gaurun.Buford.Push.Service.{Pushed, sent, failed}
use gaurun.Buford.Errors.{GoError}
use gaurun.Buford.Token.{Token}
use gaurun.Gcm.Client as Gcm
use gaurun.Pusher.{World}
use gaurun.Pusher.Ios.{first_token, finish_ios, push_ios_token, push_notification_ios}
use gaurun.Pusher.Android.{push_notification_android}
use gaurun.Pusher.Books.{push_sync-android-Books}
use gaurun.Pusher.Laws.{push_sync-ios_once}
use gaurun.Pusher.Dispatch.{dispatch, push_all}
use gaurun.Pusher.Ends.{deliverable-Ends}
use gaurun.Worker.Retry.{ended, push_sync, budget}
use gaurun.Worker.Laws.{ended_of}
use gaurun.Pusher.Totals as Totals
use gaurun.Pusher.Totals.{IsSmall, Totals, Totals-IsSmall, Totals-none, Totals-then, Books-Totals}
use gaurun.Pusher.Totals.Outcomes.{
  outcomes, TotalsBy, sent_by, unsent_by, budget_of, budgets, outcomes-cons, push_all-cons,
}

module _ {E C Key : Type 0} (apns : Buford.Outside E Key) (fcm : Gcm.Outside E C)
    (marshal : List (String × Value) → Result String) (show_time : Option ℤ → String)
    (client : Gcm.Client) (access_key_json : String) where
  abbrev TotalsOf : World E Key → Option (Option GoError × World E Key) → Type 0
  TotalsOf w none = Unit
  TotalsOf w (some (err, w')) = Totals (Totals.sent err) (Totals.unsent err) 0 0 0 w w'

  finish_ios-Totals :
      (req : Notification) (device_token : String) (ptime : ℕ) (p : Pushed) (w : World E Key)
      (t : Option (Token Key)) (env : E)
      → IsSmall w.stats
      → let (err, w') =
          finish_ios apns marshal show_time req device_token ptime p
            (record w { token = t; env = env }) in
        Totals (Totals.sent err) (Totals.unsent err) 0 0 0 w w'
  unfolding finish_ios
  finish_ios-Totals req device_token ptime (sent id) w t env small = record {
    retries = 0;
    few = omega arith;
    ios_success = refl;
    ios_error = omega (arith, small.ios_error);
    android_success = omega (arith, small.android_success);
    android_error = omega (arith, small.android_error);
    lines = omega (arith, length-append w.lines (_ ∷ []));
  }
  finish_ios-Totals req device_token ptime (failed x) w t env small = record {
    retries = 0;
    few = omega arith;
    ios_success = omega (arith, small.ios_success);
    ios_error = refl;
    android_success = omega (arith, small.android_success);
    android_error = omega (arith, small.android_error);
    lines = omega (arith, length-append w.lines (_ ∷ []));
  }

  ios-TotalsOf :
      (ios : SectionIos) (req : Notification) (token : String) (w : World E Key)
      → req.tokens ≡ token ∷ []
      → IsSmall w.stats
      → TotalsOf w (push_notification_ios apns marshal show_time ios req w)
  unfolding push_notification_ios push_ios_token
  ios-TotalsOf ios req token w one small =
      let given : first_token req.tokens ≡ some token = ap first_token one in
      rw (given, TotalsOf) (finish_ios-Totals req token _ _ w _ _ small)

  ended_of-inv :
      {S : Type 0} (o : Option (Option GoError × S)) (err : Option GoError) (s : S)
      → ended err s ≡ ended_of o
      → o ≡ some (err, s)
  ended_of-inv none err s e = absurd (ground (arith, e))
  ended_of-inv (some (err', s')) err s e = ground (arith, e)

  -- A push that a worker has made.
  dispatch-Totals :
      (conf : ConfToml) (n : Notification) (w : World E Key) (err : Option GoError)
      (w' : World E Key)
      → IsDeliverable conf n
      → IsSmall w.stats
      → dispatch apns fcm marshal show_time client access_key_json conf n w ≡ some (ended err w')
      → Totals
          (sent_by platform_ios n.platform err)
          (unsent_by platform_ios n.platform err)
          (sent_by platform_android n.platform err)
          (unsent_by platform_android n.platform err)
          (budget_of conf n)
          w
          w'
  unfolding dispatch
  dispatch-Totals conf n w err w' h small result = elim h.enabled [
    | inl (ios, _) ↦
        let pusher = push_notification_ios apns marshal show_time conf.ios in
        let q : some (push_sync show_time pusher n conf.ios.retry_max w) ≡ some (ended err w') =
          simp (ios) at result in
        let once = push_sync-ios_once apns marshal show_time conf.ios n conf.ios.retry_max w ios in
        let p : ended err w' ≡ ended_of (pusher n w) = ground (arith, q, once) in
        simp (ios) (
          subst (TotalsOf w) (ended_of-inv (pusher n w) err w' p)
            (ios-TotalsOf conf.ios n h.token w h.only small))
    | inr (android, _) ↦
        let pusher = push_notification_android fcm apns.now client access_key_json in
        let q : some (push_sync show_time pusher n conf.android.retry_max w) ≡ some (ended err w') =
          simp (android) at result in
        let one : length n.tokens ≡ 1 = ap length h.only in
        let p : push_sync show_time pusher n conf.android.retry_max w ≡ ended err w' =
          ground (arith, q) in
        let (retries, few, books) =
          push_sync-android-Books fcm apns.now client access_key_json show_time n
            conf.android.retry_max w err w' one small.android_error p in
        simp (android)
          (Books-Totals retries (budget n conf.android.retry_max) err w w' small few books)
  ]

  deliverable-Totals :
      (conf : ConfToml) (ns : List Notification) (w : World E Key)
      → All (IsDeliverable conf) ns
      → IsSmall w.stats
      → let outs = outcomes apns fcm marshal show_time client access_key_json conf ns w in
        ((map (λ (o : ℤ × Option GoError). o.0) outs ≡ map (λ (n : Notification). n.platform) ns)
          × (w' : World E Key) × (push_all apns fcm marshal show_time client access_key_json conf ns
                w
              ≡ some w')
          × TotalsBy apns fcm marshal show_time client access_key_json (budgets conf ns) outs w w')
  deliverable-Totals conf [] w h small =
      unfold push_all outcomes in (refl, w, refl, Totals-none w small)
  deliverable-Totals conf (n ∷ ns) w (here, later) small =
      let (err, w₁, e) =
        deliverable-Ends apns fcm marshal show_time client access_key_json conf n here w in
      let first = dispatch-Totals conf n w err w₁ here small e in
      let (all, w', further, rest) = deliverable-Totals conf ns w₁ later (Totals-IsSmall first) in
      simp
        (
          outcomes-cons apns fcm marshal show_time client access_key_json conf n ns w err w₁ e,
          push_all-cons apns fcm marshal show_time client access_key_json conf n ns w err w₁ e,
        )
        (ap (λ (l : List ℤ). n.platform ∷ l) all, w', further, Totals-then first rest)

  -- A worker pushes all that `enqueueNotifications` has queued for a request, in any world; each
  -- notification of the queue has an outcome, in its order, and then the books add up (modulo 2^64,
  -- from counters of 64 bits): the successes of a platform are as many as its notifications whose last
  -- push ended without an error, the errors of iOS as many as its notifications whose push ended with
  -- one, the errors of Android as many as its notifications whose last push ended with one and the
  -- retries together; and the log has one line more for each push. The retries are at most those that
  -- are left to the notifications for Android.
  pub push_all-Totals :
      (conf : ConfToml) (seq_id : ℕ) (ns : List Notification) (w : World E Key)
      → seq_id < 2 ^ 64
      → IsSmall w.stats
      → let queue = queued_of (enqueue_notifications conf seq_id ns).0 in
        let outs = outcomes apns fcm marshal show_time client access_key_json conf queue w in
        ((map (λ (o : ℤ × Option GoError). o.0) outs ≡ map (λ (n : Notification). n.platform) queue)
          × (w' : World E Key) × (push_all apns fcm marshal show_time client access_key_json conf
                queue w
              ≡ some w')
          × TotalsBy apns fcm marshal show_time client access_key_json
              (budgets conf queue)
              outs
              w
              w')
  push_all-Totals conf seq_id ns w below small =
      deliverable-Totals conf (queued_of (enqueue_notifications conf seq_id ns).0) w
        (enqueue_notifications-IsDeliverable conf seq_id ns below) small
