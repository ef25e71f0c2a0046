-- ===== src/Pusher/Genuine.antt =====
-- The provider token over the life of the server: gaurun/apns_http2.go, buford/, gaurun/worker.go.
use Prim.Native.String.{len}
use gaurun.Prelude.{
  ℕ, both_branches, ℤ, ◌≡◌, refl, sym, subst, ◌<◌, ◌^◌, inl, inr, String, Bool, true, false, List,
  [], ◌∷◌, Option, none, some, All, Option-cases, ltb, eq_ℤ,
}
use gaurun.Http.{Result, ok, Result-cases}
use gaurun.Conf.{ConfToml, SectionIos}
use gaurun.Notification.{Notification, platform_ios, platform_android}
use gaurun.Notification.Spec.{queued_of}
use gaurun.Notification.Enqueue.{enqueue_notifications}
use gaurun.Buford.Payload.{Value}
use gaurun.Buford.Push as Buford
use gaurun.Buford.Push.Header.{Headers, Http, set, set_plain, authorize}
use gaurun.Buford.Push.Service.{
  Pushed, sent, failed, prepare, deliver, push, device_url, max_payload,
}
use gaurun.Buford.Token.{Token}
use gaurun.Buford.Token.Laws.{IsGenuine, generate_bearer_if_expired-IsGenuine}
use gaurun.Gcm.Client as Gcm
use gaurun.Gcm.Client.{Sent}
use gaurun.Pusher.{World}
use gaurun.Pusher.Ios.{first_token, apns_push, finish_ios, push_ios_token, push_notification_ios}
use gaurun.Pusher.Android.{finish_android, push_android_token, push_notification_android}
use gaurun.Pusher.Dispatch.{dispatch, push_all}
use gaurun.Pusher.Ends.{Ends, enqueue_notifications-Ends}
use gaurun.Server.Apns.{new_apns_client_for_token}
use gaurun.Worker.Retry.{Ended, ended}
use gaurun.Worker.Keeps.{KeptBy, EndedIn, push_sync-EndedIn}

-- A client's token, if it has one, holds a genuine bearer or none yet.
abbrev pub Holds :
    {Key : Type 0} → (Key → String → String → ℕ → String → Type 0) → Option (Token Key) → Type 0
Holds Signed none = Unit
Holds Signed (some t) = IsGenuine Signed t

module _ {E Key : Type 0} (o : Buford.Outside E Key)
    (Signed : Key → String → String → ℕ → String → Type 0)
    (signs : (key : Key) (key_id team_id : String) (issued_at : ℕ) (e : E) (bearer : String)
      → (o.sign key key_id team_id issued_at e).0 ≡ ok bearer
      → Signed key key_id team_id issued_at bearer) where
  authorize-Holds :
      (with_token : Bool) (t : Option (Token Key)) (e : E) (h : Http)
      → Holds Signed t
      → Holds Signed (authorize o with_token t e h).1
  unfolding authorize
  authorize-Holds true (some t) e h genuine =
      generate_bearer_if_expired-IsGenuine o.now o.sign Signed signs t e genuine
  authorize-Holds true none e h genuine = genuine
  authorize-Holds false t e h genuine = genuine

  set-Holds :
      (headers : Option Headers) (t : Option (Token Key)) (e : E) (h : Http)
      → Holds Signed t
      → Holds Signed (set o headers t e h).1
  unfolding set
  set-Holds none t e h genuine = genuine
  set-Holds (some headers) t e h genuine =
      authorize-Holds headers.auth_token t e (set_plain headers h) genuine

  push-Holds :
      (host device_token : String) (headers : Option Headers) (payload : String)
      (t : Option (Token Key)) (e : E)
      → Holds Signed t
      → Holds Signed (push o host device_token headers payload t e).1
  unfolding push deliver prepare
  push-Holds host device_token headers payload t e genuine =
      both_branches (λ (r : Pushed × Option (Token Key) × E). Holds Signed r.1)
        (ltb max_payload (len payload)) genuine
        (elim (Option-cases (o.check_url (device_url o host device_token))) [
          | inr (text, refused) ↦ rw refused genuine
          | inl accepted ↦ rw accepted (set-Holds headers t e _ genuine)
        ])

module _ {E C Key : Type 0} (apns : Buford.Outside E Key) (fcm : Gcm.Outside E C)
    (marshal : List (String × Value) → Result String) (show_time : Option ℤ → String)
    (client : Gcm.Client) (access_key_json : String)
    (Signed : Key → String → String → ℕ → String → Type 0)
    (signs : (key : Key) (key_id team_id : String) (issued_at : ℕ) (e : E) (bearer : String)
      → (apns.sign key key_id team_id issued_at e).0 ≡ ok bearer
      → Signed key key_id team_id issued_at bearer) where
  abbrev InWorld : World E Key → Type 0
  InWorld w = Holds Signed w.token

  apns_push-Holds :
      (device_token host : String) (h : Headers) (payload : List (String × Value))
      (t : Option (Token Key)) (e : E)
      → Holds Signed t
      → Holds Signed (apns_push apns marshal show_time device_token host h payload t e).1
  unfolding apns_push
  apns_push-Holds device_token host h payload t e genuine = elim (Result-cases (marshal payload)) [
    | inr (text, failing) ↦ rw (failing, apns_push) genuine
    | inl (body, done) ↦
        rw (done, apns_push)
          (push-Holds apns Signed signs host device_token (some h) body t e genuine)
  ]

  finish_ios-InWorld :
      (req : Notification) (device_token : String) (ptime : ℕ) (p : Pushed) (w : World E Key)
      → InWorld w
      → InWorld (finish_ios apns marshal show_time req device_token ptime p w).1
  unfolding finish_ios
  finish_ios-InWorld req device_token ptime (sent id) w genuine = genuine
  finish_ios-InWorld req device_token ptime (failed x) w genuine = genuine

  ios-KeptBy :
      (ios : SectionIos) (req : Notification) (w : World E Key)
      → InWorld w
      → KeptBy InWorld (push_notification_ios apns marshal show_time ios req w)
  unfolding push_notification_ios push_ios_token
  ios-KeptBy ios req w genuine = elim (Option-cases (first_token req.tokens)) [
    | inl no_token ↦ rw (no_token, KeptBy) tt
    | inr (t, given) ↦
        rw (given, KeptBy)
          (finish_ios-InWorld req t _ _ _ (apns_push-Holds t _ _ _ w.token _ genuine))
  ]

  finish_android-KeptBy :
      (req : Notification) (token : String) (ptime : ℕ) (sent : Sent) (w : World E Key)
      → InWorld w
      → KeptBy InWorld (finish_android fcm apns.now client access_key_json req token ptime sent w)
  unfolding finish_android
  finish_android-KeptBy req token ptime (Gcm.failed text) w genuine = genuine
  finish_android-KeptBy req token ptime (Gcm.response r) w genuine = genuine
  finish_android-KeptBy req token ptime Gcm.fault w genuine = tt

  android-KeptBy :
      (req : Notification) (w : World E Key)
      → InWorld w
      → KeptBy InWorld (push_notification_android fcm apns.now client access_key_json req w)
  unfolding push_notification_android push_android_token
  android-KeptBy req w genuine = elim (Option-cases (first_token req.tokens)) [
    | inl no_token ↦ rw (no_token, KeptBy) tt
    | inr (t, given) ↦ rw (given, KeptBy) (finish_android-KeptBy req t _ _ _ genuine)
  ]

  -- After a push by a worker, if there is one.
  abbrev DispatchedIn : Option (Ended (World E Key)) → Type 0
  DispatchedIn none = Unit
  DispatchedIn (some result) = EndedIn InWorld result

  dispatch-DispatchedIn :
      (conf : ConfToml) (n : Notification) (w : World E Key)
      → InWorld w
      → DispatchedIn (dispatch apns fcm marshal show_time client access_key_json conf n w)
  unfolding dispatch
  dispatch-DispatchedIn conf n w genuine =
      both_branches DispatchedIn (eq_ℤ n.platform platform_ios)
        (push_sync-EndedIn InWorld show_time (push_notification_ios apns marshal show_time conf.ios)
          (ios-KeptBy conf.ios) n conf.ios.retry_max w genuine)
        (both_branches DispatchedIn (eq_ℤ n.platform platform_android)
          (push_sync-EndedIn InWorld show_time
            (push_notification_android fcm apns.now client access_key_json) android-KeptBy n
            conf.android.retry_max w genuine)
          tt)

  push_all-InWorld :
      (conf : ConfToml) (ns : List Notification) (w : World E Key)
      → All (Ends apns fcm marshal show_time client access_key_json conf) ns
      → InWorld w
      → (w' : World E Key) × (push_all apns fcm marshal show_time client access_key_json conf ns w
          ≡ some w')
        × InWorld w'
  unfolding push_all
  push_all-InWorld conf [] w ends genuine = (w, refl, genuine)
  push_all-InWorld conf (n ∷ ns) w (end, ends) genuine =
      let (x, w₁, e) = end w in
      let kept : DispatchedIn (some (ended x w₁)) =
        subst DispatchedIn e (dispatch-DispatchedIn conf n w genuine) in
      let (w', further, genuine') = push_all-InWorld conf ns w₁ ends kept in
      (w', rw (e, push_all) further, genuine')

  -- From the token that `NewApnsClientHttp2ForToken` makes, with any signer and any services, a worker
  -- pushes all that `enqueueNotifications` has queued (from any value of the counter, a uint64) for
  -- any configuration and request, without a fault; and the bearer that is then in the client's
  -- token was signed for the token's key, ids and issue time, or there has been none yet.
  pub push_all-Holds :
      (conf : ConfToml) (seq_id : ℕ) (ns : List Notification) (Cert : Type 0) (key : Key)
      (key_id team_id : String) (w : World E Key)
      → seq_id < 2 ^ 64
      → w.token ≡ (new_apns_client_for_token {Cert = Cert} conf.ios key key_id team_id).token
      → (w' : World E Key) × (push_all apns fcm marshal show_time client access_key_json conf
            (queued_of (enqueue_notifications conf seq_id ns).0)
            w
          ≡ some w')
        × Holds Signed w'.token
  unfolding new_apns_client_for_token
  push_all-Holds conf seq_id ns Cert key key_id team_id w small made =
      push_all-InWorld conf (queued_of (enqueue_notifications conf seq_id ns).0) w
        (enqueue_notifications-Ends apns fcm marshal show_time client access_key_json conf seq_id ns
          small)
        (subst (Holds Signed) (sym made) (inl (refl, refl)))
