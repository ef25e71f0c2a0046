-- ===== src/Notification/Handler.antt =====
-- gaurun/notification.go: `PushNotificationHandler`. The request is its method, content length and
-- body; `read_all` reads a body (`ioutil.ReadAll`), `unmarshal` and `decode` are the two JSON entry
-- points, all three parameters. What the handler starts by `go` is part of its result.
use gaurun.Prelude.{
  ℕ, ℤ, pos, String, ◌++ˢ◌, not, List, [], ◌∷◌, Option, none, some, str_eq, ltb_ℤ, eq_ℤ, length,
  show_ℕ, if◌then◌else◌,
}
use gaurun.Http.{Response, response, Result, ok, err}
use gaurun.Conf.{ConfToml}
use gaurun.Notification.{Notification}

pub record Request (Body : Type 0) : Type 0 where
  pub method : String
  pub content_length : ℤ
  pub body : Body

-- The response, and the notifications given to `go enqueueNotifications`, if it is reached.
pub record Outcome : Type 0 where
  pub answer : Response
  pub enqueue : Option (List Notification)

abbrev pub refuse : String → ℕ → Outcome
refuse msg code = record { answer = response msg code; enqueue = none }

-- %d of an int64
abbrev pub show_ℤ : ℤ → String
show_ℤ (ℤ.pos n) = show_ℕ n
show_ℤ (ℤ.negsuc n) = "-" ++ˢ show_ℕ (ℕ.suc n)

unfoldable pub over_limit : ℕ → ℤ → String
over_limit n limit =
    (("number of notifications(" ++ˢ show_ℕ n) ++ˢ (") over limit(" ++ˢ show_ℤ limit)) ++ˢ ")"

unfoldable pub check_count : ConfToml → List Notification → Outcome
check_count conf [] = refuse "empty notification" 400
check_count conf (n ∷ ns) =
    if ltb_ℤ conf.core.notification_max (pos (length (n ∷ ns)))
    then refuse (over_limit (length (n ∷ ns)) conf.core.notification_max) 400
    else record { answer = response "ok" 200; enqueue = some (n ∷ ns) }

module _ {Body : Type 0} (read_all : Body → Result String)
    (unmarshal : String → Result (List Notification))
    (decode : Body → Result (List Notification)) where
  -- A body that is read but not parsed and one that is not read are answered differently.
  unfoldable pub parse : ConfToml → Body → Result (Result (List Notification))
  parse conf body =
      if str_eq conf.log.level "debug"
      then elim (read_all body) [ err e ↦ err e | ok text ↦ ok (unmarshal text) ]
      else ok (decode body)

  unfoldable pub push_notification_handler : ConfToml → Request Body → Outcome
  unfolding check_count parse
  push_notification_handler conf r =
      if not (str_eq r.method "POST")
      then refuse "method must be POST" 400
      else if eq_ℤ r.content_length (pos 0)
      then refuse "request body is empty" 400
      else elim (parse conf r.body) [
        | err e ↦ refuse "failed to read request-body" 500
        | ok (err e) ↦ refuse "Request-body is malformed" 400
        | ok (ok ns) ↦ check_count conf ns
      ]
