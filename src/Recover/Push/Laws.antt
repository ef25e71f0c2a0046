-- ===== src/Recover/Push/Laws.antt =====
-- About the second push of a notification for Android in cmd/gaurun_recover/gaurun_recover.go.
use gaurun.Prelude.{ℤ, ◌≡◌, refl, String, false, inl, inr, List, Option, some, Option-cases}
use gaurun.Http.{Result, err}
use gaurun.Conf.{SectionIos}
use gaurun.Notification.{Notification}
use gaurun.Buford.Payload.{Value}
use gaurun.Buford.Push as Buford
use gaurun.Buford.Token.{Token}
use gaurun.Gcm.Client as Gcm
use gaurun.Gcm.Message.{validate}
use gaurun.Recover.{Entry, request_of}
use gaurun.Recover.Push.{pushed, push_android, push_lost, message_of, send_nil}

module _ {E C : Type 0} (fcm : Gcm.Outside E C) (text : String)
    (no_credentials : fcm.credentials "" ≡ err text) where
  push_android_fails : (req : Notification) (e : E) → push_android fcm req e ≡ (pushed false, e)
  unfolding push_android send_nil Gcm.get_access_token
  push_android_fails req e = elim (Option-cases (validate (some (message_of fcm req)))) [
    | inl valid ↦ rw (valid, no_credentials, push_android, send_nil, Gcm.get_access_token) refl
    | inr (problem, invalid) ↦ rw (invalid, push_android) refl
  ]

-- A lost notification for Android is never pushed again: with no key data, which makes no
-- credentials, the push fails before any request, and the client's token and the world are as
-- before.
pub push_lost-android_fails :
    {E C Key : Type 0} (apns : Buford.Outside E Key) (fcm : Gcm.Outside E C)
    (marshal : List (String × Value) → Result String) (show_time : Option ℤ → String)
    (ios : SectionIos) (text : String)
    → fcm.credentials "" ≡ err text
    → (entry : Entry) (t : Option (Token Key)) (e : E) → entry.platform ≡ "android"
    → push_lost apns fcm marshal show_time ios entry t e ≡ (pushed false, t, e)
unfolding push_lost
push_lost-android_fails apns fcm marshal show_time ios text no_credentials entry t e android =
    simp (android, push_android_fails fcm text no_credentials (request_of entry) e) refl
