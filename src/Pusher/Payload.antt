-- ===== src/Pusher/Payload.antt =====
-- About the dictionary that a notification becomes: gaurun/apns_http2.go, buford/payload/aps.go.
use gaurun.Prelude.{
  ◌≡◌, refl, arith, String, Bool, true, false, not, ◌&&◌, List, Option, none, some, is_empty,
  lookup, lookup-insert, str_eq, if◌then◌else◌, to_uint64, Bool-cases,
}
use gaurun.Notification.{Notification}
use gaurun.Buford.Badge
use gaurun.Buford.Badge.{Badge}
use gaurun.Buford.Payload.{
  ApsValue, text, number, alert, put_when, alert_value, aps_fields, is_simple, is_zero,
}
use gaurun.Pusher.Ios.{aps_of}

lookup-put_when :
    (c : Bool) (asked key : String) (v : ApsValue) (m : List (String × ApsValue))
    → lookup asked (put_when c key v m) ≡ (if str_eq asked key && c then some v else lookup asked m)
lookup-put_when true asked key v m = ground (arith, lookup-insert asked key v m)
lookup-put_when false asked key v m = ground arith

-- A text under a key, which is missing if the text is empty; a flag is the number 1.
abbrev pub text_or_none : String → Option ApsValue
text_or_none s = if is_empty s then none else some (text s)

abbrev pub flag_or_none : Bool → Option ApsValue
flag_or_none b = if b then some (number 1) else none

abbrev pub alert_or_none : Notification → Option ApsValue
alert_or_none req =
    if is_empty req.title && is_empty req.subtitle
    then text_or_none req.message
    else some (alert (aps_of req).alert)

text_field : (s : String) → (if not (is_empty s) then some (text s) else none) ≡ text_or_none s
text_field s = ground arith

alert_field :
    (req : Notification)
    → (if not (is_zero (aps_of req).alert) then some (alert_value (aps_of req).alert) else none)
      ≡ alert_or_none req
unfolding aps_of alert_value is_simple is_zero
alert_field req = ground (
  arith,
  Bool-cases (is_empty req.title),
  Bool-cases (is_empty req.subtitle),
  Bool-cases (is_empty req.message),
)

-- The dictionary of a notification: the alert is the message alone, or with a title or a subtitle
-- an alert of several fields, and is missing without any of the three; the badge is always there
-- (a badge that the request leaves out is 0, which clears it); sound and category are there unless
-- they are empty, the two flags if they are set; there is never a thread.
pub aps_fields-aps_of :
    (req : Notification)
    → let m = aps_fields (aps_of req) in
      ((lookup "alert" m ≡ alert_or_none req)
        × (lookup "badge" m ≡ some (number (to_uint64 req.badge)))
        × (lookup "sound" m ≡ text_or_none req.sound)
        × (lookup "category" m ≡ text_or_none req.category)
        × (lookup "content-available" m ≡ flag_or_none req.content_available)
        × (lookup "mutable-content" m ≡ flag_or_none req.mutable_content)
        × (lookup "thread-id" m ≡ none))
unfolding aps_fields aps_of Badge.number_of Badge.new lookup
aps_fields-aps_of req = (
  simp (lookup-put_when) (alert_field req),
  simp (lookup-put_when) refl,
  simp (lookup-put_when) (text_field req.sound),
  simp (lookup-put_when) (text_field req.category),
  simp (lookup-put_when) refl,
  simp (lookup-put_when) refl,
  simp (lookup-put_when) refl,
)
