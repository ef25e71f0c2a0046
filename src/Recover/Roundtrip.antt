-- ===== src/Recover/Roundtrip.antt =====
-- What gaurun/log.go writes of a push, as cmd/gaurun_recover/gaurun_recover.go reads it.
use gaurun.Prelude.{
  ℕ, ℤ, pos, ◌≡◌, ◌⊎◌, inl, inr, refl, arith, String, Bool, true, false, not, ◌&&◌, List, [], ◌∷◌,
  ◌++◌, Option, none, some, is_empty, lookup, is_empty_iff, str_eq, eq_ℤ, if◌then◌else◌,
}
use gaurun.Notification.{Notification, platform_ios, platform_android}
use gaurun.Log.{
  Value, Status, status_text, platform_name, str, int, bool, when, optional_fields, log_push,
}
use gaurun.Recover.{Entry, request_of, platform_number}
use gaurun.Recover.Entries.{text_of, int_of, bool_of, decode}

lookup-when :
    (asked key : String) (c : Bool) (v : Value) (rest : List (String × Value))
    → lookup asked (when c key v ++ rest)
      ≡ (if str_eq asked key && c then some v else lookup asked rest)
unfolding lookup
lookup-when asked key true v rest = ground arith
lookup-when asked key false v rest = ground arith

lookup-when_end :
    (asked key : String) (c : Bool) (v : Value)
    → lookup asked (when c key v) ≡ (if str_eq asked key && c then some v else none)
unfolding lookup
lookup-when_end asked key true v = ground arith
lookup-when_end asked key false v = ground arith

text_of-when : (t : String) → text_of (if not (is_empty t) then some (str t) else none) ≡ t
text_of-when t = ground (arith, is_empty_iff t)

int_of-when : (n : ℤ) → int_of (if not (eq_ℤ n (pos 0)) then some (int n) else none) ≡ n
int_of-when n = ground arith

bool_of-when : (b : Bool) → bool_of (if b then some (bool b) else none) ≡ b
bool_of-when true = refl
bool_of-when false = refl

-- What is to be read back.
unfoldable pub entry_of : ℕ → Status → (token : String) → Notification → Entry
entry_of id status token req = record {
  kind = status_text status;
  id = id;
  platform = platform_name req.platform;
  token = token;
  message = req.message;
  collapse_key = req.collapse_key;
  delay_while_idle = req.delay_while_idle;
  time_to_live = req.time_to_live;
  title = req.title;
  subtitle = req.subtitle;
  badge = req.badge;
  category = req.category;
  sound = req.sound;
  content_available = req.content_available;
  mutable_content = req.mutable_content;
  expiry = req.expiry;
}

pub decode-log_push :
    (id : ℕ) (status : Status) (token : String) (ptime : ℕ) (req : Notification)
    (error : Option String)
    → decode (log_push id status token ptime req error) ≡ entry_of id status token req
unfolding decode log_push entry_of optional_fields lookup
decode-log_push id status token ptime req error =
    simp (lookup-when, lookup-when_end, text_of-when, int_of-when, bool_of-when) refl

platform_number-platform_name :
    (p : ℤ) → (p ≡ platform_ios) ⊎ (p ≡ platform_android) → platform_number (platform_name p) ≡ p
unfolding platform_number platform_name
platform_number-platform_name p (inl ios) = rw ios refl
platform_number-platform_name p (inr android) = rw android refl

-- A push that is made again from the log line of its acceptance has the platform, the message and
-- the other fields of the notification, with the token of the line; but the identifier, the
-- priority, the click action, the tag, the push type, the mutable content and the extensions are
-- not among what is pushed again, nor are the number and the retries.
pub request_of-log_push :
    (id : ℕ) (status : Status) (token : String) (ptime : ℕ) (req : Notification)
    (error : Option String)
    → (req.platform ≡ platform_ios) ⊎ (req.platform ≡ platform_android)
    → request_of (decode (log_push id status token ptime req error)) ≡ record req {
      tokens = token ∷ [];
      identifier = "";
      priority = "";
      click_action = "";
      tag = "";
      push_type = "";
      mutable_content = false;
      retry = pos 0;
      extend = [];
      id = 0;
    }
unfolding request_of entry_of
request_of-log_push id status token ptime req error known =
    rw
      (
        decode-log_push id status token ptime req error,
        platform_number-platform_name req.platform known,
      )
      refl
