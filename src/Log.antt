-- ===== src/Log.antt =====
-- gaurun/log.go: what is logged of a push, and the sequence number. A logged duration is in
-- milliseconds: `math.Floor(ptime*1000) / 1000` keeps that much of the seconds measured.
pub mod Setup
use gaurun.Prelude.{
  ℕ, ℤ, pos, String, Bool, true, false, not, List, [], ◌∷◌, ◌++◌, Option, none, some, ◌+◌, ◌/◌, ◌%◌,
  ◌^◌, is_empty, eq_ℤ, if◌then◌else◌,
}
use gaurun.Notification.{Notification, platform_ios, platform_android}

-- The four `Status…Push` constants; `status_text` has their texts.
pub data Status : Type 0 where
  accepted_push succeeded_push failed_push disabled_push : Status

abbrev pub status_text : Status → String
status_text accepted_push = "accepted-push"
status_text succeeded_push = "succeeded-push"
status_text failed_push = "failed-push"
status_text disabled_push = "disabled-push"

-- `LogAccess.Info` or `LogError.Error`
pub data Logger : Type 0 where
  access error : Logger

pub data Value : Type 0 where
  str : String → Value
  int : ℤ → Value
  bool : Bool → Value
  -- a floating-point number of seconds, by its milliseconds
  millis : ℕ → Value

pub record Line : Type 0 where
  pub logger : Logger
  pub message : String
  pub fields : List (String × Value)

unfoldable pub platform_name : ℤ → String
platform_name p =
    if eq_ℤ p platform_ios then "ios" else if eq_ℤ p platform_android then "android" else ""

-- `zap.Skip()` writes no field.
abbrev pub when : Bool → String → Value → List (String × Value)
when true key v = (key, v) ∷ []
when false key v = []

unfoldable pub logger_of : Status → Logger
logger_of accepted_push = access
logger_of succeeded_push = access
logger_of failed_push = error
logger_of disabled_push = error

abbrev error_text : Option String → String
error_text none = ""
error_text (some e) = e

-- The fields that are left out when they are empty.
unfoldable pub optional_fields : Notification → List (String × Value)
optional_fields req =
    when (not (is_empty req.collapse_key)) "collapse_key" (str req.collapse_key)
    ++ (when req.delay_while_idle "delay_while_idle" (bool req.delay_while_idle)
        ++ (when (not (eq_ℤ req.time_to_live (pos 0))) "time_to_live" (int req.time_to_live)
            ++ (when (not (is_empty req.title)) "title" (str req.title)
                ++ (when (not (is_empty req.subtitle)) "subtitle" (str req.subtitle)
                    ++ (when (not (eq_ℤ req.badge (pos 0))) "badge" (int req.badge)
                        ++ (when (not (is_empty req.category)) "category" (str req.category)
                            ++ (when (not (is_empty req.sound)) "sound" (str req.sound)
                                ++ (when req.content_available "content_available"
                                      (bool req.content_available)
                                    ++ (when req.mutable_content "mutable_content"
                                          (bool req.mutable_content)
                                        ++ (when (not (eq_ℤ req.expiry (pos 0))) "expiry"
                                              (int req.expiry)
                                            ++ when (not (is_empty req.identifier)) "identifier"
                                                (str req.identifier)))))))))))

-- `ptime` is in nanoseconds, as a `time.Duration`.
unfoldable pub log_push :
    (id : ℕ) → Status → (token : String) → (ptime : ℕ) → Notification → Option String → Line
unfolding platform_name logger_of optional_fields
log_push id status token ptime req err = record {
  logger = logger_of status;
  message = req.message;
  fields =
      ("id", int (pos id))
      ∷ ("platform", str (platform_name req.platform))
      ∷ ("token", str token)
      ∷ ("type", str (status_text status))
      ∷ ("ptime", millis (ptime / 1000000))
      ∷ ("error", str (error_text err))
      ∷ optional_fields req;
}

-- `atomic.AddUint64(&SeqID, 1)`: the new value of the counter is the number handed out.
unfoldable pub numbering_push : ℕ → ℕ
numbering_push seq_id = (seq_id + 1) % 2 ^ 64
