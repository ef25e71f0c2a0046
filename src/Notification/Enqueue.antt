-- ===== src/Notification/Enqueue.antt =====
-- gaurun/notification.go: `enqueueNotifications`, as the list of what it does in order. The channel
-- `QueueNotification` is bounded: a send waits for room, which changes when it happens and not what.
use gaurun.Prelude.{
  ℕ, String, Bool, false, List, [], ◌∷◌, ◌++◌, Option, none, some, eq_ℤ, if◌then◌else◌,
}
use gaurun.Conf.{ConfToml}
use gaurun.Log.{Line, accepted_push, disabled_push, log_push, numbering_push}
use gaurun.Notification.{Notification, platform_ios, platform_android}
use gaurun.Notification.Validate.{validate_notification}

pub data Event : Type 0 where
  logged : Line → Event
  logged_error : String → Event
  queued : Notification → Event

unfoldable pub enabled_push : ConfToml → Notification → Bool
enabled_push conf n =
    if eq_ℤ n.platform platform_ios
    then conf.ios.enabled
    else if eq_ℤ n.platform platform_android
    then conf.android.enabled
    else false

-- `notification2`: the copy for one token, with its number.
unfoldable pub for_token : Notification → String → ℕ → Notification
for_token n token id = record n { tokens = token ∷ []; id = id }

unfoldable pub accept : Bool → String → Notification → List Event
accept enabled token n =
    if enabled
    then logged (log_push n.id accepted_push token 0 n none) ∷ queued n ∷ []
    else logged (log_push n.id disabled_push token 0 n none) ∷ []

-- The inner loop. The first argument is `SeqID`.
unfoldable pub enqueue_tokens : ℕ → Bool → Notification → List String → List Event × ℕ
enqueue_tokens seq_id enabled n [] = ([], seq_id)
enqueue_tokens seq_id enabled n (token ∷ tokens) =
    let id = numbering_push seq_id in
    let (events, seq_id') = enqueue_tokens id enabled n tokens in
    (accept enabled token (for_token n token id) ++ events, seq_id')

unfoldable pub enqueue_one : ConfToml → ℕ → Notification → Option String → List Event × ℕ
enqueue_one conf seq_id n (some e) = (logged_error e ∷ [], seq_id)
enqueue_one conf seq_id n none = enqueue_tokens seq_id (enabled_push conf n) n n.tokens

unfoldable pub enqueue_notifications : ConfToml → ℕ → List Notification → List Event × ℕ
enqueue_notifications conf seq_id [] = ([], seq_id)
enqueue_notifications conf seq_id (n ∷ ns) =
    let (events, seq_id₁) =
      enqueue_one conf seq_id n (validate_notification conf.core.allows_empty_message n) in
    let (later, seq_id₂) = enqueue_notifications conf seq_id₁ ns in (events ++ later, seq_id₂)
