-- ===== src/Notification/Validate.antt =====
-- gaurun/notification.go: `validateNotification`. The result is the text of the error, or none.
use gaurun.Prelude.{
  pos, String, ◌++ˢ◌, Bool, false, not, ◌&&◌, ◌||◌, List, [], ◌∷◌, Option, none, some, is_empty,
  str_eq, ltb_ℤ, if◌then◌else◌,
}
use gaurun.Notification.{Notification, push_type_alert, push_type_background}

-- The first loop: does a token of length 0 stand in the list?
unfoldable pub has_empty_token : List String → Bool
has_empty_token [] = false
has_empty_token (token ∷ tokens) = is_empty token || has_empty_token tokens

-- `allows_empty_message` is `ConfGaurun.Core.AllowsEmptyMessage`.
unfoldable pub validate_notification : (allows_empty_message : Bool) → Notification → Option String
validate_notification allows_empty_message n =
    if has_empty_token n.tokens
    then some "empty token"
    else if ltb_ℤ n.platform (pos 1) || ltb_ℤ (pos 2) n.platform
    then some "invalid platform"
    else if not allows_empty_message && is_empty n.message
    then some "empty message"
    else if not (is_empty n.push_type)
        && (not (str_eq n.push_type push_type_alert)
            && not (str_eq n.push_type push_type_background))
    then some (("push_type must be " ++ˢ push_type_alert) ++ˢ (" or " ++ˢ push_type_background))
    else none
