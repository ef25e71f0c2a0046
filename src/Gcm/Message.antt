-- ===== src/Gcm/Message.antt =====
-- gcm/message.go and gcm/response.go.
use gaurun.Prelude.{
  ℕ, ℤ, pos, String, ◌++ˢ◌, Bool, false, not, ◌&&◌, ◌||◌, List, [], ◌∷◌, Option, none, some,
  is_empty, str_eq, ltb, ltb_ℤ, length, show_ℕ, if◌then◌else◌,
}

abbrev pub max_registration_ids : ℕ
max_registration_ids = 1000

abbrev pub max_time_to_live : ℕ
max_time_to_live = 2419200

pub record Notification : Type 0 where
  pub title : String
  pub body : String
  pub click_action : String
  pub tag : String

-- `Message`. A nil slice is `none`; the data that the program gives are texts.
pub record Message : Type 0 where
  pub registration_ids : Option (List String)
  pub collapse_key : String
  pub notification : Notification
  pub payload : List (String × String)
  pub delay_while_idle : Bool
  pub time_to_live : ℤ
  pub priority : String
  pub restricted_package_name : String
  pub dry_run : Bool

-- `NewMessage` with at least one ID: the variadic slice is nil only without any.
unfoldable pub new_message : List (String × String) → Option (List String) → Message
new_message payload reg_ids = record {
  registration_ids = reg_ids;
  collapse_key = "";
  notification = record { title = ""; body = ""; click_action = ""; tag = "" };
  payload = payload;
  delay_while_idle = false;
  time_to_live = pos 0;
  priority = "";
  restricted_package_name = "";
  dry_run = false;
}

pub record NotificationV1 : Type 0 where
  pub title : String
  pub body : String

pub record AndroidNotification : Type 0 where
  pub click_action : String
  pub tag : String

pub record Android : Type 0 where
  pub notification : AndroidNotification
  pub priority : String

pub record MessageV1 : Type 0 where
  pub token : String
  pub collapse_key : String
  pub notification : NotificationV1
  pub payload : List (String × String)
  pub delay_while_idle : Bool
  pub time_to_live : ℤ
  pub android : Android
  pub restricted_package_name : String
  pub dry_run : Bool

pub record WrappedMessage : Type 0 where
  pub message : MessageV1

pub record SendResult : Type 0 where
  pub message_id : String
  pub registration_id : String
  pub error : String

pub record Response : Type 0 where
  pub multicast_id : ℤ
  pub canonical_ids : ℤ
  pub results : List SendResult

check_fields : Message → Option String
check_fields m =
    if ltb_ℤ m.time_to_live (pos 0) || ltb_ℤ (pos max_time_to_live) m.time_to_live
    then some (
        ("the message's TimeToLive field must be an integer between 0 and "
          ++ˢ show_ℕ max_time_to_live)
        ++ˢ " (4 weeks)")
    else if not (is_empty m.priority)
        && (not (str_eq m.priority "high") && not (str_eq m.priority "normal"))
    then some "priority must be high or normal"
    else none

check_ids : Message → Option (List String) → Option String
unfolding check_fields
check_ids m none = some "the message's RegistrationIDs field must not be nil"
check_ids m (some []) = some "the message must specify at least one registration ID"
check_ids m (some (x ∷ xs)) =
    if ltb max_registration_ids (length (x ∷ xs))
    then some (
        ("the message may specify at most " ++ˢ show_ℕ max_registration_ids)
        ++ˢ " registration IDs")
    else check_fields m

-- `validate`. A nil message is `none`.
unfoldable pub validate : Option Message → Option String
unfolding check_ids
validate none = some "the message must not be nil"
validate (some m) = check_ids m m.registration_ids
