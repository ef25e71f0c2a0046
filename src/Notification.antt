-- ===== src/Notification.antt =====
-- gaurun/notification.go and gaurun/const.go: the request's notifications.
pub mod Validate
pub mod Enqueue
pub mod Concurrent
pub mod Handler
pub mod Laws
pub mod Spec
pub mod Queued
pub mod Answers
use gaurun.Prelude.{ℕ, ℤ, pos, String, Bool, List}

-- `PlatFormIos`, `PlatFormAndroid`: iota + 1.
abbrev pub platform_ios : ℤ
platform_ios = pos 1

abbrev pub platform_android : ℤ
platform_android = pos 2

abbrev pub push_type_alert : String
push_type_alert = "alert"

abbrev pub push_type_background : String
push_type_background = "background"

pub record ExtendJson : Type 0 where
  pub key : String
  pub value : String

-- `RequestGaurunNotification`. `id` is a uint64, the other numbers are of type int.
pub record Notification : Type 0 where
  pub tokens : List String
  pub platform : ℤ
  pub message : String
  pub identifier : String
  -- Android
  pub collapse_key : String
  pub delay_while_idle : Bool
  pub time_to_live : ℤ
  pub priority : String
  pub click_action : String
  pub tag : String
  -- iOS
  pub title : String
  pub subtitle : String
  pub push_type : String
  pub badge : ℤ
  pub category : String
  pub sound : String
  pub content_available : Bool
  pub mutable_content : Bool
  pub expiry : ℤ
  pub retry : ℤ
  pub extend : List ExtendJson
  -- meta
  pub id : ℕ
