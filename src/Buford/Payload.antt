-- ===== src/Buford/Payload.antt =====
-- buford/payload/: the payloads. A Go map is an association list; `MarshalJSON` is the library's
-- encoder over the map, and is left out.
use gaurun.Prelude.{
  ℕ, String, Bool, true, false, not, ◌&&◌, ◌||◌, List, [], ◌∷◌, Option, none, some, is_empty,
  insert, ◌==◌, if◌then◌else◌,
}
use gaurun.Buford.Badge
use gaurun.Buford.Badge.{Badge}

-- payload.go
pub data Error : Type 0 where
  err_incomplete : Error

-- aps.go
pub record Alert : Type 0 where
  pub title : String
  pub title_loc_key : String
  pub title_loc_args : List String
  pub subtitle : String
  pub body : String
  pub loc_key : String
  pub loc_args : List String
  pub action_loc_key : String
  pub launch_image : String

pub record Aps : Type 0 where
  pub alert : Alert
  pub badge : Badge
  pub sound : String
  pub content_available : Bool
  pub category : String
  pub mutable_content : Bool
  pub thread_id : String

-- `len(args) == 0`
abbrev pub no_args : List String → Bool
no_args [] = true
no_args (x ∷ xs) = false

unfoldable pub is_simple : Alert → Bool
is_simple a =
    is_empty a.title
    && (is_empty a.subtitle
        && (is_empty a.launch_image
            && (is_empty a.title_loc_key
                && (no_args a.title_loc_args
                    && (is_empty a.loc_key && (no_args a.loc_args && is_empty a.action_loc_key))))))

unfoldable pub is_zero : Alert → Bool
is_zero a = is_empty a.body && is_simple a

-- What the inner map holds: a text, a number, or a whole alert.
pub data ApsValue : Type 0 where
  text : String → ApsValue
  number : ℕ → ApsValue
  alert : Alert → ApsValue

-- What the outer map holds: the dictionary under "aps", and texts that a caller adds.
pub data Value : Type 0 where
  aps : List (String × ApsValue) → Value
  custom : String → Value

abbrev pub put_when : Bool → String → ApsValue → List (String × ApsValue) → List (String × ApsValue)
put_when true key v m = insert key v m
put_when false key v m = m

unfoldable pub alert_value : Alert → ApsValue
alert_value a = if is_simple a then text a.body else alert a

-- `Map()`, the inner dictionary: the fields are put in one after another.
unfoldable pub aps_fields : Aps → List (String × ApsValue)
aps_fields a = put_when (not (is_empty a.thread_id)) "thread-id" (text a.thread_id) (
    put_when a.mutable_content "mutable-content" (number 1) (
      put_when (not (is_empty a.category)) "category" (text a.category) (
        put_when a.content_available "content-available" (number 1) (
          put_when (not (is_empty a.sound)) "sound" (text a.sound) (
            put_when (Badge.number_of a.badge).1 "badge" (number (Badge.number_of a.badge).0)
              (put_when (not (is_zero a.alert)) "alert" (alert_value a.alert) []))))))

-- `Map()`
unfoldable pub to_map : Aps → List (String × Value)
to_map a = ("aps", aps (aps_fields a)) ∷ []

-- `a.Badge == badge.Preserve`
abbrev pub is_preserve : Badge → Bool
is_preserve b = b.number == 0 && not b.is_set

-- `Validate()`; a nil receiver is `none`.
unfoldable pub validate_aps : Option Aps → Option Error
validate_aps none = some err_incomplete
validate_aps (some a) =
    if is_empty a.alert.body && is_preserve a.badge then some err_incomplete else none

-- browser.go
pub record BrowserAlert : Type 0 where
  pub title : String
  pub body : String
  pub action : String

pub record Browser : Type 0 where
  pub alert : BrowserAlert
  pub url_args : List String

unfoldable pub validate_browser : Option Browser → Option Error
validate_browser none = some err_incomplete
validate_browser (some p) =
    if is_empty p.alert.title || is_empty p.alert.body then some err_incomplete else none

-- mdm.go
pub record Mdm : Type 0 where
  pub token : String

unfoldable pub validate_mdm : Option Mdm → Option Error
validate_mdm none = some err_incomplete
validate_mdm (some p) = if is_empty p.token then some err_incomplete else none
