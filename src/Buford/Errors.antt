-- ===== src/Buford/Errors.antt =====
-- buford/push/errors.go: the errors of Apple's service. Go's `error` values are compared by identity,
-- so an error variable of the package and a fresh error with the same text are told apart.
pub mod Laws
use gaurun.Prelude.{ℕ, ℤ, String, ◌++ˢ◌, List, [], ◌∷◌, Option, none, some, lookup}

-- The `Err…` variables.
pub data Sentinel : Type 0 where
  payload_empty payload_too_large missing_device_token bad_device_token too_many_requests : Sentinel
  bad_message_id bad_expiration_date bad_priority bad_topic invalid_push_type : Sentinel
  bad_certificate bad_certificate_environment forbidden missing_topic topic_disallowed : Sentinel
  unregistered device_token_not_for_topic missing_provider_token : Sentinel
  invalid_provider_token expired_provider_token too_many_provider_token_updates : Sentinel
  duplicate_headers bad_path method_not_allowed idle_timeout shutdown : Sentinel
  internal_server_error service_unavailable : Sentinel

-- An error variable, or an error made by `errors.New`, `fmt.Errorf` or a library, by its text.
pub data Reason : Type 0 where
  sentinel : Sentinel → Reason
  new : String → Reason

-- `Error`. The timestamp is in seconds, none for Go's zero time.
pub record PushError : Type 0 where
  pub reason : Reason
  pub status : ℕ
  pub timestamp : Option ℤ

-- The values of type `error` in the program: plain ones, and `*push.Error`.
pub data GoError : Type 0 where
  plain : Reason → GoError
  api : PushError → GoError

-- The texts given to `errors.New`.
unfoldable pub sentinel_text : Sentinel → String
sentinel_text payload_empty = "PayloadEmpty"
sentinel_text payload_too_large = "PayloadTooLarge"
sentinel_text missing_device_token = "MissingDeviceToken"
sentinel_text bad_device_token = "BadDeviceToken"
sentinel_text too_many_requests = "TooManyRequests"
sentinel_text bad_message_id = "BadMessageID"
sentinel_text bad_expiration_date = "BadExpirationDate"
sentinel_text bad_priority = "BadPriority"
sentinel_text bad_topic = "BadTopic"
sentinel_text invalid_push_type = "InvalidPushType"
sentinel_text bad_certificate = "BadCertificate"
sentinel_text bad_certificate_environment = "BadCertificateEnvironment"
sentinel_text forbidden = "Forbidden"
sentinel_text missing_topic = "MissingTopic"
sentinel_text topic_disallowed = "TopicDisallowed"
sentinel_text unregistered = "Unregistered"
sentinel_text device_token_not_for_topic = "DeviceTokenNotForTopic"
sentinel_text missing_provider_token = "MissingProviderToken"
sentinel_text invalid_provider_token = "InvalidProviderToken"
sentinel_text expired_provider_token = "ExpiredProviderToken"
sentinel_text too_many_provider_token_updates = "TooManyProviderTokenUpdates"
sentinel_text duplicate_headers = "DuplicateHeaders"
sentinel_text bad_path = "BadPath"
sentinel_text method_not_allowed = "MethodNotAllowed"
sentinel_text idle_timeout = "IdleTimeout"
sentinel_text shutdown = "Shutdown"
sentinel_text internal_server_error = "InternalServerError"
sentinel_text service_unavailable = "ServiceUnavailable"

-- The cases of the `switch` in `mapErrorReason`, in its order.
abbrev pub reason_cases : List (String × Sentinel)
reason_cases =
    ("PayloadEmpty", payload_empty)
    ∷ ("PayloadTooLarge", payload_too_large)
    ∷ ("BadTopic", bad_topic)
    ∷ ("TopicDisallowed", topic_disallowed)
    ∷ ("BadMessageId", bad_message_id)
    ∷ ("BadExpirationDate", bad_expiration_date)
    ∷ ("BadPriority", bad_priority)
    ∷ ("MissingDeviceToken", missing_device_token)
    ∷ ("BadDeviceToken", bad_device_token)
    ∷ ("DeviceTokenNotForTopic", device_token_not_for_topic)
    ∷ ("Unregistered", unregistered)
    ∷ ("DuplicateHeaders", duplicate_headers)
    ∷ ("BadCertificateEnvironment", bad_certificate_environment)
    ∷ ("BadCertificate", bad_certificate)
    ∷ ("Forbidden", forbidden)
    ∷ ("BadPath", bad_path)
    ∷ ("MethodNotAllowed", method_not_allowed)
    ∷ ("TooManyRequests", too_many_requests)
    ∷ ("IdleTimeout", idle_timeout)
    ∷ ("Shutdown", shutdown)
    ∷ ("InternalServerError", internal_server_error)
    ∷ ("ServiceUnavailable", service_unavailable)
    ∷ ("MissingTopic", missing_topic)
    ∷ ("InvalidPushType", invalid_push_type)
    ∷ ("MissingProviderToken", missing_provider_token)
    ∷ ("InvalidProviderToken", invalid_provider_token)
    ∷ ("ExpiredProviderToken", expired_provider_token)
    ∷ ("TooManyProviderTokenUpdates", too_many_provider_token_updates)
    ∷ []

unfoldable pub map_error_reason : String → Reason
map_error_reason reason = elim (lookup reason reason_cases) [
  | some s ↦ sentinel s
  | none ↦ new reason
]

unfoldable pub reason_text : Reason → String
reason_text (sentinel s) = sentinel_text s
reason_text (new text) = text

-- `(*Error).Error()`. `show_time` is `%v` of a `time.Time`.
module _ (show_time : Option ℤ → String) where
  unfoldable pub describe : Sentinel → Option ℤ → String
  describe payload_empty _ = "the message payload was empty"
  describe payload_too_large _ = "the message payload was too large"
  describe missing_device_token _ = "device token was not specified"
  describe bad_device_token _ = "bad device token"
  describe too_many_requests _ =
      "too many requests were made consecutively to the same device token"
  describe bad_message_id _ = "the ID header value is bad"
  describe bad_expiration_date _ = "the Expiration header value is bad"
  describe bad_priority _ = "the apns-priority value is bad"
  describe bad_topic _ = "the Topic header was invalid"
  describe bad_certificate _ = "the certificate was bad"
  describe bad_certificate_environment _ = "certificate was for the wrong environment"
  describe forbidden _ = "there was an error with the certificate"
  describe missing_topic _ = "the Topic header of the request was not specified and was required"
  describe invalid_push_type _ = "the apns-push-type value is invalid"
  describe missing_provider_token _ =
      "no provider certificate was used to connect to APNs and Authorization header was missing or no provider token was specified"
  describe invalid_provider_token _ =
      "the provider token is not valid or the token signature could not be verified"
  describe expired_provider_token _ =
      "the provider token is stale and a new token should be generated"
  describe too_many_provider_token_updates _ = "the provider token is being updated too often"
  describe topic_disallowed _ = "pushing to this topic is not allowed"
  describe unregistered timestamp =
      ("device token is inactive for the specified topic (last invalid at " ++ˢ show_time timestamp)
      ++ˢ ")"
  describe device_token_not_for_topic _ = "device token does not match the specified topic"
  describe duplicate_headers _ = "one or more headers were repeated"
  describe bad_path _ = "the request contained a bad :path"
  describe method_not_allowed _ = "the specified :method was not POST"
  describe idle_timeout _ = "idle time out"
  describe shutdown _ = "the server is shutting down"
  describe internal_server_error _ = "an internal server error occurred"
  describe service_unavailable _ = "the service is unavailable"

  describe_reason : Reason → Option ℤ → String
  describe_reason (sentinel s) timestamp = describe s timestamp
  describe_reason (new text) timestamp = "unknown error: " ++ˢ text

  -- `err.Error()` of any error of the program
  unfoldable pub error_message : GoError → String
  unfolding describe_reason
  error_message (plain r) = reason_text r
  error_message (api e) = describe_reason e.reason e.timestamp
