-- ===== src/Worker.antt =====
-- gaurun/worker.go: the retries of a push. The scheduling of the workers is in `Pool`.
pub mod Retry
pub mod Laws
pub mod Keeps
pub mod Pool
pub mod Fcm
use gaurun.Prelude.{ℤ, Bool, true, false, ◌||◌, Option, str_eq, contains, eq_ℤ, if◌then◌else◌}
use gaurun.Notification.{platform_ios, platform_android}
use gaurun.Buford.Errors.{
  Sentinel, idle_timeout, shutdown, internal_server_error, service_unavailable, Reason, sentinel,
  new, GoError, plain, api, error_message,
}
use gaurun.Prelude.{String}

-- `err == push.ErrIdleTimeout || …`: a comparison by identity.
is_server_sentinel : Sentinel → Bool
is_server_sentinel idle_timeout = true
is_server_sentinel shutdown = true
is_server_sentinel internal_server_error = true
is_server_sentinel service_unavailable = true
is_server_sentinel _ = false

unfoldable pub is_retried_ios : GoError → Bool
unfolding is_server_sentinel
is_retried_ios (plain (sentinel s)) = is_server_sentinel s
is_retried_ios (plain (new text)) = false
is_retried_ios (api e) = false

unfoldable pub is_retried_text : String → Bool
is_retried_text text =
    str_eq text "Unavailable" || (str_eq text "InternalServerError" || contains text "Timeout")

-- `isExternalServerError`
unfoldable pub is_external_server_error : (Option ℤ → String) → GoError → ℤ → Bool
unfolding is_retried_ios is_retried_text
is_external_server_error show_time err platform =
    if eq_ℤ platform platform_ios
    then is_retried_ios err
    else if eq_ℤ platform platform_android
    then is_retried_text (error_message show_time err)
    else false
