-- ===== src/Server/Signals.antt =====
-- cmd/gaurun/gaurun.go: the goroutine that serves, the handler of SIGHUP, and the shutdown at
-- SIGTERM, as effects. `none` is a call that gives no error.
use gaurun.Prelude.{
  ℕ, suc, ℤ, String, ◌++ˢ◌, List, [], ◌∷◌, ◌++◌, Option, none, some, show_ℕ, ◌==◌, if◌then◌else◌,
}
use gaurun.Conf.{ConfToml}
use gaurun.Log.Setup.{Writer}
use gaurun.Server.Apns.{seconds}
use gaurun.Server.Run.{Effect, Severity, info, warn, error, log_error, wait_pushers}

abbrev report : Severity → String → Option String → List Effect
report severity about none = []
report severity about (some text) = log_error severity (about ++ˢ text) ∷ []

-- The log lines around `RunServer`, whose error is `served`.
unfoldable pub serving : (served : Option String) → List Effect
serving served = log_error info "start server" ∷ report info "failed to serve: " served

pub data Signal : Type 0 where
  sighup other : Signal

-- `reopen` is `Reopen` of a log, at a number of calls before.
module _ (reopen : Writer → ℕ → Option String)
    (access_log_reopener error_log_reopener : Writer) where
  unfoldable pub sighup_handler : ℕ → List Effect
  sighup_handler before =
      report warn "failed to reopen access log: " (reopen access_log_reopener before)
      ++ report warn "failed to reopen error log: " (reopen error_log_reopener before)

  -- `signalHandler`, over the signals that come
  unfoldable pub signal_handler : ℕ → List Signal → List Effect
  signal_handler before [] = []
  signal_handler before (sighup ∷ signals) =
      sighup_handler before ++ signal_handler (suc before) signals
  signal_handler before (other ∷ signals) = signal_handler before signals

-- After SIGTERM; `server_shutdown` is `server.Shutdown` with a deadline after so many nanoseconds.
unfoldable pub shut_down : (server_shutdown : ℤ → Option String) → ConfToml → List Effect
shut_down server_shutdown conf =
    log_error info "shutdown server"
    ∷ (report error "failed to shutdown server: "
          (server_shutdown (seconds conf.core.shutdown_timeout))
        ++ wait_pushers ∷ log_error info "successfully shutdown" ∷ [])

-- The goroutine that logs the length of the queue during the shutdown, over the lengths that it
-- reads, one a second.
unfoldable pub log_queue : List ℕ → List Effect
log_queue [] = []
log_queue (queue ∷ lengths) =
    let further = log_queue lengths in
    if queue == 0
    then []
    else log_error info ("wait until queue is empty. Current queue len: " ++ˢ show_ℕ queue)
      ∷ further
