-- ===== src/Worker/Retry.antt =====
-- gaurun/worker.go: the loop behind the label `Retry`, which `pushSync` and `pushAsync` share. The
-- pusher is any function that changes a state `S`.
use gaurun.Prelude.{
  ℕ, zero, suc, ℤ, pos, Bool, true, false, ◌&&◌, Option, none, some, ◌-◌, ◌+ℤ◌, pos_part, neg_part,
  ltb_ℤ, ◌+◌, String,
}
use gaurun.Buford.Errors.{GoError}
use gaurun.Notification.{Notification}
use gaurun.Worker.{is_external_server_error}

-- `req.Retry++`
unfoldable pub retried : Notification → Notification
retried req = record req { retry = req.retry +ℤ pos 1 }

-- How often the loop may still go round: `retryMax - req.Retry`, at least 0.
unfoldable pub budget : Notification → ℤ → ℕ
budget req retry_max =
    (pos_part retry_max + neg_part req.retry) - (pos_part req.retry + neg_part retry_max)

-- How a loop ends: with the last result and the state, by a fault of the pusher, or for want of fuel.
pub data Ended (S : Type 0) : Type 0 where
  ended : Option GoError → S → Ended S
  fault : Ended S
  no_fuel : Ended S

module _ {S : Type 0} (show_time : Option ℤ → String)
    (pusher : Notification → S → Option (Option GoError × S)) where
  -- `err != nil && req.Retry < retryMax && isExternalServerError(err, req.Platform)`
  unfoldable pub goes_on : Notification → ℤ → Option GoError → Bool
  goes_on req retry_max none = false
  goes_on req retry_max (some err) =
      ltb_ℤ req.retry retry_max && is_external_server_error show_time err req.platform

  unfoldable pub push_loop : ℕ → Notification → ℤ → S → Ended S
  push_loop zero req retry_max s = no_fuel
  push_loop (suc fuel) req retry_max s = elim (pusher req s) [
    | none ↦ fault
    | some (err, s') ↦ elim (goes_on req retry_max err) [
      | true ↦ push_loop fuel (retried req) retry_max s'
      | false ↦ ended err s'
    ]
  ]

  -- `pushSync`, and `pushAsync` up to its last two lines
  unfoldable pub push_sync : Notification → ℤ → S → Ended S
  push_sync req retry_max s = push_loop (suc (budget req retry_max)) req retry_max s
