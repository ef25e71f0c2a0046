-- ===== src/Worker/Keeps.antt =====
-- What every call of the pusher keeps, the retry loop of gaurun/worker.go keeps.
use gaurun.Prelude.{ℕ, zero, suc, ℤ, sym, subst, String, Option, none, some}
use gaurun.Buford.Errors.{GoError}
use gaurun.Notification.{Notification}
use gaurun.Worker.Retry.{Ended, ended, retried, push_sync}
use gaurun.Worker.Laws.{Retries, ended_of, push_sync-Stops}

module _ {S : Type 0} (P : S → Type 0) where
  abbrev pub KeptBy : Option (Option GoError × S) → Type 0
  KeptBy none = Unit
  KeptBy (some (err, s)) = P s

  abbrev pub EndedIn : Ended S → Type 0
  EndedIn (ended err s) = P s
  EndedIn _ = Unit

  ended_of-EndedIn : (o : Option (Option GoError × S)) → KeptBy o → EndedIn (ended_of o)
  ended_of-EndedIn none h = tt
  ended_of-EndedIn (some (err, s)) h = h

  module _ (show_time : Option ℤ → String) (pusher : Notification → S → Option (Option GoError × S))
      (keeps : (req : Notification) (s : S) → P s → KeptBy (pusher req s)) where
    Retries-KeptBy :
        (k : ℕ) (req : Notification) (s : S) (o : Option (Option GoError × S))
        → P s
        → Retries show_time pusher k req s o
        → KeptBy o
    Retries-KeptBy zero req s o p called = subst KeptBy called (keeps req s p)
    Retries-KeptBy (suc k) req s o p (x, s', called, external, more) =
        Retries-KeptBy k (retried req) s' o (subst KeptBy called (keeps req s p)) more

    pub push_sync-EndedIn :
        (req : Notification) (retry_max : ℤ) (s : S)
        → P s
        → EndedIn (push_sync show_time pusher req retry_max s)
    push_sync-EndedIn req retry_max s p =
        let stops = push_sync-Stops show_time pusher req retry_max s in
        subst EndedIn (sym stops.result_eq) (
          ended_of-EndedIn stops.outcome
            (Retries-KeptBy stops.retries req s stops.outcome p stops.calls))
