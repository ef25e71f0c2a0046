-- ===== src/Pusher/Books.antt =====
-- About the counters and log lines of the pushes for Android with their retries:
-- gaurun/notification.go, gaurun/worker.go, gaurun/stat.go.
use gaurun.Prelude.{
  ℕ, zero, suc, ℤ, ◌+◌, ◌%◌, ◌^◌, ◌<◌, ◌≤◌, ◌≡◌, refl, ap, sym, ◌∙◌, arith, inl, inr, String,
  Option, none, some, length, length-append, Option-cases,
}
use gaurun.Notification.{Notification}
use gaurun.Buford.Errors.{GoError}
use gaurun.Gcm.Client as Gcm
use gaurun.Gcm.Client.{Sent, send}
use gaurun.Pusher.{World}
use gaurun.Pusher.Ios.{first_token}
use gaurun.Pusher.Android.{finish_android, push_android_token, push_notification_android}
use gaurun.Worker.Retry.{Ended, ended, retried, push_sync, budget}
use gaurun.Worker.Laws.{Retries, ended_of, push_sync-Stops}

-- What the books say after a call and `retries` further ones that end with `err`: a line for every
-- call, an error for every call that failed, a success if the last one did not.
abbrev pub Books :
    {E Key : Type 0} → (retries : ℕ) → Option GoError → World E Key → World E Key → Type 0
Books retries none w w' =
    (length w'.lines ≡ length w.lines + suc retries)
    × (w'.stats.android_success ≡ (w.stats.android_success + 1) % 2 ^ 64)
    × (w'.stats.android_error ≡ (w.stats.android_error + retries) % 2 ^ 64)
    × (w'.stats.ios_success ≡ w.stats.ios_success)
    × (w'.stats.ios_error ≡ w.stats.ios_error)
Books retries (some x) w w' =
    (length w'.lines ≡ length w.lines + suc retries)
    × (w'.stats.android_success ≡ w.stats.android_success)
    × (w'.stats.android_error ≡ (w.stats.android_error + suc retries) % 2 ^ 64)
    × (w'.stats.ios_success ≡ w.stats.ios_success)
    × (w'.stats.ios_error ≡ w.stats.ios_error)

-- A failed call before the others.
Books-suc :
    {E Key : Type 0} (retries : ℕ) (x : GoError) (err : Option GoError) (w w₁ w' : World E Key)
    → Books 0 (some x) w w₁
    → Books retries err w₁ w'
    → Books (suc retries) err w w'
Books-suc retries x none w w₁ w' first more = ground (arith, first, more)
Books-suc retries x (some y) w w₁ w' first more = ground (arith, first, more)

abbrev outcome_of : {S : Type 0} → Ended S → Option (Option GoError × S)
outcome_of (ended err s) = some (err, s)
outcome_of _ = none

-- The books after one call.
abbrev BooksOf : {E Key : Type 0} → Option (Option GoError × World E Key) → World E Key → Type 0
BooksOf none w = Unit
BooksOf (some (err, w')) w = Books 0 err w w'

module _ {E C Key : Type 0} (o : Gcm.Outside E C) (now : E → ℕ × E) (client : Gcm.Client)
    (access_key_json : String) (show_time : Option ℤ → String) where
  abbrev pusher : Notification → World E Key → Option (Option GoError × World E Key)
  pusher = push_notification_android o now client access_key_json

  finish_android-Books :
      (req : Notification) (token : String) (ptime : ℕ) (sent : Sent) (w : World E Key) (env : E)
      → length req.tokens ≡ 1
      → w.stats.android_error < 2 ^ 64
      → BooksOf
          (finish_android o now client access_key_json req token ptime sent
            (record w { env = env }))
          w
  unfolding finish_android
  finish_android-Books req token ptime (Gcm.failed text) w env one small =
      (length-append w.lines _, refl, refl, refl, refl)
  finish_android-Books req token ptime (Gcm.response r) w env one small =
      (length-append w.lines _, ground (arith, one), ground (arith, small), refl, refl)
  finish_android-Books req token ptime Gcm.fault w env one small = tt

  push_android-Books :
      (req : Notification) (w : World E Key)
      → length req.tokens ≡ 1
      → w.stats.android_error < 2 ^ 64
      → BooksOf (pusher req w) w
  unfolding push_notification_android push_android_token
  push_android-Books req w one small = elim (Option-cases (first_token req.tokens)) [
    | inl no_token ↦ rw (no_token, push_notification_android) tt
    | inr (token, given) ↦
        rw (given, push_notification_android) (finish_android-Books req token _ _ w _ one small)
  ]

  Books-error :
      (err : Option GoError) (w w' : World E Key)
      → Books 0 err w w'
      → w'.stats.android_error < 2 ^ 64
  Books-error none w w' h = ground (arith, h)
  Books-error (some x) w w' h = ground (arith, h)

  Retries-Books :
      (k : ℕ) (req : Notification) (w : World E Key) (err : Option GoError) (w' : World E Key)
      → length req.tokens ≡ 1
      → w.stats.android_error < 2 ^ 64
      → Retries show_time pusher k req w (some (err, w'))
      → Books k err w w'
  unfolding retried
  Retries-Books zero req w err w' one small h = rw h at (push_android-Books req w one small)
  Retries-Books (suc k) req w err w' one small (x, w₁, called, external, more) =
      let first : Books 0 (some x) w w₁ = rw called at (push_android-Books req w one small) in
      Books-suc k x err w w₁ w' first
        (Retries-Books k (retried req) w₁ err w' one (Books-error (some x) w w₁ first) more)

  -- When the push of a notification of one token for Android has ended, the log has one line more
  -- for each of its calls, of which there are at most `retryMax - Retry` and one; each failed call
  -- was counted as an error of Android, and a last call that succeeded as one success; the counters
  -- of iOS are as before. (The counters wrap at 64 bits.)
  pub push_sync-android-Books :
      (req : Notification) (retry_max : ℤ) (w : World E Key) (err : Option GoError)
      (w' : World E Key)
      → length req.tokens ≡ 1
      → w.stats.android_error < 2 ^ 64
      → push_sync show_time pusher req retry_max w ≡ ended err w'
      → (retries : ℕ) × (retries ≤ budget req retry_max) × Books retries err w w'
  push_sync-android-Books req retry_max w err w' one small result =
      let stops = push_sync-Stops show_time pusher req retry_max w in
      elim (Option-cases stops.outcome) [
        | inl faulty ↦ absurd (ground (arith, faulty, result, stops.result_eq))
        | inr ((last, w₁), fine) ↦
            let same : ended err w' ≡ ended last w₁ =
              sym result ∙ stops.result_eq ∙ ap ended_of fine in
            let ends : stops.outcome ≡ some (err, w') = fine ∙ sym (ap outcome_of same) in
            (
              stops.retries,
              stops.at_most,
              Retries-Books stops.retries req w err w' one small (rw ends at stops.calls),
            )
      ]
