-- ===== src/Pusher/Totals.antt =====
-- The counters of gaurun/stat.go and the log over all that a worker pushes: gaurun/notification.go,
-- gaurun/worker.go.
pub mod Served
pub mod Outcomes
use gaurun.Prelude.{ℕ, ◌+◌, ◌%◌, ◌^◌, ◌<◌, ◌≤◌, ◌≡◌, arith, Option, none, some, length}
use gaurun.Stat.{Stat}
use gaurun.Buford.Errors.{GoError}
use gaurun.Pusher.{World}
use gaurun.Pusher.Books.{Books}

-- Each counter holds a value of 64 bits.
pub record IsSmall (s : Stat) : Type 0 where
  pub ios_success : s.ios_success < 2 ^ 64
  pub ios_error : s.ios_error < 2 ^ 64
  pub android_success : s.android_success < 2 ^ 64
  pub android_error : s.android_error < 2 ^ 64

-- One for an outcome without an error, one for an error.
abbrev pub sent : Option GoError → ℕ
sent none = 1
sent (some x) = 0

abbrev pub unsent : Option GoError → ℕ
unsent none = 0
unsent (some x) = 1

-- What pushes do to the books, of which so many have ended with a success or with an error on each
-- platform, with at most `most` retries.
pub record Totals {E Key : Type 0} (ios_sent ios_failed android_sent android_failed most : ℕ)
    (w w' : World E Key) : Type 0 where
  pub retries : ℕ
  pub few : retries ≤ most
  pub ios_success : w'.stats.ios_success ≡ (w.stats.ios_success + ios_sent) % 2 ^ 64
  pub ios_error : w'.stats.ios_error ≡ (w.stats.ios_error + ios_failed) % 2 ^ 64
  pub android_success : w'.stats.android_success ≡ (w.stats.android_success + android_sent) % 2 ^ 64
  pub android_error :
      w'.stats.android_error ≡ (w.stats.android_error + (android_failed + retries)) % 2 ^ 64
  pub lines :
      length w'.lines
      ≡ length w.lines + (ios_sent + ios_failed + android_sent + android_failed + retries)

module _ {E Key : Type 0} where
  pub Totals-IsSmall :
      {is ie ad ae most : ℕ} {w w' : World E Key} → Totals is ie ad ae most w w' → IsSmall w'.stats
  Totals-IsSmall t = record {
    ios_success = omega (arith, t.ios_success);
    ios_error = omega (arith, t.ios_error);
    android_success = omega (arith, t.android_success);
    android_error = omega (arith, t.android_error);
  }

  pub Totals-none : (w : World E Key) → IsSmall w.stats → Totals 0 0 0 0 0 w w
  Totals-none w small = record {
    retries = 0;
    few = omega arith;
    ios_success = omega (arith, small.ios_success);
    ios_error = omega (arith, small.ios_error);
    android_success = omega (arith, small.android_success);
    android_error = omega (arith, small.android_error);
    lines = omega arith;
  }

  pub Totals-then :
      {is ie ad ae m is' ie' ad' ae' m' : ℕ} {w₀ w₁ w₂ : World E Key}
      → Totals is ie ad ae m w₀ w₁
      → Totals is' ie' ad' ae' m' w₁ w₂
      → Totals (is + is') (ie + ie') (ad + ad') (ae + ae') (m + m') w₀ w₂
  Totals-then t u = record {
    retries = t.retries + u.retries;
    few = omega (arith, t.few, u.few);
    ios_success = omega (arith, t.ios_success, u.ios_success);
    ios_error = omega (arith, t.ios_error, u.ios_error);
    android_success = omega (arith, t.android_success, u.android_success);
    android_error = omega (arith, t.android_error, u.android_error);
    lines = omega (arith, t.lines, u.lines);
  }

  pub Books-Totals :
      (retries most : ℕ) (err : Option GoError) (w w' : World E Key)
      → IsSmall w.stats
      → retries ≤ most
      → Books retries err w w'
      → Totals 0 0 (sent err) (unsent err) most w w'
  Books-Totals retries most none w w' small few (lines, success, error, ios, ios') = record {
    retries = retries;
    few = few;
    ios_success = omega (arith, ios, small.ios_success);
    ios_error = omega (arith, ios', small.ios_error);
    android_success = success;
    android_error = omega (arith, error);
    lines = omega (arith, lines);
  }
  Books-Totals retries most (some x) w w' small few (lines, success, error, ios, ios') = record {
    retries = retries;
    few = few;
    ios_success = omega (arith, ios, small.ios_success);
    ios_error = omega (arith, ios', small.ios_error);
    android_success = omega (arith, success, small.android_success);
    android_error = omega (arith, error);
    lines = omega (arith, lines);
  }
