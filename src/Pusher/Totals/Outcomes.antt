-- ===== src/Pusher/Totals/Outcomes.antt =====
-- How the pushes of what a worker receives end, and what they do to the books: gaurun/worker.go,
-- gaurun/stat.go.
use gaurun.Prelude.{
  ℕ, ℤ, ◌+◌, ◌≡◌, refl, String, List, [], ◌∷◌, Option, none, some, eq_ℤ, if◌then◌else◌,
}
use gaurun.Http.{Result}
use gaurun.Conf.{ConfToml}
use gaurun.Notification.{Notification, platform_ios, platform_android}
use gaurun.Buford.Payload.{Value}
use gaurun.Buford.Push as Buford
use gaurun.Buford.Errors.{GoError}
use gaurun.Gcm.Client as Gcm
use gaurun.Pusher.{World}
use gaurun.Pusher.Dispatch.{dispatch, push_all}
use gaurun.Worker.Retry.{ended, fault, no_fuel, budget}
use gaurun.Pusher.Totals as Totals
use gaurun.Pusher.Totals.{Totals}

-- The pushes of a platform that ended with a success, and with an error.
abbrev pub sent_by : ℤ → ℤ → Option GoError → ℕ
sent_by platform p err = if eq_ℤ p platform then Totals.sent err else 0

abbrev pub unsent_by : ℤ → ℤ → Option GoError → ℕ
unsent_by platform p err = if eq_ℤ p platform then Totals.unsent err else 0

abbrev pub count_sent : ℤ → List (ℤ × Option GoError) → ℕ
count_sent platform [] = 0
count_sent platform ((p, err) ∷ outs) = sent_by platform p err + count_sent platform outs

abbrev pub count_failed : ℤ → List (ℤ × Option GoError) → ℕ
count_failed platform [] = 0
count_failed platform ((p, err) ∷ outs) = unsent_by platform p err + count_failed platform outs

-- How many retries notifications have left.
abbrev pub budget_of : ConfToml → Notification → ℕ
budget_of conf n = if eq_ℤ n.platform platform_ios then 0 else budget n conf.android.retry_max

abbrev pub budgets : ConfToml → List Notification → ℕ
budgets conf [] = 0
budgets conf (n ∷ ns) = budget_of conf n + budgets conf ns

module _ {E C Key : Type 0} (apns : Buford.Outside E Key) (fcm : Gcm.Outside E C)
    (marshal : List (String × Value) → Result String) (show_time : Option ℤ → String)
    (client : Gcm.Client) (access_key_json : String) where
  -- The platform of each notification, and the error that its last push ended with, or none.
  unfoldable pub outcomes : ConfToml → List Notification → World E Key → List (ℤ × Option GoError)
  outcomes conf [] w = []
  outcomes conf (n ∷ ns) w =
      elim (dispatch apns fcm marshal show_time client access_key_json conf n w) [
        | none ↦ outcomes conf ns w
        | some (ended err w') ↦ (n.platform, err) ∷ outcomes conf ns w'
        | some fault ↦ []
        | some no_fuel ↦ []
      ]

  -- What the pushes with these outcomes do to the books.
  abbrev pub TotalsBy : (most : ℕ) → List (ℤ × Option GoError) → (w w' : World E Key) → Type 0
  TotalsBy most outs w w' =
      Totals (count_sent platform_ios outs) (count_failed platform_ios outs)
        (count_sent platform_android outs) (count_failed platform_android outs) most w w'

  pub outcomes-cons :
      (conf : ConfToml) (n : Notification) (ns : List Notification) (w : World E Key)
      (err : Option GoError) (w₁ : World E Key)
      → dispatch apns fcm marshal show_time client access_key_json conf n w ≡ some (ended err w₁)
      → outcomes conf (n ∷ ns) w ≡ (n.platform, err) ∷ outcomes conf ns w₁
  unfolding outcomes
  outcomes-cons conf n ns w err w₁ e = rw (e, outcomes) refl

  pub push_all-cons :
      (conf : ConfToml) (n : Notification) (ns : List Notification) (w : World E Key)
      (err : Option GoError) (w₁ : World E Key)
      → dispatch apns fcm marshal show_time client access_key_json conf n w ≡ some (ended err w₁)
      → push_all apns fcm marshal show_time client access_key_json conf (n ∷ ns) w
        ≡ push_all apns fcm marshal show_time client access_key_json conf ns w₁
  unfolding push_all
  push_all-cons conf n ns w err w₁ e = rw (e, push_all) refl
