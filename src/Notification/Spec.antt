-- ===== src/Notification/Spec.antt =====
-- What `enqueueNotifications` of gaurun/notification.go is to do, in two passes: first a plan of one
-- item for each rejected notification and for each token of the others, then the numbering, where
-- the k-th token of the plan has the number `seq_id + k` (a uint64).
use gaurun.Prelude.{
  ℕ, String, ◌≡◌, ◌≢◌, ◌⊎◌, Bool, true, List, [], ◌∷◌, ◌++◌, Option, none, some, ◌+◌, ◌%◌, ◌^◌, map,
  All,
}
use gaurun.Conf.{ConfToml}
use gaurun.Notification.{
  Notification, platform_ios, platform_android, push_type_alert, push_type_background,
}
use gaurun.Notification.Validate.{validate_notification}
use gaurun.Notification.Enqueue.{Event, logged_error, queued, enabled_push, accept, for_token}

-- What a notification needs to be accepted.
pub record IsWellFormed (allows_empty_message : Bool) (n : Notification) : Type 0 where
  pub tokens : All (λ t. t ≢ "") n.tokens
  pub platform : (n.platform ≡ platform_ios) ⊎ (n.platform ≡ platform_android)
  pub message : (allows_empty_message ≡ true) ⊎ (n.message ≢ "")
  pub push_type :
      (n.push_type ≡ "") ⊎ (n.push_type ≡ push_type_alert) ⊎ (n.push_type ≡ push_type_background)

pub data Item : Type 0 where
  rejected : String → Item
  push : Notification → String → Item

abbrev pub items_of : Notification → Option String → List Item
items_of n (some e) = rejected e ∷ []
items_of n none = map (push n) n.tokens

unfoldable pub plan : ConfToml → List Notification → List Item
plan conf [] = []
plan conf (n ∷ ns) =
    items_of n (validate_notification conf.core.allows_empty_message n) ++ plan conf ns

abbrev pub pushes : List Item → ℕ
pushes [] = 0
pushes (rejected e ∷ items) = pushes items
pushes (push n token ∷ items) = pushes items + 1

-- `k` tokens stand before the items.
unfoldable pub render : ConfToml → ℕ → ℕ → List Item → List Event
render conf seq_id k [] = []
render conf seq_id k (rejected e ∷ items) = logged_error e ∷ render conf seq_id k items
render conf seq_id k (push n token ∷ items) =
    accept (enabled_push conf n) token (for_token n token ((seq_id + (k + 1)) % 2 ^ 64))
    ++ render conf seq_id (k + 1) items

-- What reaches the queue.
unfoldable pub queued_of : List Event → List Notification
queued_of [] = []
queued_of (queued n ∷ events) = n ∷ queued_of events
queued_of (_ ∷ events) = queued_of events

-- Ready for a pusher: one token, which is not empty, for a platform that is enabled.
pub record IsDeliverable (conf : ConfToml) (n : Notification) : Type 0 where
  pub token : String
  pub only : n.tokens ≡ token ∷ []
  pub nonempty : token ≢ ""
  pub enabled :
      ((n.platform ≡ platform_ios) × (conf.ios.enabled ≡ true))
      ⊎ ((n.platform ≡ platform_android) × (conf.android.enabled ≡ true))

abbrev pub Distinct : List ℕ → Type 0
Distinct [] = Unit
Distinct (x ∷ xs) = All (λ y. y ≢ x) xs × Distinct xs
