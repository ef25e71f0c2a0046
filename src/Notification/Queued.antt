-- ===== src/Notification/Queued.antt =====
-- About what `enqueueNotifications` of gaurun/notification.go puts on the queue.
use gaurun.Prelude.{
  ℕ, String, ◌≡◌, refl, ◌≢◌, ◌⊎◌, inl, inr, true, List, [], ◌∷◌, ◌++◌, Option, none, some, ◌+◌, ◌%◌,
  ◌^◌, ◌<◌, ◌≤◌, map, All, All-append, arith, Bool-cases,
}
use gaurun.Conf.{ConfToml}
use gaurun.Notification.{Notification, platform_ios, platform_android}
use gaurun.Notification.Validate.{validate_notification}
use gaurun.Notification.Enqueue.{
  Event, logged, logged_error, queued, enabled_push, accept, for_token, enqueue_notifications,
}
use gaurun.Notification.Spec.{
  IsWellFormed, Item, rejected, push, items_of, plan, pushes, render, queued_of, IsDeliverable,
  Distinct,
}
use gaurun.Notification.Laws.{validate_notification_iff, enqueue_notifications-eq-render}

pub queued_of-append : (xs ys : List Event) → queued_of (xs ++ ys) ≡ queued_of xs ++ queued_of ys
unfolding queued_of
queued_of-append [] ys = refl
queued_of-append (queued n ∷ xs) ys = rw (queued_of-append xs ys)
queued_of-append (logged l ∷ xs) ys = queued_of-append xs ys
queued_of-append (logged_error e ∷ xs) ys = queued_of-append xs ys

-- What the plan knows of an item.
abbrev IsSound : ConfToml → Item → Type 0
IsSound conf (rejected e) = Unit
IsSound conf (push n t) = IsWellFormed conf.core.allows_empty_message n × (t ≢ "")

map-push-IsSound :
    (conf : ConfToml) (n : Notification) (tokens : List String)
    → IsWellFormed conf.core.allows_empty_message n
    → All (λ t. t ≢ "") tokens
    → All (IsSound conf) (map (push n) tokens)
map-push-IsSound conf n [] w h = tt
map-push-IsSound conf n (t ∷ ts) w h = ((w, h.0), map-push-IsSound conf n ts w h.1)

plan-IsSound : (conf : ConfToml) (ns : List Notification) → All (IsSound conf) (plan conf ns)
unfolding plan
plan-IsSound conf [] = tt
plan-IsSound conf (n ∷ ns) =
    All-append (IsSound conf) (items_of n e) (plan conf ns) (here e refl) (plan-IsSound conf ns)
  where
    e : Option String
    e = validate_notification conf.core.allows_empty_message n

    here :
        (o : Option String)
        → validate_notification conf.core.allows_empty_message n ≡ o
        → All (IsSound conf) (items_of n o)
    here (some _) _ = (tt, tt)
    here none p =
        let w = (validate_notification_iff conf.core.allows_empty_message n).0 p in
        map-push-IsSound conf n n.tokens w w.tokens

enabled_platform :
    (conf : ConfToml) (n : Notification)
    → enabled_push conf n ≡ true
    → ((n.platform ≡ platform_ios) × (conf.ios.enabled ≡ true))
      ⊎ ((n.platform ≡ platform_android) × (conf.android.enabled ≡ true))
unfolding enabled_push
enabled_platform conf n h = ground arith

pub accept-IsDeliverable :
    (conf : ConfToml) (n : Notification) (t : String) (id : ℕ)
    → IsSound conf (push n t)
    → All (IsDeliverable conf) (queued_of (accept (enabled_push conf n) t (for_token n t id)))
unfolding accept for_token queued_of
accept-IsDeliverable conf n t id s = elim (Bool-cases (enabled_push conf n)) [
  | inl on ↦ rw on (
      (record { token = t; only = refl; nonempty = s.1; enabled = enabled_platform conf n on }, tt))
  | inr off ↦ rw off tt
]

render-IsDeliverable :
    (conf : ConfToml) (seq_id k : ℕ) (items : List Item)
    → All (IsSound conf) items
    → All (IsDeliverable conf) (queued_of (render conf seq_id k items))
unfolding render queued_of
render-IsDeliverable conf seq_id k [] h = tt
render-IsDeliverable conf seq_id k (rejected e ∷ items) h =
    render-IsDeliverable conf seq_id k items h.1
render-IsDeliverable conf seq_id k (push n t ∷ items) h =
    let id = (seq_id + (k + 1)) % 2 ^ 64 in
    let first = accept (enabled_push conf n) t (for_token n t id) in
    let later = render conf seq_id (k + 1) items in
    rw (queued_of-append first later) (
      All-append (IsDeliverable conf) (queued_of first) (queued_of later)
        (accept-IsDeliverable conf n t id h.0) (render-IsDeliverable conf seq_id (k + 1) items h.1))

-- From any value of the counter, a uint64, every notification that `enqueueNotifications` puts on
-- the queue has exactly one token, which is not empty, and is for a known platform that is enabled.
pub enqueue_notifications-IsDeliverable :
    (conf : ConfToml) (seq_id : ℕ) (ns : List Notification)
    → seq_id < 2 ^ 64
    → All (IsDeliverable conf) (queued_of (enqueue_notifications conf seq_id ns).0)
enqueue_notifications-IsDeliverable conf seq_id ns h =
    rw (enqueue_notifications-eq-render conf seq_id ns h)
      (render-IsDeliverable conf seq_id 0 (plan conf ns) (plan-IsSound conf ns))

-- Numbers given out after the first `k`, at most `n` of them.
abbrev IsNumbered : ℕ → ℕ → ℕ → Notification → Type 0
IsNumbered seq_id k n x = (i : ℕ) × (k < i) × (i ≤ n) × (x.id ≡ (seq_id + i) % 2 ^ 64)

IsNumbered-weaken :
    (seq_id k n : ℕ) (xs : List Notification)
    → All (IsNumbered seq_id (k + 1) n) xs
    → All (IsNumbered seq_id k n) xs
IsNumbered-weaken seq_id k n [] h = tt
IsNumbered-weaken seq_id k n (x ∷ xs) ((i, above, below, e), h) =
    ((i, omega arith, below, e), IsNumbered-weaken seq_id k n xs h)

IsNumbered-ne :
    (seq_id k n : ℕ) (xs : List Notification)
    → n ≤ 2 ^ 64
    → All (IsNumbered seq_id (k + 1) n) xs
    → All (λ y. y ≢ (seq_id + (k + 1)) % 2 ^ 64) (map (λ (x : Notification). x.id) xs)
IsNumbered-ne seq_id k n [] small h = tt
IsNumbered-ne seq_id k n (x ∷ xs) small ((i, above, below, e), h) =
    (λ p. omega arith, IsNumbered-ne seq_id k n xs small h)

number_one :
    (conf : ConfToml) (seq_id k n : ℕ) (x : Notification) (t : String) (later : List Event)
    → k + 1 ≤ n
    → n ≤ 2 ^ 64
    → All (IsNumbered seq_id (k + 1) n) (queued_of later)
    → Distinct (map (λ (x : Notification). x.id) (queued_of later))
    → let events =
        accept (enabled_push conf x) t (for_token x t ((seq_id + (k + 1)) % 2 ^ 64)) ++ later in
      All (IsNumbered seq_id k n) (queued_of events)
      × Distinct (map (λ (x : Notification). x.id) (queued_of events))
unfolding accept for_token queued_of
number_one conf seq_id k n x t later fits small h d =
    let wider = IsNumbered-weaken seq_id k n (queued_of later) h in
    elim (Bool-cases (enabled_push conf x)) [
      | inl on ↦ rw on (
        ((k + 1, omega arith, fits, refl), wider),
        (IsNumbered-ne seq_id k n (queued_of later) small h, d),
      )
      | inr off ↦ rw off (wider, d)
    ]

-- The notifications that a rendering queues, and their numbers.
render_numbers :
    (conf : ConfToml) (seq_id k n : ℕ) (items : List Item)
    → k + pushes items ≤ n
    → n ≤ 2 ^ 64
    → All (IsNumbered seq_id k n) (queued_of (render conf seq_id k items))
      × Distinct (map (λ (x : Notification). x.id) (queued_of (render conf seq_id k items)))
unfolding render queued_of
render_numbers conf seq_id k n [] fits small = (tt, tt)
render_numbers conf seq_id k n (rejected e ∷ items) fits small =
    render_numbers conf seq_id k n items fits small
render_numbers conf seq_id k n (push x t ∷ items) fits small =
    let (later, distinct) = render_numbers conf seq_id (k + 1) n items (omega arith) small in
    number_one conf seq_id k n x t (render conf seq_id (k + 1) items) (omega arith) small later
      distinct

-- From any value of the counter, a uint64, and with at most 2^64 tokens in the plan, no two
-- notifications that `enqueueNotifications` queues have the same number.
pub enqueue_notifications-Distinct :
    (conf : ConfToml) (seq_id : ℕ) (ns : List Notification)
    → seq_id < 2 ^ 64
    → pushes (plan conf ns) ≤ 2 ^ 64
    → Distinct
        (map (λ (x : Notification). x.id) (queued_of (enqueue_notifications conf seq_id ns).0))
enqueue_notifications-Distinct conf seq_id ns h few =
    rw (enqueue_notifications-eq-render conf seq_id ns h)
      (render_numbers conf seq_id 0 (pushes (plan conf ns)) (plan conf ns) (omega arith) few).1
