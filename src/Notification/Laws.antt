-- ===== src/Notification/Laws.antt =====
-- About validation and enqueueing in gaurun/notification.go.
use gaurun.Prelude.{
  ℕ, String, ◌≡◌, refl, ◌≢◌, ◌↔◌, Bool, false, List, [], ◌∷◌, ◌++◌, Option, none, some, ◌+◌, ◌%◌,
  ◌^◌, ◌<◌, map, All, arith, is_empty_iff, eq_iff, ap, length, suc,
}
use mathlib.Core.List.{append_assoc}
use gaurun.Conf.{ConfToml}
use gaurun.Notification.{Notification, push_type_alert, push_type_background}
use gaurun.Notification.Validate.{has_empty_token, validate_notification}
use gaurun.Notification.Enqueue.{
  Event, logged_error, enabled_push, enqueue_tokens, enqueue_one, enqueue_notifications,
}
use gaurun.Log.{numbering_push}
use gaurun.Notification.Spec.{IsWellFormed, Item, rejected, push, items_of, plan, pushes, render}

has_empty_token_iff :
    (tokens : List String) → (has_empty_token tokens ≡ false) ↔ All (λ t. t ≢ "") tokens
unfolding has_empty_token
has_empty_token_iff [] = ground arith
has_empty_token_iff (t ∷ ts) = ground (arith, is_empty_iff t, has_empty_token_iff ts)

-- `validateNotification` returns no error exactly for the well-formed notifications.
pub validate_notification_iff :
    (allows : Bool) (n : Notification)
    → (validate_notification allows n ≡ none) ↔ IsWellFormed allows n
unfolding validate_notification
validate_notification_iff allows n = ground (
  arith,
  has_empty_token_iff n.tokens,
  is_empty_iff n.message,
  is_empty_iff n.push_type,
  eq_iff n.push_type push_type_alert,
  eq_iff n.push_type push_type_background,
)

render-append :
    (conf : ConfToml) (seq_id k : ℕ) (xs ys : List Item)
    → render conf seq_id k (xs ++ ys)
      ≡ render conf seq_id k xs ++ render conf seq_id (k + pushes xs) ys
unfolding render
render-append conf s k [] ys = ground arith
render-append conf s k (rejected e ∷ xs) ys =
    ap (λ (l : List Event). logged_error e ∷ l) (render-append conf s k xs ys)
render-append conf s k (push n t ∷ xs) ys =
    let e : k + (pushes xs + 1) ≡ k + 1 + pushes xs = omega arith in
    rw (append_assoc, e, render-append conf s (k + 1) xs ys)

pushes-map :
    (n : Notification) (tokens : List String) → pushes (map (push n) tokens) ≡ length tokens
pushes-map n [] = refl
pushes-map n (t ∷ ts) = omega (arith, pushes-map n ts)

pushes-append : (xs ys : List Item) → pushes (xs ++ ys) ≡ pushes xs + pushes ys
pushes-append [] ys = omega arith
pushes-append (rejected e ∷ xs) ys = pushes-append xs ys
pushes-append (push n t ∷ xs) ys = omega (arith, pushes-append xs ys)

abbrev at : ℕ → ℕ → ℕ
at seq_id k = (seq_id + k) % 2 ^ 64

-- The inner loop renders the plan of its notification, from any number of tokens done.
enqueue_tokens-eq :
    (conf : ConfToml) (n : Notification) (tokens : List String) (seq_id k : ℕ)
    → enqueue_tokens (at seq_id k) (enabled_push conf n) n tokens
      ≡ (render conf seq_id k (map (push n) tokens), at seq_id (k + length tokens))
unfolding render enqueue_tokens numbering_push
enqueue_tokens-eq conf n [] seq_id k = ground arith
enqueue_tokens-eq conf n (t ∷ ts) seq_id k =
    let e : (at seq_id k + 1) % 2 ^ 64 ≡ at seq_id (k + 1) = omega arith in
    let e' : k + suc (length ts) ≡ k + 1 + length ts = omega arith in
    rw (e, e', enqueue_tokens-eq conf n ts seq_id (k + 1))

enqueue_one-eq :
    (conf : ConfToml) (n : Notification) (seq_id k : ℕ) (e : Option String)
    → enqueue_one conf (at seq_id k) n e
      ≡ (render conf seq_id k (items_of n e), at seq_id (k + pushes (items_of n e)))
unfolding enqueue_one
enqueue_one-eq conf n seq_id k (some e) = unfold render in ground arith
enqueue_one-eq conf n seq_id k none =
    rw (pushes-map n n.tokens) (enqueue_tokens-eq conf n n.tokens seq_id k)

enqueue_from :
    (conf : ConfToml) (ns : List Notification) (seq_id k : ℕ)
    → enqueue_notifications conf (at seq_id k) ns
      ≡ (render conf seq_id k (plan conf ns), at seq_id (k + pushes (plan conf ns)))
unfolding plan enqueue_notifications
enqueue_from conf [] seq_id k = unfold render in ground arith
enqueue_from conf (n ∷ ns) seq_id k =
    let e = validate_notification conf.core.allows_empty_message n in
    let items = items_of n e in
    let split : k + pushes (items ++ plan conf ns) ≡ k + pushes items + pushes (plan conf ns) =
      omega (arith, pushes-append items (plan conf ns)) in
    rw (
      enqueue_one-eq conf n seq_id k e,
      enqueue_from conf ns seq_id (k + pushes items),
      split,
      render-append conf seq_id k items (plan conf ns),
    )

-- From any value of the counter, a uint64, `enqueueNotifications` logs and queues what the plan
-- says, in its order, the k-th token of the plan with the number `seq_id + k` modulo 2^64, and
-- leaves the counter advanced by one for each token of the plan.
pub enqueue_notifications-eq-render :
    (conf : ConfToml) (seq_id : ℕ) (ns : List Notification)
    → seq_id < 2 ^ 64
    → enqueue_notifications conf seq_id ns
      ≡ (render conf seq_id 0 (plan conf ns), (seq_id + pushes (plan conf ns)) % 2 ^ 64)
enqueue_notifications-eq-render conf seq_id ns h =
    let e : at seq_id 0 ≡ seq_id = omega arith in
    let e' : 0 + pushes (plan conf ns) ≡ pushes (plan conf ns) = omega arith in
    rw (e, e') at (enqueue_from conf ns seq_id 0)
