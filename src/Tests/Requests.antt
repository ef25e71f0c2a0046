-- ===== src/Tests/Requests.antt =====
-- Validation and enqueueing.
use gaurun.Prelude.{
  pos, ◌≡◌, ◌⊎◌, List, refl, ◌↔◌, ◌^◌, ◌%◌, ◌-◌, ◌+◌, [], ◌∷◌, none, some, map, All, arith, true,
  false,
}
use gaurun.Http.{response, ok, err}
use gaurun.Conf.{build_default_conf}
use gaurun.Log.{numbering_push}
use gaurun.Notification.{Notification}
use gaurun.Notification.Validate.{validate_notification, has_empty_token}
use gaurun.Notification.Enqueue.{
  enqueue_notifications, enqueue_one, enqueue_tokens, enabled_push, accept, for_token,
}
use gaurun.Notification.Spec.{
  IsWellFormed, plan, pushes, render, queued_of, IsDeliverable, Distinct,
}
use gaurun.Notification.Handler.{Request, parse, check_count, push_notification_handler}
use gaurun.Notification.Answers.{IsAccepted, IsRefused, IsGood, push_notification_handler-cases}
use gaurun.Notification.Laws.{validate_notification_iff, enqueue_notifications-eq-render}
use gaurun.Notification.Queued.{enqueue_notifications-IsDeliverable, enqueue_notifications-Distinct}
use gaurun.Tests.Samples.{conf, notification, batch}

validate_tests :
    (validate_notification false (notification (pos 1) ("" ∷ [])) ≡ some "empty token")
    × (validate_notification false (notification (pos 3) ("a" ∷ [])) ≡ some "invalid platform")
    × (validate_notification false (record (notification (pos 2) []) { push_type = "voip" })
        ≡ some "push_type must be alert or background")
unfolding validate_notification has_empty_token
validate_tests = (refl, refl, refl)

enqueueing : Unit {0}
unfolding enqueue_notifications enqueue_one enqueue_tokens enabled_push accept for_token queued_of
    numbering_push validate_notification has_empty_token plan build_default_conf
enqueueing = tt

-- The counter wraps from 2^64 - 2 on.
batch_numbers :
    map (λ (n : Notification). n.id) (queued_of (enqueue_notifications conf (2 ^ 64 - 2) batch).0)
    ≡ (2 ^ 64 - 1) ∷ 0 ∷ 1 ∷ []
unfolding enqueueing
batch_numbers = refl

validate_notification_iff_example :
    (validate_notification true (notification (pos 1) ("a" ∷ [])) ≡ none)
    ↔ IsWellFormed true (notification (pos 1) ("a" ∷ []))
validate_notification_iff_example = validate_notification_iff true (notification (pos 1) ("a" ∷ []))

enqueue_notifications-eq-render_example :
    enqueue_notifications conf 7 batch
    ≡ (render conf 7 0 (plan conf batch), (7 + pushes (plan conf batch)) % 2 ^ 64)
enqueue_notifications-eq-render_example = enqueue_notifications-eq-render conf 7 batch (omega arith)

enqueue_notifications-IsDeliverable_example :
    All (IsDeliverable conf) (queued_of (enqueue_notifications conf 7 batch).0)
enqueue_notifications-IsDeliverable_example =
    enqueue_notifications-IsDeliverable conf 7 batch (omega arith)

enqueue_notifications-Distinct_example :
    Distinct (map (λ (n : Notification). n.id) (queued_of (enqueue_notifications conf 7 batch).0))
unfolding plan validate_notification has_empty_token build_default_conf
enqueue_notifications-Distinct_example =
    enqueue_notifications-Distinct conf 7 batch (omega arith) (omega arith)

-- A request of which the body is its list of notifications.
abbrev posted : Request (List Notification)
posted = record { method = "POST"; content_length = pos 120; body = batch }

push_notification_handler-cases_example :
    let out = push_notification_handler (λ _. ok "[]") (λ _. err "no JSON") ok conf posted in
    (((ns : List Notification) × IsGood (λ _. ok "[]") (λ _. err "no JSON") ok conf posted ns
        × IsAccepted out ns)
      ⊎ (((ns : List Notification)
            → ¬ (IsGood (λ _. ok "[]") (λ _. err "no JSON") ok conf posted ns))
          × IsRefused out))
push_notification_handler-cases_example =
    push_notification_handler-cases (λ _. ok "[]") (λ _. err "no JSON") ok conf posted

-- It is accepted.
posted_accepted :
    push_notification_handler (λ _. ok "[]") (λ _. err "no JSON") ok conf posted
    ≡ record { answer = response "ok" 200; enqueue = some batch }
unfolding push_notification_handler parse check_count build_default_conf
posted_accepted = refl
