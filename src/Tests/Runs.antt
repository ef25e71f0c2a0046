-- ===== src/Tests/Runs.antt =====
-- Interleaved runs, and the provider token over a run.
use gaurun.Prelude.{
  All, ℕ, ℤ, Option, map, pos, ◌≡◌, ◌≤◌, refl, arith, String, Bool, str_eq, [], ◌∷◌, none, some,
  length,
}
use gaurun.Http.{ok}
use gaurun.Conf.{build_default_conf}
use gaurun.Log.{numbering_push}
use gaurun.Notification.{Notification}
use gaurun.Notification.Validate.{validate_notification, has_empty_token}
use gaurun.Notification.Spec.{queued_of, IsDeliverable}
use gaurun.Notification.Enqueue.{enqueue_notifications, accept, for_token, enabled_push}
use gaurun.Notification.Concurrent.{Front, FrontReach, start, later, spawn, run, EnqueueMove, front}
use gaurun.Notification.Concurrent.Once.{occurrences, queued_once}
use gaurun.Buford.Push.Service.{sent}
use gaurun.Buford.Push.Queue as Queues
use gaurun.Buford.Push.Queue.{
  Queue, Sending, Response, ServingStep, serving, call, QueueReach, Closing, here,
  then_close_notifications, then_close_responses, then_serving, Panics, new_queue, ready,
}
use gaurun.Buford.Push.Queue.Counts.{Balanced, QueueReach-Balanced, close_safe}
use gaurun.Buford.Errors.{GoError}
use gaurun.Pusher.{World}
use gaurun.Pusher.Dispatch.{push_all}
use gaurun.Pusher.Totals.{IsSmall}
use gaurun.Pusher.Totals.Outcomes.{outcomes, TotalsBy, budgets}
use gaurun.Pusher.Totals.Served.{push_all-Totals}
use gaurun.Pusher.Genuine.{Holds, push_all-Holds}
use gaurun.Server.Apns.{new_apns_client_for_token}
use gaurun.Tests.Recovery.{fcm}
use gaurun.Tests.Pushes.{client}
use gaurun.Tests.Samples as Samples
use gaurun.Tests.Samples.{batch, conf, notification, unavailable, marshal, show_time}

signed_lem : (a b : String) → ok a ≡ ok b → b ≡ a
signed_lem a b e = ground (arith, e)

-- What the service's key signs is "signature".
abbrev Signed : Unit {0} → String → String → ℕ → String → Type 0
Signed key key_id team_id issued_at bearer = bearer ≡ "signature"

abbrev with_token : World ℕ (Unit {0})
with_token = record Samples.start {
  token = (new_apns_client_for_token {Cert = Unit {0}} conf.ios tt "k" "t").token;
}

push_all-Holds_example :
    (w' : World ℕ (Unit {0})) × (push_all unavailable fcm marshal show_time client "{}" conf
        (queued_of (enqueue_notifications conf 7 batch).0)
        with_token
      ≡ some w')
    × Holds Signed w'.token
push_all-Holds_example =
    push_all-Holds unavailable fcm marshal show_time client "{}" Signed
      (λ key key_id team_id issued_at e bearer signed. signed_lem _ _ signed) conf 7 batch
      (Unit {0}) tt "k" "t" with_token (omega arith) refl

no_stats-IsSmall : IsSmall Samples.start.stats
no_stats-IsSmall = record {
  ios_success = omega arith;
  ios_error = omega arith;
  android_success = omega arith;
  android_error = omega arith;
}

push_all-Totals_example :
    let queue = queued_of (enqueue_notifications conf 7 batch).0 in
    let outs = outcomes unavailable fcm marshal show_time client "{}" conf queue Samples.start in
    ((map (λ (o : ℤ × Option GoError). o.0) outs ≡ map (λ (n : Notification). n.platform) queue)
      × (w' : World ℕ (Unit {0})) × (push_all unavailable fcm marshal show_time client "{}" conf
            queue Samples.start
          ≡ some w')
      × TotalsBy unavailable fcm marshal show_time client "{}"
          (budgets conf queue)
          outs
          Samples.start
          w')
push_all-Totals_example =
    push_all-Totals unavailable fcm marshal show_time client "{}" conf 7 batch Samples.start
      (omega arith) no_stats-IsSmall

abbrev to_ios : Notification
to_ios = notification (pos 1) ("a" ∷ [])

to_ios_valid : validate_notification conf.core.allows_empty_message to_ios ≡ none
unfolding validate_notification has_empty_token build_default_conf
to_ios_valid = refl

-- Two requests are accepted, and the goroutine of the second numbers, logs and sends its
-- notification.
two_requests : (s : Front) × FrontReach conf 41 6 s
unfolding front accept enabled_push build_default_conf
two_requests = (
  _,
  later
      (later
        (later
          (later (later (later start (spawn batch)) (spawn (to_ios ∷ [])))
            (run 1 (omega arith) (EnqueueMove.begin to_ios_valid)))
          (run 1 (omega arith) EnqueueMove.number))
        (run 1 (omega arith) EnqueueMove.emit))
      (run 1 (omega arith) EnqueueMove.emit),
)

two_requests_tests : occurrences 42 two_requests.0.trace ≡ 1
unfolding two_requests front accept enabled_push build_default_conf for_token numbering_push
two_requests_tests = refl

queued_once_example :
    ((id : ℕ) → occurrences id two_requests.0.trace ≤ 1)
    × All (IsDeliverable conf) (queued_of two_requests.0.trace)
queued_once_example = queued_once two_requests.1 (omega arith)

abbrev sending : Sending
sending = record { device_token = "a"; headers = none; payload = "{}" }

-- One notification is received by worker 1, sent, and answered.
answered : (q : Queue) × QueueReach 2 q
unfolding new_queue
answered = (
  _,
  Queues.later
      (Queues.later
        (Queues.later (Queues.later Queues.start (call sending))
          (serving (ServingStep.accept 1 [] sending [] (omega arith) refl refl refl)))
        (serving (ServingStep.serve 1 sending (sent "id") (omega arith) refl)))
      (serving (ServingStep.respond 1 _ (omega arith) refl refl)),
)

abbrev for_a : String → Bool
for_a token = str_eq token "a"

QueueReach-Balanced_example : Balanced for_a 2 answered.0
QueueReach-Balanced_example = QueueReach-Balanced for_a answered.1

closed : (q : Queue) × Closing 2 answered.0 q
unfolding new_queue answered
closed = (_, then_close_responses (then_close_notifications here refl) refl refl)

no_callers : answered.0.callers ≡ []
unfolding new_queue answered
no_callers = refl

all_read : length answered.0.received ≡ length answered.0.accepted
unfolding new_queue answered
all_read = refl

close_safe_example : ¬ (Panics 2 closed.0)
close_safe_example = close_safe answered.1 no_callers all_read closed.1
