-- ===== src/Notification/Concurrent/Deliverable.antt =====
-- About what concurrent goroutines of gaurun/notification.go send to the queue.
use gaurun.Prelude.{ℕ, ◌≢◌, String, List, All, All-append, both_branches, ◌==◌}
use gaurun.Conf.{ConfToml}
use gaurun.Log.{numbering_push}
use gaurun.Notification.{Notification}
use gaurun.Notification.Enqueue.{Event, logged, logged_error, queued}
use gaurun.Notification.Spec.{IsWellFormed, queued_of, IsDeliverable}
use gaurun.Notification.Laws.{validate_notification_iff}
use gaurun.Notification.Queued.{queued_of-append, accept-IsDeliverable}
use gaurun.Notification.Concurrent.{
  Enqueuing, outer, inner, emitting, EnqueueMove, Front, FrontStep, spawn, run, front, FrontReach,
  start, later,
}

-- The notification of the inner loop has been accepted.
abbrev Sound : ConfToml → Notification → List String → Type 0
Sound conf n tokens = IsWellFormed conf.core.allows_empty_message n × All (λ t. t ≢ "") tokens

abbrev Delivers : ConfToml → List Event → Type 0
Delivers conf events = All (IsDeliverable conf) (queued_of events)

-- What is known of a goroutine where it stands.
abbrev Fits : ConfToml → Enqueuing → Type 0
Fits conf (outer left) = Unit
Fits conf (inner n tokens left) = Sound conf n tokens
Fits conf (emitting events n tokens left) = Delivers conf events × Sound conf n tokens

move-Fits :
    {conf : ConfToml} {seq_id seq_id' : ℕ} {p p' : Enqueuing} {events : List Event}
    → EnqueueMove conf seq_id p seq_id' events p'
    → Fits conf p
    → Delivers conf events × Fits conf p'
unfolding queued_of
move-Fits (EnqueueMove.reject e h) fits = (tt, tt)
move-Fits {conf} (EnqueueMove.begin {n = n} h) fits =
    let well = (validate_notification_iff conf.core.allows_empty_message n).0 h in
    (tt, (well, well.tokens))
move-Fits {conf} {seq_id} (EnqueueMove.number {n = n} {token = token}) (well, tokens) = (
  tt,
  (accept-IsDeliverable conf n token (numbering_push seq_id) (well, tokens.0), (well, tokens.1)),
)
move-Fits (EnqueueMove.emit {event = queued n}) (delivers, sound) =
    ((delivers.0, tt), (delivers.1, sound))
move-Fits (EnqueueMove.emit {event = logged l}) (delivers, sound) = (tt, (delivers, sound))
move-Fits (EnqueueMove.emit {event = logged_error e}) (delivers, sound) = (tt, (delivers, sound))
move-Fits EnqueueMove.next_token (delivers, sound) = (tt, sound)
move-Fits EnqueueMove.next sound = (tt, tt)

record AllFit (conf : ConfToml) (s : Front) : Type 0 where
  goroutines : (i : ℕ) → Fits conf (s.goroutines i)
  trace : Delivers conf s.trace

FrontStep-AllFit :
    {conf : ConfToml} {s t : Front} → FrontStep conf s t → AllFit conf s → AllFit conf t
FrontStep-AllFit {conf} {s} (spawn ns) h = record {
  goroutines = λ i. both_branches (Fits conf) (s.spawned == i) tt (h.goroutines i);
  trace = h.trace;
}
FrontStep-AllFit {conf} {s} (run i {events = events} below mv) h =
    let (delivers, fits) = move-Fits mv (h.goroutines i) in
    record {
      goroutines = λ j. both_branches (Fits conf) (i == j) fits (h.goroutines j);
      trace =
          rw (queued_of-append s.trace events) (
            All-append (IsDeliverable conf) (queued_of s.trace) (queued_of events) h.trace
              delivers);
    }

FrontReach-AllFit :
    {conf : ConfToml} {first k : ℕ} {s : Front} → FrontReach conf first k s → AllFit conf s
unfolding front queued_of
FrontReach-AllFit start = record { goroutines = λ i. tt; trace = tt }
FrontReach-AllFit (later r st) = FrontStep-AllFit st (FrontReach-AllFit r)

pub FrontReach-Delivers :
    {conf : ConfToml} {first k : ℕ} {s : Front}
    → FrontReach conf first k s
    → All (IsDeliverable conf) (queued_of s.trace)
FrontReach-Delivers r = (FrontReach-AllFit r).trace
