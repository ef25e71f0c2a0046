-- ===== src/Buford/Push/Queue.antt =====
-- buford/push/queue.go: the queue's callers, its workers and its reader over two unbuffered channels,
-- as a step relation. A send on such a channel is one step with its receive. A send on a closed
-- channel, and a second close, is a panic, which ends the program.
pub mod Counts
use gaurun.Prelude.{
  ℕ, ◌<◌, ◌≡◌, ◌≢◌, String, Bool, true, false, List, [], ◌∷◌, ◌++◌, Option, set_at,
}
use gaurun.Buford.Push.Header.{Headers}
use gaurun.Buford.Push.Service.{Pushed}

-- `notification`, and `Response` with its ID or its error
pub record Sending : Type 0 where
  pub device_token : String
  pub headers : Option Headers
  pub payload : String

pub record Response : Type 0 where
  pub device_token : String
  pub result : Pushed

-- Where a worker stands: at the receive of its loop, in a call of `Push`, at the send of the
-- response, or past its loop.
pub data Serving : Type 0 where
  ready : Serving
  pushing : Sending → Serving
  responding : Response → Serving
  stopped : Serving

-- `callers` are the calls of `(*Queue).Push` that wait for a worker; `accepted` is what workers have
-- received, `received` what has been read of `Responses`, both in order.
pub record Queue : Type 0 where
  pub callers : List Sending
  pub workers : ℕ → Serving
  pub notifications_closed : Bool
  pub responses_closed : Bool
  pub accepted : List Sending
  pub received : List Response

-- `NewQueue`
unfoldable pub new_queue : Queue
new_queue = record {
  callers = [];
  workers = λ w. ready;
  notifications_closed = false;
  responses_closed = false;
  accepted = [];
  received = [];
}

-- A step of one of the `n` workers, with the caller or the reader that it meets. The service may
-- answer anything.
pub data ServingStep (n : ℕ) : Queue → Queue → Type 0 where
  accept :
      {q : Queue} (w : ℕ) (before : List Sending) (x : Sending) (after : List Sending)
      → w < n
      → q.workers w ≡ ready
      → q.notifications_closed ≡ false
      → q.callers ≡ before ++ x ∷ after
      → ServingStep n q (record q {
        callers = before ++ after;
        workers = set_at q.workers w (pushing x);
        accepted = q.accepted ++ x ∷ [];
      })
  serve :
      {q : Queue} (w : ℕ) (x : Sending) (result : Pushed)
      → w < n
      → q.workers w ≡ pushing x
      → ServingStep n q (record q {
        workers =
            set_at q.workers w
              (responding (record { device_token = x.device_token; result = result }));
      })
  respond :
      {q : Queue} (w : ℕ) (r : Response)
      → w < n
      → q.workers w ≡ responding r
      → q.responses_closed ≡ false
      → ServingStep n q
          (record q { workers = set_at q.workers w ready; received = q.received ++ r ∷ [] })
  stop :
      {q : Queue} (w : ℕ)
      → w < n
      → q.workers w ≡ ready
      → q.notifications_closed ≡ true
      → ServingStep n q (record q { workers = set_at q.workers w stopped })

pub data QueueStep (n : ℕ) : Queue → Queue → Type 0 where
  serving : {q q' : Queue} → ServingStep n q q' → QueueStep n q q'
  -- A call of `(*Queue).Push`
  call : {q : Queue} (x : Sending) → QueueStep n q (record q { callers = q.callers ++ x ∷ [] })
  -- The two statements of `Close`
  close_notifications :
      {q : Queue}
      → q.notifications_closed ≡ false
      → QueueStep n q (record q { notifications_closed = true })
  close_responses :
      {q : Queue}
      → q.notifications_closed ≡ true
      → q.responses_closed ≡ false
      → QueueStep n q (record q { responses_closed = true })

pub data QueueReach (n : ℕ) : Queue → Type 0 where
  start : QueueReach n new_queue
  later : {q q' : Queue} → QueueReach n q → QueueStep n q q' → QueueReach n q'

-- The panics that are due: a caller or a worker sends on a closed channel. The program has ended
-- then; the steps from such a state stand for no run.
pub data Panics (n : ℕ) (q : Queue) : Type 0 where
  closed_call : q.notifications_closed ≡ true → q.callers ≢ [] → Panics n q
  closed_response :
      (w : ℕ) (r : Response)
      → w < n
      → q.workers w ≡ responding r
      → q.responses_closed ≡ true
      → Panics n q

-- What may happen from a state on if `Push` is not called any more.
pub data Closing (n : ℕ) (q : Queue) : Queue → Type 0 where
  here : Closing n q q
  then_serving : {t t' : Queue} → Closing n q t → ServingStep n t t' → Closing n q t'
  then_close_notifications :
      {t : Queue}
      → Closing n q t
      → t.notifications_closed ≡ false
      → Closing n q (record t { notifications_closed = true })
  then_close_responses :
      {t : Queue}
      → Closing n q t
      → t.notifications_closed ≡ true
      → t.responses_closed ≡ false
      → Closing n q (record t { responses_closed = true })
