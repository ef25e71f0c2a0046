-- ===== src/Buford/Push/Queue/Counts.antt =====
-- About the notifications and responses of buford/push/queue.go.
use gaurun.Prelude.{
  ℕ, ◌+◌, ◌<◌, ◌≡◌, refl, arith, Bool, true, false, String, List, [], ◌∷◌, ◌++◌, length, sum_of,
  sum_of-set_at, sum_of-eq-zero, sum_of-all-zero,
}
use gaurun.Buford.Push.Queue.{
  Sending, Response, Serving, ready, pushing, responding, stopped, Queue, new_queue, ServingStep,
  QueueStep, serving, call, close_notifications, close_responses, QueueReach, start, later, Panics,
  closed_call, closed_response, Closing, here, then_serving, then_close_notifications,
  then_close_responses,
}

abbrev one_if : Bool → ℕ
one_if true = 1
one_if false = 0

-- How many of them are for the devices of a choice.
module _ (chosen : String → Bool) where
  abbrev pub sendings_for : List Sending → ℕ
  sendings_for [] = 0
  sendings_for (x ∷ xs) = one_if (chosen x.device_token) + sendings_for xs

  abbrev pub responses_for : List Response → ℕ
  responses_for [] = 0
  responses_for (r ∷ rs) = one_if (chosen r.device_token) + responses_for rs

  sendings_for-append :
      (xs ys : List Sending) → sendings_for (xs ++ ys) ≡ sendings_for xs + sendings_for ys
  sendings_for-append [] ys = omega arith
  sendings_for-append (x ∷ xs) ys = omega (arith, sendings_for-append xs ys)

  responses_for-append :
      (xs ys : List Response) → responses_for (xs ++ ys) ≡ responses_for xs + responses_for ys
  responses_for-append [] ys = omega arith
  responses_for-append (x ∷ xs) ys = omega (arith, responses_for-append xs ys)

  -- What a worker has on hand for such a device.
  abbrev pub on_hand : Serving → ℕ
  on_hand (pushing x) = one_if (chosen x.device_token)
  on_hand (responding r) = one_if (chosen r.device_token)
  on_hand _ = 0

  -- What the workers have received is answered once, or on hand.
  abbrev pub Balanced : ℕ → Queue → Type 0
  Balanced n q = sendings_for q.accepted ≡ responses_for q.received + sum_of on_hand q.workers n

  ServingStep-Balanced : {n : ℕ} {q q' : Queue} → ServingStep n q q' → Balanced n q → Balanced n q'
  ServingStep-Balanced {n} {q} (ServingStep.accept w before x after below e unclosed waiting) h =
      ground (
        arith,
        e,
        h,
        sendings_for-append q.accepted (x ∷ []),
        sum_of-set_at on_hand q.workers w (pushing x) n below,
      )
  ServingStep-Balanced {n} {q} (ServingStep.serve w x result below e) h =
      let answer : Response = record { device_token = x.device_token; result = result } in
      ground (arith, e, h, sum_of-set_at on_hand q.workers w (responding answer) n below)
  ServingStep-Balanced {n} {q} (ServingStep.respond w r below e unclosed) h = ground (
    arith,
    e,
    h,
    responses_for-append q.received (r ∷ []),
    sum_of-set_at on_hand q.workers w ready n below,
  )
  ServingStep-Balanced {n} {q} (ServingStep.stop w below e closed) h =
      ground (arith, e, h, sum_of-set_at on_hand q.workers w stopped n below)

  QueueStep-Balanced : {n : ℕ} {q q' : Queue} → QueueStep n q q' → Balanced n q → Balanced n q'
  QueueStep-Balanced (serving st) h = ServingStep-Balanced st h
  QueueStep-Balanced (call x) h = h
  QueueStep-Balanced (close_notifications unclosed) h = h
  QueueStep-Balanced (close_responses closed unclosed) h = h

  -- In every reachable state of a queue with `n` workers and for any choice of devices, the
  -- notifications that the workers have received are as many as the responses that were read and those
  -- that the workers have on hand: none is dropped, none answered twice.
  pub QueueReach-Balanced : {n : ℕ} {q : Queue} → QueueReach n q → Balanced n q
  unfolding new_queue
  QueueReach-Balanced {n} start = omega (arith, sum_of-eq-zero on_hand (λ w. ready) n (λ w. refl))
  QueueReach-Balanced {n} (later r st) = QueueStep-Balanced st (QueueReach-Balanced r)

abbrev any : String → Bool
any token = true

sendings_for-any : (xs : List Sending) → sendings_for any xs ≡ length xs
sendings_for-any [] = refl
sendings_for-any (x ∷ xs) = omega (arith, sendings_for-any xs)

responses_for-any : (rs : List Response) → responses_for any rs ≡ length rs
responses_for-any [] = refl
responses_for-any (r ∷ rs) = omega (arith, responses_for-any rs)

-- No call waits, and no worker has anything on hand.
record IsIdle (n : ℕ) (q : Queue) : Type 0 where
  no_callers : q.callers ≡ []
  workers : (w : ℕ) → w < n → on_hand any (q.workers w) ≡ 0

IsIdle-step : {n : ℕ} {q q' : Queue} → ServingStep n q q' → IsIdle n q → IsIdle n q'
IsIdle-step (ServingStep.accept w [] x after below e unclosed waiting) idle =
    absurd (ground (arith, idle.no_callers, waiting))
IsIdle-step (ServingStep.accept w (y ∷ before) x after below e unclosed waiting) idle =
    absurd (ground (arith, idle.no_callers, waiting))
IsIdle-step (ServingStep.serve w x result below e) idle =
    absurd (ground (arith, e, idle.workers w below))
IsIdle-step (ServingStep.respond w r below e unclosed) idle =
    absurd (ground (arith, e, idle.workers w below))
IsIdle-step (ServingStep.stop w below e closed) idle = record {
  no_callers = idle.no_callers;
  workers = λ v v_below. ground (arith, idle.workers v v_below);
}

Closing-IsIdle : {n : ℕ} {q t : Queue} → Closing n q t → IsIdle n q → IsIdle n t
Closing-IsIdle here idle = idle
Closing-IsIdle (then_serving c st) idle = IsIdle-step st (Closing-IsIdle c idle)
Closing-IsIdle (then_close_notifications c unclosed) idle =
    let before = Closing-IsIdle c idle in
    record { no_callers = before.no_callers; workers = before.workers }
Closing-IsIdle (then_close_responses c closed unclosed) idle =
    let before = Closing-IsIdle c idle in
    record { no_callers = before.no_callers; workers = before.workers }

IsIdle-ne-Panics : {n : ℕ} {q : Queue} → IsIdle n q → ¬ (Panics n q)
IsIdle-ne-Panics idle (closed_call closed waiting) = waiting idle.no_callers
IsIdle-ne-Panics idle (closed_response w r below e closed) =
    absurd (ground (arith, e, idle.workers w below))

-- As the comment at `Close` says: when no call of `Push` waits and as many responses were read as
-- notifications were received by workers, the queue can be closed: whatever the workers do then, and
-- as long as `Push` is not called again, nothing is sent on a closed channel.
pub close_safe :
    {n : ℕ} {q t : Queue}
    → QueueReach n q
    → q.callers ≡ []
    → length q.received ≡ length q.accepted
    → Closing n q t
    → ¬ (Panics n t)
close_safe {n} {q} r no_callers all_read c =
    let nothing : sum_of (on_hand any) q.workers n ≡ 0 = omega (
      arith,
      all_read,
      QueueReach-Balanced any r,
      sendings_for-any q.accepted,
      responses_for-any q.received,
    ) in
    IsIdle-ne-Panics (
      Closing-IsIdle c (record {
        no_callers = no_callers;
        workers = λ w below. sum_of-all-zero (on_hand any) q.workers n w nothing below;
      }))
