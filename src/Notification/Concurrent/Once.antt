-- ===== src/Notification/Concurrent/Once.antt =====
-- About the numbers that concurrent goroutines of gaurun/notification.go give to notifications.
use gaurun.Prelude.{
  ℕ, zero, All, suc, ◌+◌, ◌%◌, ◌^◌, ◌<◌, ◌≤◌, ◌≡◌, ◌≢◌, refl, arith, inl, inr, Bool, true, false,
  String, List, [], ◌∷◌, ◌++◌, set_at, sum_of, sum_of-set_at, sum_of-set_new, sum_of-eq-zero, ◌⊎◌,
  ◌==◌, Bool-cases,
}
use gaurun.Conf.{ConfToml}
use gaurun.Log.{numbering_push}
use gaurun.Notification.{Notification}
use gaurun.Notification.Enqueue.{
  Event, logged, logged_error, queued, enabled_push, accept, for_token,
}
use gaurun.Notification.Spec.{queued_of, IsDeliverable}
use gaurun.Notification.Concurrent.Deliverable.{FrontReach-Delivers}
use gaurun.Notification.Concurrent.{
  Enqueuing, outer, emitting, EnqueueMove, Front, FrontStep, spawn, run, front, FrontReach, start,
  later,
}

-- How often a number stands on what is sent to the channel.
abbrev one_if : Bool → ℕ
one_if true = 1
one_if false = 0

abbrev pub occurrences : ℕ → List Event → ℕ
occurrences id [] = 0
occurrences id (queued n ∷ events) = one_if (id == n.id) + occurrences id events
occurrences id (_ ∷ events) = occurrences id events

occurrences-append :
    (id : ℕ) (xs ys : List Event)
    → occurrences id (xs ++ ys) ≡ occurrences id xs + occurrences id ys
occurrences-append id [] ys = omega arith
occurrences-append id (queued n ∷ xs) ys = omega (arith, occurrences-append id xs ys)
occurrences-append id (logged l ∷ xs) ys = occurrences-append id xs ys
occurrences-append id (logged_error e ∷ xs) ys = occurrences-append id xs ys

-- What a goroutine still holds.
abbrev held : ℕ → Enqueuing → ℕ
held id (emitting events n tokens left) = occurrences id events
held id _ = 0

-- How often a number is handed out by `k` increments of a counter.
issued : (first k id : ℕ) → ℕ
issued first zero id = 0
issued first (suc k) id = one_if (id == (first + suc k) % 2 ^ 64) + issued first k id

issued-eq-zero :
    (first k id : ℕ) → ((j : ℕ) → j < k → (first + suc j) % 2 ^ 64 ≢ id) → issued first k id ≡ 0
unfolding issued
issued-eq-zero first zero id h = refl
issued-eq-zero first (suc k) id h =
    ground
      (arith, h k (omega arith), issued-eq-zero first k id (λ j below. h j (omega (arith, below))))

issued-le : (first k id : ℕ) → k ≤ 2 ^ 64 → issued first k id ≤ 1
unfolding issued
issued-le first zero id small = omega arith
issued-le first (suc k) id small = elim (Bool-cases (id == (first + suc k) % 2 ^ 64)) [
  | inr other ↦ ground (arith, other, issued-le first k id (omega (arith, small)))
  | inl same ↦
      let fresh = issued-eq-zero first k id (λ j below e. ground (arith, same, below, e, small)) in
      ground (arith, same, fresh)
]

accept-occurrences :
    (id : ℕ) (enabled : Bool) (token : String) (n : Notification)
    → occurrences id (accept enabled token n) ≤ one_if (id == n.id)
unfolding accept
accept-occurrences id true token n = omega arith
accept-occurrences id false token n = omega arith

-- A move hands on what a goroutine holds, or gives it one number more.
abbrev Change : ℕ → Enqueuing → ℕ → List Event → Enqueuing → Type 0
Change seq_id p seq_id' events p' =
    ((seq_id' ≡ seq_id) × ((id : ℕ) → occurrences id events + held id p' ≤ held id p))
    ⊎ ((seq_id' ≡ numbering_push seq_id)
        × ((id : ℕ) → occurrences id events + held id p' ≤ held id p + one_if (id == seq_id')))

move-Change :
    {conf : ConfToml} {seq_id seq_id' : ℕ} {p p' : Enqueuing} {events : List Event}
    → EnqueueMove conf seq_id p seq_id' events p'
    → Change seq_id p seq_id' events p'
unfolding for_token
move-Change {conf} {seq_id} (EnqueueMove.number {n = n} {token = token}) = inr (
  refl,
  λ id. omega (
    arith,
    accept-occurrences id (enabled_push conf n) token (for_token n token (numbering_push seq_id)),
  ),
)
move-Change (EnqueueMove.emit {event = queued n}) = inl (refl, λ id. omega arith)
move-Change (EnqueueMove.emit {event = logged l}) = inl (refl, λ id. omega arith)
move-Change (EnqueueMove.emit {event = logged_error e}) = inl (refl, λ id. omega arith)
move-Change (EnqueueMove.reject e h) = inl (refl, λ id. omega arith)
move-Change (EnqueueMove.begin h) = inl (refl, λ id. omega arith)
move-Change EnqueueMove.next_token = inl (refl, λ id. omega arith)
move-Change EnqueueMove.next = inl (refl, λ id. omega arith)

-- The counter, and what all goroutines hold and have sent, against what has been handed out.
record Inv (first k : ℕ) (s : Front) : Type 0 where
  handed : ℕ
  few : handed ≤ k
  counter : s.seq_id % 2 ^ 64 ≡ (first + handed) % 2 ^ 64
  count :
      (id : ℕ)
      → occurrences id s.trace + sum_of (held id) s.goroutines s.spawned ≤ issued first handed id

-- After a move of the goroutine `i`.
moved-count :
    (id i : ℕ) (s : Front) (events : List Event) (p : Enqueuing) (given before : ℕ)
    → i < s.spawned
    → occurrences id events + held id p ≤ held id (s.goroutines i) + given
    → occurrences id s.trace + sum_of (held id) s.goroutines s.spawned ≤ before
    → occurrences id (s.trace ++ events) + sum_of (held id) (set_at s.goroutines i p) s.spawned
      ≤ given + before
moved-count id i s events p given before below change count = omega (
  arith,
  occurrences-append id s.trace events,
  sum_of-set_at (held id) s.goroutines i p s.spawned below,
)

Step-Inv :
    {conf : ConfToml} {first k : ℕ} {s t : Front}
    → FrontStep conf s t
    → Inv first k s
    → Inv first (k + 1) t
unfolding issued numbering_push
Step-Inv {s = s} (spawn ns) inv = record {
  handed = inv.handed;
  few = omega (arith, inv.few);
  counter = inv.counter;
  count =
      λ id. omega (arith, inv.count id, sum_of-set_new (held id) s.goroutines s.spawned (outer ns));
}
Step-Inv {first = first} {s = s} (run i {seq_id = seq_id} {events = events} {p = p} below mv) inv =
    elim (move-Change mv) [
      | inl (same, change) ↦ record {
        handed = inv.handed;
        few = omega (arith, inv.few);
        counter = omega (arith, same, inv.counter);
        count = λ id. omega (
          arith,
          moved-count id i s events p 0 _ below (omega (arith, change id)) (inv.count id),
        );
      }
      | inr (next, change) ↦
          let given : seq_id ≡ (first + suc inv.handed) % 2 ^ 64 =
            omega (arith, next, inv.counter) in
          record {
            handed = suc inv.handed;
            few = omega (arith, inv.few);
            counter = omega (arith, given);
            count = λ id.
                moved-count id i s events p _ _ below (rw given at (change id)) (inv.count id);
          }
    ]

Reach-Inv : {conf : ConfToml} {first k : ℕ} {s : Front} → FrontReach conf first k s → Inv first k s
unfolding front issued
Reach-Inv start = record {
  handed = 0;
  few = omega arith;
  counter = omega arith;
  count = λ id. omega (arith, sum_of-eq-zero (held id) (λ i. outer []) 0 (λ i. refl));
}
Reach-Inv (later r st) = Step-Inv st (Reach-Inv r)

-- However many requests are accepted, and however their goroutines are interleaved: no two of the
-- notifications sent to the queue have the same number, in a run of at most 2^64 steps from any
-- first value of the counter; and each of them has one token, which is not empty, and a platform
-- that is enabled.
pub queued_once :
    {conf : ConfToml} {first k : ℕ} {s : Front}
    → FrontReach conf first k s
    → k ≤ 2 ^ 64
    → ((id : ℕ) → occurrences id s.trace ≤ 1) × All (IsDeliverable conf) (queued_of s.trace)
queued_once {first = first} r small =
    let inv = Reach-Inv r in
    (
      λ id. omega (
        arith,
        inv.count id,
        inv.few,
        issued-le first inv.handed id (omega (arith, inv.few, small)),
      ),
      FrontReach-Delivers r,
    )
