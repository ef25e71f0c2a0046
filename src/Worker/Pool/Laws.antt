-- ===== src/Worker/Pool/Laws.antt =====
-- What holds of the workers and goroutines of gaurun/worker.go in every reachable state.
use gaurun.Prelude.{
  ℕ, ℤ, pos, ◌+◌, ◌≤◌, ◌≡◌, refl, sym, ◌∙◌, ◌⊎◌, arith, ◌≤ℤ◌, List, [], ◌∷◌, ◌++◌, length,
  length-append, sum_of, sum_of-eq-zero,
}
use mathlib.Core.List.{append-nil, append_assoc}
use gaurun.Notification.{Notification}
use gaurun.Worker.Pool.Defs.{
  Worker, idle, Pushing, unborn, over, Pool, enqueue, init, Reach, start, later,
}
use gaurun.Worker.Pool.Counts.{in_all, in_wg, in_hand, for_own, for_all, for_wg, for_hand, Inv}
use gaurun.Worker.Pool.Invariant.{Reach-Inv}
use gaurun.Worker.Pool.Limit.{ReachUnder, Reach_of_under, ReachUnder-Within}

-- In every reachable state: a worker's `pusherCount` is the number of its goroutines that have not
-- taken it down, and one more while the worker has counted a goroutine that it has not started;
-- `PusherCountAll` and the wait group are such numbers over all workers and goroutines; and as many
-- notifications as were sent to the channel are in it, held by workers or goroutines, pushed, or
-- skipped for their platform.
pub Reach-counts :
    {n cap : ℕ} {limit : ℤ} {s : Pool} → Reach n cap limit s → Inv n s.shared s.workers
Reach-counts r = Reach-Inv r

abbrev pub IsOver : Pushing → Type 0
IsOver p = p ≡ over

-- Nothing is under way: no worker holds a notification, every goroutine has ended.
pub record IsQuiet (s : Pool) : Type 0 where
  pub empty : s.shared.queue ≡ []
  pub workers : (w : ℕ) → s.workers w ≡ idle
  pub pushers : (i : ℕ) → (s.shared.pushers i ≡ over) ⊎ (s.shared.pushers i ≡ unborn)

module _ {s : Pool} (quiet : IsQuiet s) where
  no_worker : (weight : Worker → ℕ) (n : ℕ) → weight idle ≡ 0 → sum_of weight s.workers n ≡ 0
  no_worker weight n e = sum_of-eq-zero weight s.workers n (λ w. ground (arith, quiet.workers w))

  no_pusher :
      (weight : Pushing → ℕ)
      → weight over ≡ 0
      → weight unborn ≡ 0
      → sum_of weight s.shared.pushers s.shared.spawned ≡ 0
  no_pusher weight e e' =
      sum_of-eq-zero weight s.shared.pushers s.shared.spawned (λ i. ground (arith, quiet.pushers i))

-- When a reachable state comes to rest, with the channel empty, the workers idle and the goroutines
-- ended, all three counters are back at zero, and as many notifications were pushed or skipped as
-- were sent to the channel.
pub quiet_counts :
    {n cap : ℕ} {limit : ℤ} {s : Pool}
    → Reach n cap limit s
    → IsQuiet s
    → ((v : ℕ) → s.shared.own_count v ≡ pos 0)
      × (s.shared.count_all ≡ pos 0)
      × (s.shared.wait_group ≡ pos 0)
      × (s.shared.entered ≡ s.shared.returned + s.shared.skipped)
quiet_counts {n} {s} r q = (
  λ v. ground (arith, inv.own v, q.workers v, no_pusher q (for_own v) refl refl),
  ground (arith, inv.all, no_worker q in_all n refl, no_pusher q for_all refl refl),
  ground (arith, inv.wg, no_worker q in_wg n refl, no_pusher q for_wg refl refl),
  ground (arith, inv.hand, q.empty, no_worker q in_hand n refl, no_pusher q for_hand refl refl),
)
  where
    inv : Inv n s.shared s.workers
    inv = Reach-Inv r

-- While no limit above `most` is set (at the start or by `PUT /config/pushers`), no worker's
-- `pusherCount` passes `most`, and a worker never has more than `most` goroutines whose push has
-- not returned or has not been taken off that count.
pub own_count-le :
    {n cap : ℕ} {limit most : ℤ} {s : Pool}
    → pos 0 ≤ℤ most
    → ReachUnder n cap limit most s
    → (v : ℕ)
    → (s.shared.own_count v ≤ℤ most)
      × (pos (sum_of (for_own v) s.shared.pushers s.shared.spawned) ≤ℤ most)
own_count-le {s} nonneg r v =
    let bound = (ReachUnder-Within nonneg r).count v in
    let counted = (Reach-Inv (Reach_of_under r)).own v in (bound, ground (arith, bound, counted))

fill :
    {n cap : ℕ} {limit : ℤ} (more : List Notification) (s : Pool)
    → Reach n cap limit s
    → length s.shared.queue + length more ≤ cap
    → (t : Pool) × Reach n cap limit t
      × (t.shared.queue ≡ s.shared.queue ++ more)
      × (t.shared.wait_group ≡ s.shared.wait_group)
fill [] s r fits = (s, r, sym (append-nil s.shared.queue), refl)
fill (x ∷ more) s r fits =
    let (t, r', q, g) =
      fill more
        (record s {
          shared = record (s.shared) {
            queue = s.shared.queue ++ x ∷ [];
            entered = s.shared.entered + 1;
          };
        })
        (later r (enqueue x (omega arith)))
        (omega (arith, length-append s.shared.queue (x ∷ []))) in
    (t, r', q ∙ append_assoc s.shared.queue (x ∷ []) more, g)

-- `PusherWg.Wait()` returns once the wait group is at zero, and that may be with any content of the
-- channel that fits it: such a state is reachable for every queue.
pub wait_misses_queue :
    (n cap : ℕ) (limit : ℤ) (queue : List Notification)
    → length queue ≤ cap
    → (s : Pool) × Reach n cap limit s × (s.shared.queue ≡ queue) × (s.shared.wait_group ≡ pos 0)
unfolding init
wait_misses_queue n cap limit queue fits = fill queue (init limit) start (omega arith)
