-- ===== src/Worker/Pool/Progress.antt =====
-- Which steps of gaurun/worker.go are possible.
use native.Mathlib.Decide.{dec_lt}
use gaurun.Prelude.{
  ℕ, zero, suc, ℤ, pos, ◌<◌, ◌≡◌, ◌≢◌, refl, sym, subst, ◌⊎◌, inl, inr, arith, Bool-cases, ltb_ℤ,
  List, [], ◌∷◌,
}
use gaurun.Notification.{Notification, platform_ios, platform_android}
use gaurun.Worker.Pool.Defs.{
  Worker, idle, got, checked, loaded, room, reserved, counted, added, sync_start, syncing, Pushing,
  unborn, pushing, pushed, released, uncounted, over, Shared, WorkerMove, PusherMove, Pool, IsKnown,
}

-- A move of one worker, or of one goroutine.
abbrev pub WorkerCan : ℕ → Shared → Worker → Type 0
WorkerCan w m p = (m' : Shared) × (p' : Worker) × WorkerMove w m p m' p'

abbrev pub PusherCan : Shared → Pushing → Type 0
PusherCan m p = (m' : Shared) × (p' : Pushing) × PusherMove m p m' p'

IsKnown-or_not :
    (n : Notification) → IsKnown n ⊎ ((n.platform ≢ platform_ios) × (n.platform ≢ platform_android))
IsKnown-or_not n = ground arith

got-WorkerCan : (w : ℕ) (m : Shared) (n : Notification) → WorkerCan w m (got n)
got-WorkerCan w m n = elim (IsKnown-or_not n) [
  | inr (other, another) ↦ (_, _, WorkerMove.skip other another)
  | inl known ↦ elim (Bool-cases (ltb_ℤ (pos 0) m.pusher_max)) [
    | inl positive ↦ (_, _, WorkerMove.check known (ground (arith, positive)))
    | inr none ↦ (_, _, WorkerMove.go_sync known (ground (arith, none)))
  ]
]

loaded-WorkerCan : (w : ℕ) (m : Shared) (n : Notification) (c : ℤ) → WorkerCan w m (loaded n c)
loaded-WorkerCan w m n c = elim (Bool-cases (ltb_ℤ c m.pusher_max)) [
  | inl below ↦ (_, _, WorkerMove.below (ground (arith, below)))
  | inr full ↦ (_, _, WorkerMove.full (ground (arith, full)))
]

worker_can : (w : ℕ) (m : Shared) (p : Worker) → WorkerCan w m p ⊎ (p ≡ idle)
worker_can w m idle = inr refl
worker_can w m (got n) = inl (got-WorkerCan w m n)
worker_can w m (checked n) = inl (_, _, WorkerMove.load)
worker_can w m (loaded n c) = inl (loaded-WorkerCan w m n c)
worker_can w m (room n) = inl (_, _, WorkerMove.reserve)
worker_can w m (reserved n) = inl (_, _, WorkerMove.count)
worker_can w m (counted n) = inl (_, _, WorkerMove.add)
worker_can w m (added n) = inl (_, _, WorkerMove.spawn)
worker_can w m (sync_start n) = inl (_, _, WorkerMove.begin_sync)
worker_can w m (syncing n) = inl (_, _, WorkerMove.end_sync)

pusher_can : (m : Shared) (p : Pushing) → PusherCan m p ⊎ ((p ≡ over) ⊎ (p ≡ unborn))
pusher_can m unborn = inr (inr refl)
pusher_can m (pushing w n) = inl (_, _, PusherMove.return)
pusher_can m (pushed w) = inl (_, _, PusherMove.release)
pusher_can m released = inl (_, _, PusherMove.uncount)
pusher_can m uncounted = inl (_, _, PusherMove.done)
pusher_can m over = inr (inl refl)

-- The first index that can, or none below the bound.
search :
    {P Q : ℕ → Type 0}
    → ((i : ℕ) → P i ⊎ Q i)
    → (n : ℕ) → ((i : ℕ) × (i < n) × P i) ⊎ ((i : ℕ) → i < n → Q i)
search each zero = inr (λ i below. absurd (omega arith))
search {P} {Q} each (suc n) = elim (search each n) [
  | inl (i, below, p) ↦ inl (i, omega arith, p)
  | inr all ↦ elim (each n) [
    | inl p ↦ inl (n, omega arith, p)
    | inr q ↦ inr (λ i below. last i below q all)
  ]
]
  where
    last : (i : ℕ) → i < suc n → Q n → ((i : ℕ) → i < n → Q i) → Q i
    last i below q all = elim (dec_lt i n) [
      | yes earlier ↦ all i earlier
      | no other ↦ let same : i ≡ n = omega (arith, below, other) in subst Q (sym same) q
    ]

queue_cases :
    (q : List Notification)
    → (q ≡ []) ⊎ ((x : Notification) × (rest : List Notification) × (q ≡ x ∷ rest))
queue_cases [] = inl refl
queue_cases (x ∷ rest) = inr (x, rest, refl)

-- Nothing is left to do for the workers and goroutines.
pub record IsAtRest (n : ℕ) (s : Pool) : Type 0 where
  pub empty : s.shared.queue ≡ []
  pub workers : (w : ℕ) → w < n → s.workers w ≡ idle
  pub pushers :
      (i : ℕ) → i < s.shared.spawned → (s.shared.pushers i ≡ over) ⊎ (s.shared.pushers i ≡ unborn)

-- With at least one worker the pool is never stuck: in every state a worker or a goroutine can make
-- its next step, or the channel is empty, all workers are idle and all goroutines have ended.
pub can_move :
    (n : ℕ) (s : Pool)
    → 0 < n
    → ((w : ℕ) × (w < n) × WorkerCan w s.shared (s.workers w))
      ⊎ ((i : ℕ) × (i < s.shared.spawned) × PusherCan s.shared (s.shared.pushers i))
      ⊎ IsAtRest n s
can_move n s some_worker = elim (search (λ w. worker_can w s.shared (s.workers w)) n) [
  | inl worker ↦ inl worker
  | inr idle_all ↦ elim (search (λ i. pusher_can s.shared (s.shared.pushers i)) s.shared.spawned) [
    | inl pusher ↦ inr (inl pusher)
    | inr over_all ↦ elim (queue_cases s.shared.queue) [
      | inl empty ↦ inr (inr (record { empty = empty; workers = idle_all; pushers = over_all }))
      | inr (x, rest, waiting) ↦
          let free : s.workers 0 ≡ idle = idle_all 0 some_worker in
          inl (0, some_worker, rw free (_, _, WorkerMove.receive x rest waiting))
    ]
  ]
]
