-- ===== src/Worker/Pool/Drain.antt =====
-- How long the workers and goroutines of gaurun/worker.go go on when nothing arrives.
use gaurun.Prelude.{
  ℕ, suc, ◌+◌, ◌*◌, ◌<◌, ◌≤◌, ◌≡◌, refl, arith, length, set_at, sum_of, sum_of-suc, sum_of-set_at,
  sum_of-set_above,
}
use gaurun.Worker.Pool.Defs.{
  Worker, idle, got, checked, loaded, room, reserved, counted, added, sync_start, syncing, Pushing,
  unborn, pushing, pushed, released, uncounted, over, Shared, WorkerMove, PusherMove, Pool,
}

-- Steps that are still to be made, at most.
abbrev worker_steps : Worker → ℕ
worker_steps idle = 0
worker_steps (got n) = 13
worker_steps (checked n) = 12
worker_steps (loaded n c) = 11
worker_steps (room n) = 10
worker_steps (reserved n) = 9
worker_steps (counted n) = 8
worker_steps (added n) = 7
worker_steps (sync_start n) = 3
worker_steps (syncing n) = 2

abbrev pusher_steps : Pushing → ℕ
pusher_steps (pushing w n) = 4
pusher_steps (pushed w) = 3
pusher_steps released = 2
pusher_steps uncounted = 1
pusher_steps over = 0
pusher_steps unborn = 0

abbrev pub steps_left : ℕ → Pool → ℕ
steps_left n s =
    14 * length s.shared.queue
    + sum_of worker_steps s.workers n
    + sum_of pusher_steps s.shared.pushers s.shared.spawned

-- `k` steps of workers and goroutines, in any order, from `s` to `t`.
pub data Moves (n : ℕ) (s : Pool) : ℕ → Pool → Type 0 where
  stay : Moves n s 0 s
  then_worker :
      (w : ℕ) {k : ℕ} {t : Pool} {m : Shared} {p : Worker}
      → Moves n s k t
      → w < n
      → WorkerMove w t.shared (t.workers w) m p
      → Moves n s (suc k) (record { shared = m; workers = set_at t.workers w p })
  then_pusher :
      (i : ℕ) {k : ℕ} {t : Pool} {m : Shared} {p : Pushing}
      → Moves n s k t
      → i < t.shared.spawned
      → PusherMove t.shared (t.shared.pushers i) m p
      → Moves n s (suc k) (record t { shared = record m { pushers = set_at t.shared.pushers i p } })

pub WorkerMove-fewer :
    {n w : ℕ} {m m' : Shared} (workers : ℕ → Worker) {p p' : Worker}
    → w < n
    → WorkerMove w m p m' p'
    → workers w ≡ p
    → steps_left n (record { shared = m'; workers = set_at workers w p' })
      < steps_left n (record { shared = m; workers = workers })
WorkerMove-fewer {n} {w} {m} workers {p' = p'} below (WorkerMove.spawn {n = x}) e = ground (
  arith,
  sum_of-set_at worker_steps workers w p' n below,
  sum_of-suc pusher_steps (set_at m.pushers m.spawned (pushing w x)) m.spawned,
  sum_of-set_above pusher_steps m.pushers m.spawned (pushing w x) m.spawned,
)
WorkerMove-fewer {n} {w} workers {p' = p'} below (WorkerMove.receive x rest q) e =
    ground (arith, q, sum_of-set_at worker_steps workers w p' n below)
WorkerMove-fewer {n} {w} workers {p' = p'} below mv e =
    ground (arith, sum_of-set_at worker_steps workers w p' n below)

pub PusherMove-fewer :
    (n : ℕ) {i : ℕ} {m m' : Shared} (workers : ℕ → Worker) {p p' : Pushing}
    → i < m.spawned
    → PusherMove m p m' p'
    → m.pushers i ≡ p
    → steps_left n
        (record { shared = record m' { pushers = set_at m.pushers i p' }; workers = workers })
      < steps_left n (record { shared = m; workers = workers })
PusherMove-fewer n {i = i} {m = m} workers {p' = p'} below PusherMove.return e =
    ground (arith, sum_of-set_at pusher_steps m.pushers i p' m.spawned below)
PusherMove-fewer n {i = i} {m = m} workers {p' = p'} below mv e =
    ground (arith, sum_of-set_at pusher_steps m.pushers i p' m.spawned below)

-- While nothing is sent to the channel, the workers and goroutines come to rest whatever the order
-- of their steps: every run of `k` steps uses up at least `k` of the steps left, of which there are
-- 14 for a notification in the channel, at most 13 for one that a worker holds, and at most 4 for a
-- goroutine. (A push with its retries is the time between two steps, and ends by itself.)
pub Moves-le :
    {n : ℕ} {s : Pool} {k : ℕ} {t : Pool} → Moves n s k t → k + steps_left n t ≤ steps_left n s
Moves-le stay = omega arith
Moves-le (then_worker w {t = u} moves below mv) =
    omega (arith, Moves-le moves, WorkerMove-fewer u.workers below mv refl)
Moves-le {n} (then_pusher i {t = u} moves below mv) =
    omega (arith, Moves-le moves, PusherMove-fewer n u.workers below mv refl)
