-- ===== src/Worker/Pool/Counts.antt =====
-- What each counter of gaurun/worker.go counts: weights of the workers and of the goroutines.
use gaurun.Prelude.{
  ℕ, suc, pos, ◌+◌, ◌<◌, ◌≡◌, refl, arith, ◌+ℤ◌, ◌==◌, if◌then◌else◌, length, set_at, sum_of,
  sum_of-set_at, sum_of-set_new,
}
use gaurun.Worker.Pool.Defs.{
  Worker, idle, got, reserved, counted, added, syncing, Pushing, unborn, pushing, pushed, released,
  over, Shared, WorkerMove,
}

-- The worker has added itself to `pusherCount`, to `PusherCountAll`, to the wait group.
abbrev pub in_own : Worker → ℕ
in_own (reserved n) = 1
in_own (counted n) = 1
in_own (added n) = 1
in_own _ = 0

abbrev pub in_all : Worker → ℕ
in_all (counted n) = 1
in_all (added n) = 1
in_all _ = 0

abbrev pub in_wg : Worker → ℕ
in_wg (added n) = 1
in_wg (syncing n) = 1
in_wg _ = 0

-- It holds a notification.
abbrev pub in_hand : Worker → ℕ
in_hand idle = 0
in_hand _ = 1

-- A goroutine counts in the `pusherCount` of worker `v`, in `PusherCountAll`, in the wait group; its
-- push has not returned.
abbrev pub for_own : ℕ → Pushing → ℕ
for_own v (pushing w n) = if w == v then 1 else 0
for_own v (pushed w) = if w == v then 1 else 0
for_own v _ = 0

abbrev pub for_all : Pushing → ℕ
for_all (pushing w n) = 1
for_all (pushed w) = 1
for_all released = 1
for_all _ = 0

abbrev pub for_wg : Pushing → ℕ
for_wg unborn = 0
for_wg over = 0
for_wg _ = 1

abbrev pub for_hand : Pushing → ℕ
for_hand (pushing w n) = 1
for_hand _ = 0

pub record Inv (n : ℕ) (m : Shared) (workers : ℕ → Worker) : Type 0 where
  pub own :
      (v : ℕ) → m.own_count v ≡ pos (in_own (workers v) + sum_of (for_own v) m.pushers m.spawned)
  pub all : m.count_all ≡ pos (sum_of in_all workers n + sum_of for_all m.pushers m.spawned)
  pub wg : m.wait_group ≡ pos (sum_of in_wg workers n + sum_of for_wg m.pushers m.spawned)
  pub hand :
      m.entered
      ≡ length m.queue
        + sum_of in_hand workers n
        + sum_of for_hand m.pushers m.spawned
        + m.returned
        + m.skipped

-- A new goroutine adds its weight.
born :
    (weight : Pushing → ℕ) (m : Shared) (p : Pushing)
    → sum_of weight (set_at m.pushers m.spawned p) (suc m.spawned)
      ≡ weight p + sum_of weight m.pushers m.spawned
born weight m p = sum_of-set_new weight m.pushers m.spawned p

module _ {n w : ℕ} {m : Shared} {workers : ℕ → Worker} (inv : Inv n m workers) (below : w < n) where
  WorkerMove-own :
      {p p' : Worker} {m' : Shared}
      → WorkerMove w m p m' p'
      → workers w ≡ p
      → (v : ℕ)
      → m'.own_count v
        ≡ pos (in_own (set_at workers w p' v) + sum_of (for_own v) m'.pushers m'.spawned)
  WorkerMove-own (WorkerMove.spawn {n = x}) e v =
      ground (arith, inv.own v, born (for_own v) m (pushing w x))
  WorkerMove-own WorkerMove.reserve e v = unfold ◌+ℤ◌ in ground (arith, inv.own v)
  WorkerMove-own mv e v = ground (arith, inv.own v)

  -- The weights of the workers before and after the move.
  exchanged :
      (weight : Worker → ℕ) (p' : Worker)
      → weight (workers w) + sum_of weight (set_at workers w p') n
        ≡ weight p' + sum_of weight workers n
  exchanged weight p' = sum_of-set_at weight workers w p' n below

  WorkerMove-all :
      {p p' : Worker} {m' : Shared}
      → WorkerMove w m p m' p'
      → workers w ≡ p
      → m'.count_all
        ≡ pos (sum_of in_all (set_at workers w p') n + sum_of for_all m'.pushers m'.spawned)
  WorkerMove-all (WorkerMove.spawn {n = x}) e =
      ground (arith, inv.all, exchanged in_all idle, born for_all m (pushing w x))
  WorkerMove-all {p'} (WorkerMove.count {n = x}) e =
      unfold ◌+ℤ◌ in ground (arith, inv.all, exchanged in_all (counted x))
  WorkerMove-all {p'} mv e = ground (arith, inv.all, exchanged in_all p')

  WorkerMove-wg :
      {p p' : Worker} {m' : Shared}
      → WorkerMove w m p m' p'
      → workers w ≡ p
      → m'.wait_group
        ≡ pos (sum_of in_wg (set_at workers w p') n + sum_of for_wg m'.pushers m'.spawned)
  WorkerMove-wg (WorkerMove.spawn {n = x}) e =
      ground (arith, inv.wg, exchanged in_wg idle, born for_wg m (pushing w x))
  WorkerMove-wg (WorkerMove.add {n = x}) e =
      unfold ◌+ℤ◌ in ground (arith, inv.wg, exchanged in_wg (added x))
  WorkerMove-wg (WorkerMove.begin_sync {n = x}) e =
      unfold ◌+ℤ◌ in ground (arith, inv.wg, exchanged in_wg (syncing x))
  WorkerMove-wg (WorkerMove.end_sync {n = x}) e =
      unfold ◌+ℤ◌ in ground (arith, inv.wg, exchanged in_wg idle)
  WorkerMove-wg {p'} mv e = ground (arith, inv.wg, exchanged in_wg p')

  WorkerMove-hand :
      {p p' : Worker} {m' : Shared}
      → WorkerMove w m p m' p'
      → workers w ≡ p
      → m'.entered
        ≡ length m'.queue
          + sum_of in_hand (set_at workers w p') n
          + sum_of for_hand m'.pushers m'.spawned
          + m'.returned
          + m'.skipped
  WorkerMove-hand (WorkerMove.spawn {n = x}) e =
      ground (arith, inv.hand, exchanged in_hand idle, born for_hand m (pushing w x))
  WorkerMove-hand (WorkerMove.receive x rest q) e =
      ground (arith, inv.hand, exchanged in_hand (got x))
  WorkerMove-hand {p'} mv e = ground (arith, inv.hand, exchanged in_hand p')

  pub WorkerMove-Inv :
      {p' : Worker} {m' : Shared}
      → WorkerMove w m (workers w) m' p'
      → Inv n m' (set_at workers w p')
  WorkerMove-Inv mv = record {
    own = WorkerMove-own mv refl;
    all = WorkerMove-all mv refl;
    wg = WorkerMove-wg mv refl;
    hand = WorkerMove-hand mv refl;
  }
