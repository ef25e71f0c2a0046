-- ===== src/Worker/Pool/Limit.antt =====
-- The limit `pusher_max` on asynchronous pushes, gaurun/worker.go.
use gaurun.Prelude.{ℕ, ℤ, pos, ◌≡◌, refl, arith, ◌+ℤ◌, ◌≤ℤ◌, ◌<ℤ◌, set_at}
use gaurun.Worker.Pool.Defs.{
  Worker, loaded, room, Pushing, Shared, WorkerMove, PusherMove, Pool, Step, work, run, enqueue,
  set_limit, init, Reach, start, later, minus_one,
}

-- The states reached while no limit above `most` is set.
pub data ReachUnder (n cap : ℕ) (limit most : ℤ) : Pool → Type 0 where
  begin : limit ≤ℤ most → ReachUnder n cap limit most (init limit)
  further :
      {s t : Pool}
      → ReachUnder n cap limit most s
      → Step n cap s t
      → t.shared.pusher_max ≤ℤ most
      → ReachUnder n cap limit most t

pub Reach_of_under :
    {n cap : ℕ} {limit most : ℤ} {s : Pool} → ReachUnder n cap limit most s → Reach n cap limit s
Reach_of_under (begin h) = start
Reach_of_under (further r st h) = later (Reach_of_under r) st

-- What a worker that stands at `p` knows of its `pusherCount`.
abbrev pub Knows : ℤ → ℤ → Worker → Type 0
Knows most k (loaded x c) = k ≤ℤ c
Knows most k (room x) = k <ℤ most
Knows most k _ = Unit

pub record Within (most : ℤ) (m : Shared) (workers : ℕ → Worker) : Type 0 where
  pub limit : m.pusher_max ≤ℤ most
  pub count : (v : ℕ) → m.own_count v ≤ℤ most
  pub knows : (v : ℕ) → Knows most (m.own_count v) (workers v)

module _ {w : ℕ} {most : ℤ} {m : Shared} {workers : ℕ → Worker} (h : Within most m workers) where
  WorkerMove-count :
      {p p' : Worker} {m' : Shared}
      → WorkerMove w m p m' p'
      → workers w ≡ p
      → (v : ℕ) → m'.own_count v ≤ℤ most
  WorkerMove-count WorkerMove.reserve e v = unfold ◌+ℤ◌ in ground (arith, h.count v, h.knows w)
  WorkerMove-count mv e v = h.count v

  WorkerMove-Knows :
      {p p' : Worker} {m' : Shared}
      → WorkerMove w m p m' p'
      → workers w ≡ p
      → (v : ℕ) → Knows most (m'.own_count v) (set_at workers w p' v)
  WorkerMove-Knows (WorkerMove.below lt) e v = ground (arith, h.knows v, h.limit)
  WorkerMove-Knows WorkerMove.reserve e v = ground (arith, h.knows v)
  WorkerMove-Knows mv e v = ground (arith, h.knows v, h.limit)

  WorkerMove-Within :
      {p' : Worker} {m' : Shared}
      → WorkerMove w m (workers w) m' p'
      → m'.pusher_max ≤ℤ most
      → Within most m' (set_at workers w p')
  WorkerMove-Within mv l = record {
    limit = l;
    count = WorkerMove-count mv refl;
    knows = WorkerMove-Knows mv refl;
  }

Knows-mono : (most k k' : ℤ) (p : Worker) → k' ≤ℤ k → Knows most k p → Knows most k' p
Knows-mono most k k' (loaded x c) le known = omega arith
Knows-mono most k k' (room x) le known = omega arith
Knows-mono most k k' _ le known = tt

lowered-le : (f : ℕ → ℤ) (w v : ℕ) → set_at f w (f w +ℤ minus_one) v ≤ℤ f v
unfolding ◌+ℤ◌
lowered-le f w v = ground arith

le_trans_ℤ : (a b c : ℤ) → a ≤ℤ b → b ≤ℤ c → a ≤ℤ c
le_trans_ℤ a b c h k = omega arith

-- A goroutine only takes a count down.
PusherMove-Within :
    {most : ℤ} {m : Shared} {workers : ℕ → Worker} (family : ℕ → Pushing) {p p' : Pushing}
    {m' : Shared}
    → Within most m workers
    → PusherMove m p m' p'
    → Within most (record m' { pushers = family }) workers
PusherMove-Within {most} {m} {workers} family h (PusherMove.release {w = w}) = record {
  limit = h.limit;
  count = λ v.
      le_trans_ℤ (set_at m.own_count w (m.own_count w +ℤ minus_one) v) (m.own_count v) most
        (lowered-le m.own_count w v) (h.count v);
  knows = λ v.
      Knows-mono most (m.own_count v) (set_at m.own_count w (m.own_count w +ℤ minus_one) v)
        (workers v) (lowered-le m.own_count w v) (h.knows v);
}
PusherMove-Within family h mv = record { limit = h.limit; count = h.count; knows = h.knows }

Step-Within :
    {n cap : ℕ} {most : ℤ} {s t : Pool}
    → Step n cap s t
    → t.shared.pusher_max ≤ℤ most
    → Within most s.shared s.workers
    → Within most t.shared t.workers
Step-Within (work w below mv) l h = WorkerMove-Within h mv l
Step-Within (run i below mv) l h = PusherMove-Within _ h mv
Step-Within (enqueue x fits) l h = record { limit = h.limit; count = h.count; knows = h.knows }
Step-Within (set_limit limit nonneg) l h = record { limit = l; count = h.count; knows = h.knows }

pub ReachUnder-Within :
    {n cap : ℕ} {limit most : ℤ} {s : Pool}
    → pos 0 ≤ℤ most
    → ReachUnder n cap limit most s
    → Within most s.shared s.workers
unfolding init
ReachUnder-Within nonneg (begin h) = record { limit = h; count = λ v. nonneg; knows = λ v. tt }
ReachUnder-Within nonneg (further r st l) = Step-Within st l (ReachUnder-Within nonneg r)
