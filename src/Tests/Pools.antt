-- ===== src/Tests/Pools.antt =====
-- A run of two workers.
use gaurun.Prelude.{◌≤◌, ℕ, pos, ◌≡◌, refl, [], ◌∷◌, arith, sum_of, ◌+◌, ◌⊎◌, inl, ◌≤ℤ◌}
use gaurun.Notification.{Notification}
use gaurun.Worker.Pool.{
  Pool, work, run, enqueue, Reach, start, later, WorkerMove, PusherMove, idle, over, unborn, Inv,
  init, for_own,
}
use gaurun.Worker.Pool.Progress.{IsAtRest}
use gaurun.Worker.Pool.Drain.{Moves, steps_left}
use gaurun.Worker.Pool.Rest.{comes_to_rest}
use gaurun.Worker.Pool.Laws.{Reach-counts, IsQuiet, quiet_counts, own_count-le, wait_misses_queue}
use gaurun.Worker.Pool.Limit.{ReachUnder, begin, further}
use gaurun.Tests.Samples.{notification}

abbrev item : Notification
item = notification (pos 1) ("a" ∷ [])

-- Worker 0 takes the one notification and starts a goroutine for it.
under_way : (s : Pool) × Reach 2 8 (pos 1) s
unfolding init
under_way = (
  _,
  later
      (later
        (later
          (later
            (later
              (later
                (later
                  (later (later start (enqueue item (omega arith)))
                    (work 0 (omega arith) (WorkerMove.receive item [] refl)))
                  (work 0 (omega arith) (WorkerMove.check (inl refl) (omega arith))))
                (work 0 (omega arith) WorkerMove.load))
              (work 0 (omega arith) (WorkerMove.below (omega arith))))
            (work 0 (omega arith) WorkerMove.reserve))
          (work 0 (omega arith) WorkerMove.count))
        (work 0 (omega arith) WorkerMove.add))
      (work 0 (omega arith) WorkerMove.spawn),
)

Reach-counts_example : Inv 2 under_way.0.shared under_way.0.workers
Reach-counts_example = Reach-counts under_way.1

-- The goroutine runs to its end.
at_rest : (s : Pool) × Reach 2 8 (pos 1) s
unfolding init under_way
at_rest = (
  _,
  later
      (later
        (later (later under_way.1 (run 0 (omega arith) PusherMove.return))
          (run 0 (omega arith) PusherMove.release))
        (run 0 (omega arith) PusherMove.uncount))
      (run 0 (omega arith) PusherMove.done),
)

at_rest-IsQuiet : IsQuiet at_rest.0
unfolding init under_way at_rest
at_rest-IsQuiet = record { empty = refl; workers = workers_lem; pushers = pushers_lem }
  where
    workers_lem : (w : ℕ) → at_rest.0.workers w ≡ idle
    workers_lem w = ground arith

    pushers_lem :
        (i : ℕ) → (at_rest.0.shared.pushers i ≡ over) ⊎ (at_rest.0.shared.pushers i ≡ unborn)
    pushers_lem i = ground arith

quiet_counts_example :
    ((v : ℕ) → at_rest.0.shared.own_count v ≡ pos 0)
    × (at_rest.0.shared.count_all ≡ pos 0)
    × (at_rest.0.shared.wait_group ≡ pos 0)
    × (at_rest.0.shared.entered ≡ at_rest.0.shared.returned + at_rest.0.shared.skipped)
quiet_counts_example = quiet_counts at_rest.1 at_rest-IsQuiet

-- With a limit of 1, worker 0 counts itself to the limit.
counting : (s : Pool) × ReachUnder 2 8 (pos 1) (pos 1) s
unfolding init
counting = (
  _,
  further
      (further
        (further
          (further
            (further (further (begin (omega arith)) (enqueue item (omega arith)) (omega arith))
              (work 0 (omega arith) (WorkerMove.receive item [] refl)) (omega arith))
            (work 0 (omega arith) (WorkerMove.check (inl refl) (omega arith))) (omega arith))
          (work 0 (omega arith) WorkerMove.load) (omega arith))
        (work 0 (omega arith) (WorkerMove.below (omega arith))) (omega arith))
      (work 0 (omega arith) WorkerMove.reserve) (omega arith),
)

own_count-le_example :
    (counting.0.shared.own_count 0 ≤ℤ pos 1)
    × (pos (sum_of (for_own 0) counting.0.shared.pushers counting.0.shared.spawned) ≤ℤ pos 1)
own_count-le_example = own_count-le (omega arith) counting.1 0

wait_misses_queue_example :
    (s : Pool) × Reach 2 8 (pos 1) s
    × (s.shared.queue ≡ item ∷ item ∷ [])
    × (s.shared.wait_group ≡ pos 0)
wait_misses_queue_example = wait_misses_queue 2 8 (pos 1) (item ∷ item ∷ []) (omega arith)

comes_to_rest_example :
    (k : ℕ) × (t : Pool) × Moves 2 under_way.0 k t × IsAtRest 2 t × (k ≤ steps_left 2 under_way.0)
comes_to_rest_example = comes_to_rest 2 under_way.0 (omega arith)
