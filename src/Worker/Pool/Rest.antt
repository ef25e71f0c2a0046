-- ===== src/Worker/Pool/Rest.antt =====
-- How the workers and goroutines of gaurun/worker.go finish what there is.
use gaurun.Prelude.{ℕ, zero, suc, ◌<◌, ◌≤◌, refl, arith, inl, inr}
use gaurun.Worker.Pool.Defs.{Pool}
use gaurun.Worker.Pool.Progress.{IsAtRest, can_move}
use gaurun.Worker.Pool.Drain.{
  Moves, stay, then_worker, then_pusher, steps_left, Moves-le, WorkerMove-fewer, PusherMove-fewer,
}

-- `fuel` more steps are enough.
go_on :
    (n : ℕ) (s : Pool)
    → 0 < n
    → (fuel k : ℕ) (t : Pool) → Moves n s k t
    → steps_left n t ≤ fuel
    → (j : ℕ) × (u : Pool) × Moves n s j u × IsAtRest n u
go_on n s some zero k t moves left = elim (can_move n t some) [
  | inl (w, below, (m, p, mv)) ↦ absurd (omega (arith, WorkerMove-fewer t.workers below mv refl))
  | inr (inl (i, below, (m, p, mv))) ↦
      absurd (omega (arith, PusherMove-fewer n t.workers below mv refl))
  | inr (inr rest) ↦ (k, t, moves, rest)
]
go_on n s some (suc fuel) k t moves left = elim (can_move n t some) [
  | inl (w, below, (m, p, mv)) ↦
      go_on n s some fuel (suc k) _ (then_worker w moves below mv)
        (omega (arith, WorkerMove-fewer t.workers below mv refl))
  | inr (inl (i, below, (m, p, mv))) ↦
      go_on n s some fuel (suc k) _ (then_pusher i moves below mv)
        (omega (arith, PusherMove-fewer n t.workers below mv refl))
  | inr (inr rest) ↦ (k, t, moves, rest)
]

-- With at least one worker, every state of the pool has a run of its workers and goroutines alone
-- that ends at rest, with the channel empty, the workers idle and the goroutines ended; and it has
-- at most as many steps as the state has left.
pub comes_to_rest :
    (n : ℕ) (s : Pool)
    → 0 < n
    → (k : ℕ) × (t : Pool) × Moves n s k t × IsAtRest n t × (k ≤ steps_left n s)
comes_to_rest n s some =
    let (k, t, moves, rest) = go_on n s some (steps_left n s) 0 s stay (omega arith) in
    (k, t, moves, rest, omega (arith, Moves-le moves))
