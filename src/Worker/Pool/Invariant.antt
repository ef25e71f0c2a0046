-- ===== src/Worker/Pool/Invariant.antt =====
-- The counters of gaurun/worker.go under the steps of the goroutines, and in every reachable state.
use gaurun.Prelude.{
  ℕ, ℤ, pos, ◌+◌, ◌<◌, ◌≡◌, refl, ap, arith, [], ◌∷◌, ◌+ℤ◌, length-append, set_at, sum_of,
  sum_of-set_at, sum_of-eq-zero,
}
use gaurun.Worker.Pool.Defs.{
  Worker, idle, Pushing, unborn, released, uncounted, over, Shared, PusherMove, Pool, Step, work,
  run, enqueue, set_limit, init, Reach, start, later,
}
use gaurun.Worker.Pool.Counts.{
  in_own, in_all, in_wg, in_hand, for_own, for_all, for_wg, for_hand, Inv, WorkerMove-Inv,
}

module _ {n i : ℕ} {m : Shared} {workers : ℕ → Worker} (inv : Inv n m workers)
    (born_before : i < m.spawned) where
  changed :
      (weight : Pushing → ℕ) (p' : Pushing)
      → weight (m.pushers i) + sum_of weight (set_at m.pushers i p') m.spawned
        ≡ weight p' + sum_of weight m.pushers m.spawned
  changed weight p' = sum_of-set_at weight m.pushers i p' m.spawned born_before

  PusherMove-own :
      {p p' : Pushing} {m' : Shared}
      → PusherMove m p m' p'
      → m.pushers i ≡ p
      → (v : ℕ)
      → m'.own_count v
        ≡ pos (in_own (workers v) + sum_of (for_own v) (set_at m.pushers i p') m.spawned)
  PusherMove-own (PusherMove.release {w = w}) e v =
      unfold ◌+ℤ◌ in ground (arith, inv.own v, inv.own w, changed (for_own v) released)
  PusherMove-own {p'} mv e v = ground (arith, inv.own v, changed (for_own v) p')

  PusherMove-all :
      {p p' : Pushing} {m' : Shared}
      → PusherMove m p m' p'
      → m.pushers i ≡ p
      → m'.count_all
        ≡ pos (sum_of in_all workers n + sum_of for_all (set_at m.pushers i p') m.spawned)
  PusherMove-all PusherMove.uncount e =
      unfold ◌+ℤ◌ in ground (arith, inv.all, changed for_all uncounted)
  PusherMove-all {p'} mv e = ground (arith, inv.all, changed for_all p')

  PusherMove-wg :
      {p p' : Pushing} {m' : Shared}
      → PusherMove m p m' p'
      → m.pushers i ≡ p
      → m'.wait_group
        ≡ pos (sum_of in_wg workers n + sum_of for_wg (set_at m.pushers i p') m.spawned)
  PusherMove-wg PusherMove.done e = unfold ◌+ℤ◌ in ground (arith, inv.wg, changed for_wg over)
  PusherMove-wg {p'} mv e = ground (arith, inv.wg, changed for_wg p')

  PusherMove-Inv :
      {p p' : Pushing} {m' : Shared}
      → PusherMove m p m' p'
      → m.pushers i ≡ p
      → Inv n (record m' { pushers = set_at m.pushers i p' }) workers
  PusherMove-Inv {p'} PusherMove.return e = record {
    own = PusherMove-own PusherMove.return e;
    all = PusherMove-all PusherMove.return e;
    wg = PusherMove-wg PusherMove.return e;
    hand = ground (arith, inv.hand, changed for_hand p');
  }
  PusherMove-Inv {p'} mv e = record {
    own = PusherMove-own mv e;
    all = PusherMove-all mv e;
    wg = PusherMove-wg mv e;
    hand = ground (arith, inv.hand, changed for_hand p');
  }

-- Every step keeps the invariant.
pub Step-Inv :
    {n cap : ℕ} {s t : Pool} → Step n cap s t → Inv n s.shared s.workers → Inv n t.shared t.workers
Step-Inv (work w below mv) inv = WorkerMove-Inv inv below mv
Step-Inv (run i below mv) inv = PusherMove-Inv inv below mv refl
Step-Inv {s} (enqueue x fits) inv = record {
  own = inv.own;
  all = inv.all;
  wg = inv.wg;
  hand = omega (arith, inv.hand, length-append s.shared.queue (x ∷ []));
}
Step-Inv (set_limit limit nonneg) inv = record {
  own = inv.own;
  all = inv.all;
  wg = inv.wg;
  hand = inv.hand;
}

init-Inv : (n : ℕ) (limit : ℤ) → Inv n (init limit).shared (init limit).workers
unfolding init
init-Inv n limit = record {
  own = λ v. ap pos (omega (arith, no_pushers (for_own v) refl));
  all = ap pos (omega (arith, no_workers in_all refl, no_pushers for_all refl));
  wg = ap pos (omega (arith, no_workers in_wg refl, no_pushers for_wg refl));
  hand = omega (arith, no_workers in_hand refl, no_pushers for_hand refl);
}
  where
    no_workers : (weight : Worker → ℕ) → weight idle ≡ 0 → sum_of weight (λ _. idle) n ≡ 0
    no_workers weight e = sum_of-eq-zero weight (λ _. idle) n (λ _. e)

    no_pushers : (weight : Pushing → ℕ) → weight unborn ≡ 0 → sum_of weight (λ _. unborn) 0 ≡ 0
    no_pushers weight e = sum_of-eq-zero weight (λ _. unborn) 0 (λ _. e)

pub Reach-Inv : {n cap : ℕ} {limit : ℤ} {s : Pool} → Reach n cap limit s → Inv n s.shared s.workers
Reach-Inv {n} {limit} start = init-Inv n limit
Reach-Inv (later r st) = Step-Inv st (Reach-Inv r)
