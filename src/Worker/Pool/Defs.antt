-- ===== src/Worker/Pool/Defs.antt =====
-- The state of `StartPushWorkers`, `pushNotificationWorker`, `pushSync` and `pushAsync`.
use gaurun.Prelude.{
  ℕ, suc, ℤ, pos, negsuc, ◌+◌, ◌<◌, ◌≡◌, ◌≢◌, ◌⊎◌, List, [], ◌∷◌, ◌++◌, ◌+ℤ◌, ◌≤ℤ◌, ◌<ℤ◌, length,
  set_at,
}
use gaurun.Notification.{Notification, platform_ios, platform_android}

-- Where a worker stands, with the notification that it holds.
pub data Worker : Type 0 where
  idle : Worker
  got : Notification → Worker
  -- `PusherMax` was found positive
  checked : Notification → Worker
  -- `pusherCount` was read as `c`
  loaded : Notification → (c : ℤ) → Worker
  -- `pusherCount` was found below `PusherMax`
  room : Notification → Worker
  reserved : Notification → Worker
  counted : Notification → Worker
  added : Notification → Worker
  sync_start : Notification → Worker
  syncing : Notification → Worker

-- A goroutine of `pushAsync`, with the worker that started it.
pub data Pushing : Type 0 where
  unborn : Pushing
  pushing : (owner : ℕ) → Notification → Pushing
  pushed : (owner : ℕ) → Pushing
  released : Pushing
  uncounted : Pushing
  over : Pushing

-- What is shared. The last three fields are history: the notifications sent to the channel, those
-- whose push has returned, and those of no platform.
pub record Shared : Type 0 where
  pub queue : List Notification
  pub pusher_max : ℤ
  pub own_count : ℕ → ℤ
  pub count_all : ℤ
  pub wait_group : ℤ
  pub pushers : ℕ → Pushing
  pub spawned : ℕ
  pub entered : ℕ
  pub returned : ℕ
  pub skipped : ℕ

abbrev pub minus_one : ℤ
minus_one = negsuc 0

abbrev pub IsKnown : Notification → Type 0
IsKnown n = (n.platform ≡ platform_ios) ⊎ (n.platform ≡ platform_android)

-- One step of worker `w`.
pub data WorkerMove (w : ℕ) (m : Shared) : Worker → Shared → Worker → Type 0 where
  receive :
      (n : Notification) (rest : List Notification)
      → m.queue ≡ n ∷ rest
      → WorkerMove w m idle (record m { queue = rest }) (got n)
  skip :
      {n : Notification}
      → n.platform ≢ platform_ios
      → n.platform ≢ platform_android
      → WorkerMove w m (got n) (record m { skipped = m.skipped + 1 }) idle
  go_sync :
      {n : Notification}
      → IsKnown n
      → m.pusher_max ≤ℤ pos 0
      → WorkerMove w m (got n) m (sync_start n)
  check :
      {n : Notification} → IsKnown n → pos 0 <ℤ m.pusher_max → WorkerMove w m (got n) m (checked n)
  load : {n : Notification} → WorkerMove w m (checked n) m (loaded n (m.own_count w))
  below : {n : Notification} {c : ℤ} → c <ℤ m.pusher_max → WorkerMove w m (loaded n c) m (room n)
  full :
      {n : Notification} {c : ℤ} → m.pusher_max ≤ℤ c → WorkerMove w m (loaded n c) m (sync_start n)
  reserve :
      {n : Notification}
      → WorkerMove w m
          (room n)
          (record m { own_count = set_at m.own_count w (m.own_count w +ℤ pos 1) })
          (reserved n)
  count :
      {n : Notification}
      → WorkerMove w m (reserved n) (record m { count_all = m.count_all +ℤ pos 1 }) (counted n)
  add :
      {n : Notification}
      → WorkerMove w m (counted n) (record m { wait_group = m.wait_group +ℤ pos 1 }) (added n)
  spawn :
      {n : Notification}
      → WorkerMove w m
          (added n)
          (record m { pushers = set_at m.pushers m.spawned (pushing w n); spawned = suc m.spawned })
          idle
  begin_sync :
      {n : Notification}
      → WorkerMove w m (sync_start n) (record m { wait_group = m.wait_group +ℤ pos 1 }) (syncing n)
  end_sync :
      {n : Notification}
      → WorkerMove w m
          (syncing n)
          (record m { wait_group = m.wait_group +ℤ minus_one; returned = m.returned + 1 })
          idle

-- One step of a goroutine: the push returns, and the three counters are taken down.
pub data PusherMove (m : Shared) : Pushing → Shared → Pushing → Type 0 where
  return :
      {w : ℕ} {n : Notification}
      → PusherMove m (pushing w n) (record m { returned = m.returned + 1 }) (pushed w)
  release :
      {w : ℕ}
      → PusherMove m
          (pushed w)
          (record m { own_count = set_at m.own_count w (m.own_count w +ℤ minus_one) })
          released
  uncount : PusherMove m released (record m { count_all = m.count_all +ℤ minus_one }) uncounted
  done : PusherMove m uncounted (record m { wait_group = m.wait_group +ℤ minus_one }) over

pub record Pool : Type 0 where
  pub shared : Shared
  pub workers : ℕ → Worker

-- `n` workers and a channel of capacity `cap`; `enqueueNotifications` sends to it, and
-- `ConfigPushersHandler` stores a new limit.
pub data Step (n cap : ℕ) (s : Pool) : Pool → Type 0 where
  work :
      (w : ℕ) {m : Shared} {p : Worker}
      → w < n
      → WorkerMove w s.shared (s.workers w) m p
      → Step n cap s (record { shared = m; workers = set_at s.workers w p })
  run :
      (i : ℕ) {m : Shared} {p : Pushing}
      → i < s.shared.spawned
      → PusherMove s.shared (s.shared.pushers i) m p
      → Step n cap s (record s { shared = record m { pushers = set_at s.shared.pushers i p } })
  enqueue :
      (x : Notification)
      → length s.shared.queue < cap
      → Step n cap s (record s {
        shared = record (s.shared) {
          queue = s.shared.queue ++ x ∷ [];
          entered = s.shared.entered + 1;
        };
      })
  set_limit :
      (limit : ℤ)
      → pos 0 ≤ℤ limit
      → Step n cap s (record s { shared = record (s.shared) { pusher_max = limit } })

-- After `StartPushWorkers`, with the configured limit.
unfoldable pub init : ℤ → Pool
init limit = record {
  shared = record {
    queue = [];
    pusher_max = limit;
    own_count = λ _. pos 0;
    count_all = pos 0;
    wait_group = pos 0;
    pushers = λ _. unborn;
    spawned = 0;
    entered = 0;
    returned = 0;
    skipped = 0;
  };
  workers = λ _. idle;
}

pub data Reach (n cap : ℕ) (limit : ℤ) : Pool → Type 0 where
  start : Reach n cap limit (init limit)
  later : {s t : Pool} → Reach n cap limit s → Step n cap s t → Reach n cap limit t
