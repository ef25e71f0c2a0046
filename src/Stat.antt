-- ===== src/Stat.antt =====
-- gaurun/stat.go: the counters, each an int64 by its bits, and what `GET /stat/app` reports.
use gaurun.Prelude.{ℕ, ℤ, ◌+◌, ◌%◌, ◌^◌, ◌*ℤ◌, to_int64}

pub record Stat : Type 0 where
  pub ios_success : ℕ
  pub ios_error : ℕ
  pub android_success : ℕ
  pub android_error : ℕ

-- `InitStat`; its two other fields are never read.
unfoldable pub init_stat : Stat → Stat
init_stat s = record s { ios_success = 0; ios_error = 0; android_success = 0; android_error = 0 }

-- `atomic.AddInt64`
abbrev pub add_int64 : ℕ → ℕ → ℕ
add_int64 counter n = (counter + n) % 2 ^ 64

pub record StatApp : Type 0 where
  pub queue_max : ℕ
  pub queue_usage : ℕ
  pub pusher_max : ℤ
  pub pusher_count : ℕ
  pub counters : Stat

-- `StatsHandler`: the report that is encoded as the body.
unfoldable pub stats_handler :
    (queue_cap queue_len : ℕ) (pusher_max worker_num : ℤ) (pusher_count_all : ℕ) → Stat → StatApp
stats_handler queue_cap queue_len pusher_max worker_num pusher_count_all s = record {
  queue_max = queue_cap;
  queue_usage = queue_len;
  pusher_max = to_int64 (pusher_max *ℤ worker_num);
  pusher_count = pusher_count_all;
  counters = s;
}
