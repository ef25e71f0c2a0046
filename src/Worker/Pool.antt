-- ===== src/Worker/Pool.antt =====
-- gaurun/worker.go: the workers and the goroutines that they start, interleaved in any order. One
-- step is one access to shared state: the channel, a counter, the wait group. A call of the pusher
-- with its retries is the time between two steps. Counters are int64; they are integers here.
pub mod Defs
mod Counts
mod Invariant
pub mod Limit
pub mod Laws
pub mod Progress
pub mod Drain
pub mod Rest
unfoldable pub use Defs.*
pub use Counts.*
