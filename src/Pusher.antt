-- ===== src/Pusher.antt =====
-- gaurun/notification.go: what a pusher does with a notification from the queue.
pub mod Ios
pub mod Android
pub mod Laws
pub mod Dispatch
pub mod Ends
pub mod Books
pub mod Payload
pub mod Genuine
pub mod Totals
use gaurun.Prelude.{ℕ, List, Option, ◌++◌, [], ◌∷◌}
use gaurun.Buford.Token.{Token}
use gaurun.Log.{Line}
use gaurun.Stat.{Stat}

-- What a push reads and changes: `APNSClient.Token` with its cached signature (none for a client
-- with a certificate), `StatGaurun`, the lines logged so far, and the world outside.
pub record World (E Key : Type 0) : Type 0 where
  pub token : Option (Token Key)
  pub stats : Stat
  pub lines : List Line
  pub env : E
