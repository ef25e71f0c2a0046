-- ===== src/Notification/Concurrent.antt =====
-- gaurun/notification.go: the goroutines of `go enqueueNotifications`, which share `SeqID` and the
-- queue, interleaved in any order. A step makes at most one access to what they share: the atomic
-- increment, one line of a log, one send to the channel.
pub mod Deliverable
pub mod Once
use gaurun.Prelude.{ℕ, suc, ◌+◌, ◌<◌, ◌≡◌, String, List, [], ◌∷◌, ◌++◌, none, some, set_at}
use gaurun.Conf.{ConfToml}
use gaurun.Log.{numbering_push}
use gaurun.Notification.{Notification}
use gaurun.Notification.Validate.{validate_notification}
use gaurun.Notification.Enqueue.{Event, logged_error, enabled_push, accept, for_token}

-- Where one goroutine stands: before the notifications that are left; in the loop over the tokens
-- that are left of one; or with what it still has to log and send for one token.
pub data Enqueuing : Type 0 where
  outer : (left : List Notification) → Enqueuing
  inner : Notification → (tokens : List String) → (left : List Notification) → Enqueuing
  emitting :
      (events : List Event)
      → Notification
      → (tokens : List String) → (left : List Notification) → Enqueuing

-- A move of one goroutine: `SeqID` and its place before; then `SeqID`, what is logged or sent, and
-- its place after.
pub data EnqueueMove (conf : ConfToml) : ℕ → Enqueuing → ℕ → List Event → Enqueuing → Type 0 where
  reject :
      {seq_id : ℕ} {n : Notification} {left : List Notification} (e : String)
      → validate_notification conf.core.allows_empty_message n ≡ some e
      → EnqueueMove conf seq_id (outer (n ∷ left)) seq_id (logged_error e ∷ []) (outer left)
  begin :
      {seq_id : ℕ} {n : Notification} {left : List Notification}
      → validate_notification conf.core.allows_empty_message n ≡ none
      → EnqueueMove conf seq_id (outer (n ∷ left)) seq_id [] (inner n n.tokens left)
  number :
      {seq_id : ℕ} {n : Notification} {token : String} {tokens : List String}
      {left : List Notification}
      → EnqueueMove conf seq_id (inner n (token ∷ tokens) left) (numbering_push seq_id) [] (
          emitting
            (accept (enabled_push conf n) token (for_token n token (numbering_push seq_id)))
            n
            tokens
            left)
  emit :
      {seq_id : ℕ} {event : Event} {events : List Event} {n : Notification} {tokens : List String}
      {left : List Notification}
      → EnqueueMove conf seq_id
          (emitting (event ∷ events) n tokens left)
          seq_id
          (event ∷ [])
          (emitting events n tokens left)
  next_token :
      {seq_id : ℕ} {n : Notification} {tokens : List String} {left : List Notification}
      → EnqueueMove conf seq_id (emitting [] n tokens left) seq_id [] (inner n tokens left)
  next :
      {seq_id : ℕ} {n : Notification} {left : List Notification}
      → EnqueueMove conf seq_id (inner n [] left) seq_id [] (outer left)

-- The goroutines below `spawned` have been started; `trace` is what was logged and sent so far.
pub record Front : Type 0 where
  pub seq_id : ℕ
  pub spawned : ℕ
  pub goroutines : ℕ → Enqueuing
  pub trace : List Event

pub data FrontStep (conf : ConfToml) : Front → Front → Type 0 where
  -- A request to POST /push is accepted.
  spawn :
      {s : Front} (ns : List Notification)
      → FrontStep conf s (record s {
        spawned = suc s.spawned;
        goroutines = set_at s.goroutines s.spawned (outer ns);
      })
  run :
      {s : Front} (i : ℕ) {seq_id : ℕ} {events : List Event} {p : Enqueuing}
      → i < s.spawned
      → EnqueueMove conf s.seq_id (s.goroutines i) seq_id events p
      → FrontStep conf s (record s {
        seq_id = seq_id;
        goroutines = set_at s.goroutines i p;
        trace = s.trace ++ events;
      })

unfoldable pub front : ℕ → Front
front seq_id = record { seq_id = seq_id; spawned = 0; goroutines = λ i. outer []; trace = [] }

-- Reached from a first value of `SeqID` by a number of steps.
pub data FrontReach (conf : ConfToml) (first : ℕ) : ℕ → Front → Type 0 where
  start : FrontReach conf first 0 (front first)
  later :
      {k : ℕ} {s t : Front}
      → FrontReach conf first k s
      → FrontStep conf s t
      → FrontReach conf first (k + 1) t
